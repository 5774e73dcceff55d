-- ===== src/Chat/Runs.antt =====
-- The states that the chat service can reach: the calls that write, in any order.
use lbpr.Prelude.{ℕ, ◌≡◌, Option, none, String}
use lbpr.Dict
use lbpr.Chat.Contracts.{CreateChatRequest, PostUserMessageRequest, LlmAdapter, RetrievalAdapter}
use lbpr.Chat.Action.{State}
use lbpr.Chat.Service.{init, create_chat}
use lbpr.Chat.Posting.{Fresh, post_user_message}
use lbpr.Chat.Invariant.{IsValid, IsValid-init, create_chat-IsValid}
use lbpr.Chat.Invariant.Posting.{post_user_message-IsValid}

-- One call. A new chat's id comes from `uuid4`: it is in use nowhere.
pub data Step (s : State) : State → Type 0 where
  create :
      (chat_id : String) (now : ℕ) (req : CreateChatRequest)
      → Dict.lookup chat_id s.chats ≡ none
      → Step s (create_chat chat_id now req s).1
  post :
      (f : Fresh) (req : PostUserMessageRequest) (llm : LlmAdapter) (r : Option RetrievalAdapter)
      → Step s (post_user_message f req llm r s).1

pub data Reach : State → Type 0 where
  start : Reach init
  next : {s t : State} → Reach s → Step s t → Reach t

Step-IsValid : {s t : State} → Step s t → IsValid s → IsValid t
Step-IsValid {s} (create chat_id now req fresh) h = create_chat-IsValid chat_id now req s fresh h
Step-IsValid {s} (post f req llm r) h = post_user_message-IsValid f req llm r s h

-- In every state that calls of `create_chat` and `post_user_message` lead to, with whatever answers
-- and failures of the ports, the three dictionaries agree.
pub Reach-IsValid : {s : State} → Reach s → IsValid s
Reach-IsValid start = IsValid-init
Reach-IsValid (next r step) = Step-IsValid step (Reach-IsValid r)
