-- ===== src/Chat/Tests.antt =====
-- A run of the chat service with two tenants, and its theorems in its states.
use lbpr.Prelude.{
  String, ◌≡◌, ◌≢◌, refl, true, none, some, List, [], ◌∷◌, ◌++◌, map, take, arith, eq_iff, All,
}
use lbpr.Dict
use lbpr.Dict.{Dict, lookup, insert}
use lbpr.Chat.Contracts.{
  Chat, Citation, GetChatRequest, ListMessagesRequest, asc, desc, CreateChatRequest,
  PostUserMessageRequest, RetrievalAdapter, LlmAdapter,
}
use lbpr.Chat.Action.{State, ok, err}
use lbpr.Chat.Service.{init, create_chat, new_chat, list_chats, get_chat, list_messages, is_blank}
use lbpr.Chat.Posting.{Fresh, post_user_message, retrieved, join_paragraphs}
use lbpr.Chat.Transcript.{MayPost, added_after, post_user_message-transcript}
use lbpr.Chat.Answers.{result_after, post_user_message-result}
use lbpr.Chat.Tenancy.{refusal, Hidden-refused}
use lbpr.Chat.Invariant.{IsValid, ids_of}
use lbpr.Chat.Listing.{list_chats_exact, list_chats-create_chat}
use lbpr.Chat.Runs.{Reach, start, next, create, post, Reach-IsValid}
use lbpr.Chat.Http.{
  fake_llm, PostMessageBody, unhandled, post_chats, get_chats, get_chats_id, get_messages,
  post_messages,
}
use lbpr.Chat.Http.Handled.{routes_handled}

program : Unit {0}
unfolding create_chat list_chats get_chat list_messages post_user_message join_paragraphs fake_llm
    lookup insert retrieved
program = tt

abbrev created : CreateChatRequest
created = record { tenant_id = "t1"; title = none }

-- "c1" is a chat of "t1", and "c2" of "t2"
abbrev one : State
one = (create_chat "c1" 5 created init).1

abbrev two : State
two = (create_chat "c2" 6 (record { tenant_id = "t2"; title = some "Two" }) one).1

abbrev ids : Fresh
ids = record {
  user_id = "m1";
  context_id = "m2";
  assistant_id = "m3";
  user_at = 7;
  context_at = 8;
  assistant_at = 9;
  touched_at = 10;
}

abbrev asked : PostUserMessageRequest
asked = record { tenant_id = "t1"; chat_id = "c1"; content = "hi"; retrieval = true; metadata = [] }

abbrev source : Citation
source = record { source_id = "s"; title = none; uri = none }

abbrev adapter : RetrievalAdapter
adapter = record { retrieve = λ tenant_id content k. some ("a" ∷ "b" ∷ [], source ∷ []) }

-- a model that fails
abbrev silent : LlmAdapter
silent = record { provider = "silent"; generate = λ tenant_id messages. none }

abbrev chat_1 : Chat
chat_1 = new_chat "c1" 5 created

may_post : MayPost asked chat_1 two
unfolding program new_chat is_blank
may_post = record { found = refl; own_id = refl; own_tenant = refl; not_blank = refl }

no_messages : Dict.lookup chat_1.id two.messages_by_chat ≡ some []
unfolding program new_chat
no_messages = refl

-- With snippets and a model that answers, three messages are added.
three_added :
    map (λ m. m.content) (added_after ids asked fake_llm chat_1 [] (retrieved (some adapter) asked))
    ≡ "hi" ∷ "a\n\nb" ∷ "(assistant) You said: hi" ∷ []
unfolding program
three_added = refl

post_user_message-transcript_example :
    Dict.lookup chat_1.id (post_user_message ids asked silent (some adapter) two).1.messages_by_chat
    ≡ some ([] ++ added_after ids asked silent chat_1 [] (retrieved (some adapter) asked))
post_user_message-transcript_example =
    post_user_message-transcript ids asked silent (some adapter) chat_1 two [] may_post no_messages

post_user_message-result_example :
    (post_user_message ids asked fake_llm (some adapter) two).0
    ≡ result_after ids asked fake_llm chat_1 [] (retrieved (some adapter) asked)
post_user_message-result_example =
    post_user_message-result ids asked fake_llm (some adapter) chat_1 two [] may_post no_messages

abbrev foreign : PostUserMessageRequest
foreign = record asked { tenant_id = "t2" }

abbrev get_foreign : GetChatRequest
get_foreign = record { tenant_id = "t2"; chat_id = "c1" }

abbrev list_missing : ListMessagesRequest
list_missing = record { tenant_id = "t2"; chat_id = "c9"; limit = 3; order = asc }

abbrev t1 : String
t1 = "t1"

is_foreign : t1 ≢ "t2"
is_foreign = ground (arith, eq_iff "t1" "t2")

Hidden-refused_example :
    (get_chat get_foreign 20 two ≡ (err (refusal (Dict.lookup "c1" two.chats)), two))
    × (list_messages list_missing two ≡ (err (refusal (Dict.lookup "c9" two.chats)), two))
    × (post_user_message ids foreign fake_llm none two
        ≡ (err (refusal (Dict.lookup "c1" two.chats)), two))
unfolding program new_chat
Hidden-refused_example =
    Hidden-refused two get_foreign 20 list_missing foreign ids fake_llm none is_foreign tt
      is_foreign

one-Reach : Reach one
unfolding lookup
one-Reach = next start (create "c1" 5 created refl)

two-Reach : Reach two
unfolding program new_chat
two-Reach = next one-Reach (create "c2" 6 (record { tenant_id = "t2"; title = some "Two" }) refl)

Reach-IsValid_example : IsValid (post_user_message ids asked silent (some adapter) two).1
Reach-IsValid_example = Reach-IsValid (next two-Reach (post ids asked silent (some adapter)))

one-IsValid : IsValid one
one-IsValid = Reach-IsValid one-Reach

list_chats_exact_example :
    (items : List Chat) × (list_chats (record { tenant_id = "t1"; limit = 50 }) one
      ≡ (ok items, one))
    × (map (λ c. c.id) items ≡ take 50 (ids_of "t1" one))
    × All (λ c. c.tenant_id ≡ "t1") items
list_chats_exact_example =
    list_chats_exact (record { tenant_id = "t1"; limit = 50 }) one one-IsValid

list_chats-create_chat_example :
    (list_chats (record { tenant_id = "t1"; limit = 2 }) (create_chat "c3" 8 created one).1).0
    ≡ ok (new_chat "c3" 8 created ∷ chat_1 ∷ [])
unfolding program new_chat
list_chats-create_chat_example =
    list_chats-create_chat "c3" 8 1 created one (chat_1 ∷ []) refl refl one-IsValid refl

abbrev body : PostMessageBody
body = record { content = "hi"; retrieval = true; metadata = [] }

routes_handled_example :
    ((post_chats "c3" 8 none "" one).0 ≢ unhandled)
    × ((get_chats "" 50 one).0 ≢ unhandled)
    × ((get_chats_id "c1" "" 50 one).0 ≢ unhandled)
    × ((get_messages "c1" "" 50 desc one).0 ≢ unhandled)
    × ((post_messages ids "c1" body "" silent one).0 ≢ unhandled)
routes_handled_example = routes_handled one ids body silent none "c3" "c1" "" 8 50 desc one-IsValid
