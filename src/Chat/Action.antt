-- ===== src/Chat/Action.antt =====
-- A method of components/chatservice/service.py: it returns or raises, and what it wrote before a
-- raise stays written.
use lbpr.Prelude.{String, Bool, true, false, Option, none, some, List}
use lbpr.Dict.{Dict}
use lbpr.Chat.Contracts.{Chat, Message, ChatError}

pub record State : Type 0 where
  pub chats : Dict Chat
  pub messages_by_chat : Dict (List Message)
  pub tenant_chat_ids : Dict (List String)

pub data Result (A : Type 0) : Type 0 where
  ok : A → Result A
  err : ChatError → Result A

abbrev pub Action : Type 0 → Type 0
Action A = State → Result A × State

module _ {A : Type 0} where
  abbrev pub pure : A → Action A
  pure a s = (ok a, s)

  abbrev pub raise : ChatError → Action A
  raise e s = (err e, s)

  abbrev pub or_raise : ChatError → Option A → Action A
  or_raise e none s = (err e, s)
  or_raise e (some a) s = (ok a, s)

  abbrev pub gets : (State → A) → Action A
  gets f s = (ok (f s), s)

abbrev pub modify : (State → State) → Action (Unit {0})
modify f s = (ok tt, f s)

abbrev pub raise_if : Bool → ChatError → Action (Unit {0})
raise_if true e s = (err e, s)
raise_if false e s = (ok tt, s)

abbrev pub continue : {A B : Type 0} → Result A → (A → Action B) → Action B
continue (ok a) f s = f a s
continue (err e) f s = (err e, s)

infixl 5 ◌>>=◌ ◌>>◌
abbrev pub ◌>>=◌ : {A B : Type 0} → Action A → (A → Action B) → Action B
◌>>=◌ m f s = let (r, s') = m s in continue r f s'

abbrev pub ◌>>◌ : {A B : Type 0} → Action A → Action B → Action B
m >> k = m >>= λ _. k

-- What holds after a block: `P` after its first step, and `Q` from there on, also where it raises.
pub bind_rule :
    {A B : Type 0} (P Q : State → Type 0) (m : Action A) (k : A → Action B) (s : State)
    → ((u : State) → P u → Q u)
    → P (m s).1
    → ((a : A) (u : State) → P u → Q (k a u).1)
    → Q ((m >>= k) s).1
bind_rule {A} {B} P Q m k s weaken first rest = by_result (m s).0 (m s).1 first
  where
    by_result : (r : Result A) (u : State) → P u → Q (continue r k u).1
    by_result (ok a) u h = rest a u h
    by_result (err e) u h = weaken u h
