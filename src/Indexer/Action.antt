-- ===== src/Indexer/Action.antt =====
-- A method of the indexer: it returns or raises, and what it wrote before a raise stays written. The
-- state is the one of the job store and of the vector store `W`, and the readings of the clock that
-- are still to come.
use lbpr.Prelude.{ℕ, suc, String, Option, none, some, List}
use lbpr.Dict.{Dict}
use lbpr.Indexer.Contracts.{Job, JobEvent}

pub record State (W : Type 0) : Type 0 where
  pub jobs : Dict Job
  pub events : Dict (List JobEvent)
  pub vectors : W
  pub clock : ℕ → ℕ

-- what is raised, with its text: `ValidationError`, `KeyError` of a missing job, or any other
pub data Error : Type 0 where
  validation internal : String → Error
  key_error : String → Error

pub data Result (A : Type 0) : Type 0 where
  ok : A → Result A
  err : Error → Result A

abbrev pub Action : Type 0 → Type 0 → Type 0
Action W A = State W → Result A × State W

module _ {W A : Type 0} where
  abbrev pub pure : A → Action W A
  pure a s = (ok a, s)

  abbrev pub raise : Error → Action W A
  raise e s = (err e, s)

  abbrev pub or_raise : Error → Option A → Action W A
  or_raise e none s = (err e, s)
  or_raise e (some a) s = (ok a, s)

  abbrev pub gets : (State W → A) → Action W A
  gets f s = (ok (f s), s)

  -- `try: m except Exception as e: h e`
  abbrev pub handled : Result A → (Error → Action W A) → Action W A
  handled (ok a) h s = (ok a, s)
  handled (err e) h s = h e s

  abbrev pub catch : Action W A → (Error → Action W A) → Action W A
  catch m h s = let (r, s') = m s in handled r h s'

module _ {W : Type 0} where
  abbrev pub modify : (State W → State W) → Action W (Unit {0})
  modify f s = (ok tt, f s)

  -- one reading of the clock
  abbrev pub now : Action W ℕ
  now s = (ok (s.clock 0), record s { clock = λ n. s.clock (suc n) })

  abbrev pub continue : {A B : Type 0} → Result A → (A → Action W B) → Action W B
  continue (ok a) f s = f a s
  continue (err e) f s = (err e, s)

  infixl 5 ◌>>=◌ ◌>>◌
  abbrev pub ◌>>=◌ : {A B : Type 0} → Action W A → (A → Action W B) → Action W B
  ◌>>=◌ m f s = let (r, s') = m s in continue r f s'

  abbrev pub ◌>>◌ : {A B : Type 0} → Action W A → Action W B → Action W B
  m >> k = m >>= λ _. k
