-- ===== src/RateLimiter/Traffic.antt =====
-- A sequence of calls of `consume` under one policy, for any keys, and what it grants to one key.
use lbpr.Prelude.{ℕ, ◌+◌, ◌≤◌, String, List, [], ◌∷◌, str_eq, if◌then◌else◌}
use lbpr.RateLimiter.Policy.{Policy, ConsumeResult}
use lbpr.RateLimiter.Bucket.{Outcome, ok, key_error}
use lbpr.RateLimiter.Store.{Store}
use lbpr.RateLimiter.Service.{consume}

pub record Request : Type 0 where
  pub key : String
  pub cost : ℕ
  pub now : ℕ

-- The clock of the service is `time.monotonic`: no call is earlier than the one before it.
abbrev pub InOrder : ℕ → List Request → Type 0
InOrder t [] = Unit
InOrder t (r ∷ rs) = (t ≤ r.now) × InOrder r.now rs

abbrev pub last_time : ℕ → List Request → ℕ
last_time t [] = t
last_time t (r ∷ rs) = last_time r.now rs

module _ (ticks : ℕ) (p : Policy) where
  unfoldable pub serve : List Request → Store → List (Outcome ConsumeResult)
  serve [] s = []
  serve (r ∷ rs) s = let (o, s') = consume ticks r.key p r.cost r.now s in o ∷ serve rs s'

-- what one answer grants
unfoldable pub granted : ℕ → Outcome ConsumeResult → ℕ
granted cost (ok result) = if result.allowed then cost else 0
granted cost key_error = 0

unfoldable pub total_granted : String → List Request → List (Outcome ConsumeResult) → ℕ
total_granted k (r ∷ rs) (o ∷ os) =
    (if str_eq r.key k then granted r.cost o else 0) + total_granted k rs os
total_granted k _ _ = 0
