-- ===== src/RateLimiter/Store.antt =====
-- components/ratelimiter/store.py: `StateStore` and `InMemoryStore`. Each method holds the lock from
-- its first read to its last write, so a method is one step on the dictionary.
use lbpr.Prelude.{String, Option}
use lbpr.Dict
use lbpr.Dict.{Dict}
use lbpr.RateLimiter.Bucket.{Bucket, Outcome, ok, key_error}

abbrev pub Store : Type 0
Store = Dict Bucket

unfoldable pub get : String → Store → Option Bucket
get key s = Dict.lookup key s

unfoldable pub set : String → Bucket → Store → Store
set key value s = Dict.insert key value s

-- `fn` returns the new value and, beside it, what the caller's closure records. If it raises,
-- nothing is written.
module _ {A : Type 0} where
  unfoldable pub store_back : String → Outcome (Bucket × A) → Store → Outcome A × Store
  store_back key key_error s = (key_error, s)
  store_back key (ok (new_value, a)) s = (ok a, Dict.insert key new_value s)

  unfoldable pub update :
      String → (Option Bucket → Outcome (Bucket × A)) → Store → Outcome A × Store
  unfolding store_back
  update key fn s = store_back key (fn (Dict.lookup key s)) s
