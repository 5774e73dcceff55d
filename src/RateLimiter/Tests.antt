-- ===== src/RateLimiter/Tests.antt =====
-- Runs of the limiter, and its theorems at concrete inputs. Time is in half seconds.
use lbpr.Prelude.{
  String, ℕ, ◌+◌, ◌*◌, ◌≤◌, ◌≡◌, refl, true, false, not, none, some, List, [], ◌∷◌, arith, leb,
  str_eq, ◌||◌,
}
use lbpr.Dict
use lbpr.Dict.{lookup, insert}
use lbpr.RateLimiter.Policy.{Policy, token_bucket, Scope, TextOps, matches, ConsumeResult}
use lbpr.RateLimiter.Bucket.{ok}
use lbpr.RateLimiter.Store
use lbpr.RateLimiter.Store.{Store}
use lbpr.RateLimiter.Service.{
  consume, reset, snapshot, bucket_key, price, ceil_div, to_result, token_update,
}
use lbpr.RateLimiter.Keys.{bucket_key-separates}
use lbpr.RateLimiter.Floats.{IsExact}
use lbpr.Text.Parts.{has_char}
use lbpr.RateLimiter.Steps.{refilled}
use lbpr.RateLimiter.Entries.{TokenEntry, absent, held_tokens, held_since}
use lbpr.RateLimiter.Traffic.{Request, serve, total_granted, granted}
use lbpr.RateLimiter.Throughput.{TokenStore, throughput_bound}
use lbpr.RateLimiter.Retry.{allowed_of, wait_of, retry_after_exact, too_dear_denied}
use lbpr.RateLimiter.Reports.{consume-reset, snapshot-consume}
use lbpr.RateLimiter.Duality.{as_token, as_leaky, Dual, serve-token-eq-leaky}
use lbpr.RateLimiter.Middleware
use lbpr.RateLimiter.Middleware.{Middleware, dispatch, select_policy, skipped, build_key}
use lbpr.RateLimiter.Middleware.Dispatch.{dispatch-Called, dispatch_gate, Called, is_limited}

program : Unit {0}
unfolding consume Store.update bucket_key ceil_div to_result token_update lookup insert
program = tt

-- two tokens a second, a burst of two
abbrev p1 : Policy
p1 = record {
  name = "p1";
  algorithm = token_bucket;
  rate = 2;
  period = 1;
  burst = 2;
  scope = Scope.global;
  path_pattern = ".*";
  methods = none;
  cost = 1;
}

abbrev calls : List Request
calls =
    record { key = "a"; cost = 1; now = 0 }
    ∷ record { key = "b"; cost = 1; now = 0 }
    ∷ record { key = "a"; cost = 1; now = 0 }
    ∷ record { key = "a"; cost = 1; now = 0 }
    ∷ record { key = "a"; cost = 1; now = 1 }
    ∷ []

-- The third call of "a" is denied; half a second later one token is back, and the call is granted.
serve-calls : total_granted "a" calls (serve 2 p1 calls []) ≡ 3
unfolding serve total_granted granted program
serve-calls = refl

empty-TokenStore : TokenStore 2 p1 []
unfolding lookup
empty-TokenStore k = absent

throughput_bound_example : total_granted "a" calls (serve 2 p1 calls []) * 2 ≤ 6
throughput_bound_example = throughput_bound 2 p1 refl "a" 0 calls [] empty-TokenStore (omega arith)

exact : IsExact 2 p1
exact = record {
  period_bits = 0;
  period = refl;
  tick_bits = 1;
  tick = refl;
  small_rate = omega arith;
  small_burst = omega arith;
}

serve-token-eq-leaky_example : serve 2 (as_token p1) calls [] ≡ serve 2 (as_leaky p1) calls []
unfolding lookup
serve-token-eq-leaky_example =
    serve-token-eq-leaky 2 p1 calls [] [] exact (omega arith) (λ k. Dual.absent)

-- the bucket of "a", spent at time 0
abbrev spent : Store
spent = (consume 2 "a" p1 2 0 []).1

spent-entry : TokenEntry 2 p1 (Dict.lookup (bucket_key "a" p1) spent)
unfolding program
spent-entry = TokenEntry.held 0 0 (omega arith)

denied : wait_of (consume 2 "a" p1 1 0 spent).0 ≡ some 1
unfolding program
denied = refl

retry_after_exact_example :
    allowed_of (consume 2 "a" p1 1 2 (consume 2 "a" p1 1 0 spent).1).0 ≡ some true
retry_after_exact_example =
    retry_after_exact 2 p1 "a" 1 0 1 1 spent exact (omega arith, omega arith) refl (omega arith)
      (omega arith) spent-entry denied

too_dear_denied_example :
    (allowed_of (consume 2 "a" p1 3 0 spent).0 ≡ some false)
    × ((wait : ℕ) × (wait_of (consume 2 "a" p1 3 0 spent).0 ≡ some wait))
too_dear_denied_example =
    too_dear_denied 2 p1 "a" 3 0 spent refl (omega arith) (omega arith) spent-entry

consume-reset_example :
    (consume 2 "a" p1 2 0 (reset "a" p1 spent)).0
    ≡ (consume 2 "a" p1 2 0 (Dict.erase (bucket_key "a" p1) spent)).0
consume-reset_example = consume-reset 2 "a" p1 2 0 spent

abbrev answer : ConsumeResult
answer = record { allowed = true; remaining = 0; retry_after = none; policy = "p1"; key = "a" }

answered : (consume 2 "a" p1 1 1 spent).0 ≡ ok answer
unfolding program
answered = refl

snapshot-consume_example :
    let shown = snapshot "a" p1 (consume 2 "a" p1 1 1 spent).1 in
    (shown.tokens ≡ some 0) × (shown.last_refill_ts ≡ some 1)
snapshot-consume_example = snapshot-consume 2 "a" p1 1 1 spent answer refl spent-entry answered

abbrev with_colon : String
with_colon = "x:a"

colon_in_key : bucket_key "x:a" p1 ≡ bucket_key "x:a" (record p1 { burst = 9 })
unfolding program
colon_in_key = refl

bucket_key-separates_example :
    (p1.algorithm ≡ p1.algorithm) × (p1.name ≡ p1.name) × (with_colon ≡ with_colon)
unfolding has_char
bucket_key-separates_example =
    bucket_key-separates "x:a" "x:a" p1 (record p1 { burst = 9 }) refl refl colon_in_key

-- Names with colons: the policy "p1:x" and the key "a" meet the policy "p1" and the key "x:a".
colon_in_name : bucket_key "x:a" p1 ≡ bucket_key "a" (record p1 { name = "p1:x" })
unfolding program
colon_in_name = refl

-- Every pattern matches but the skipped one, which is looked for as a text.
abbrev plain : TextOps
plain = record {
  upper = λ m. m;
  re_search = λ pattern path. str_eq pattern ".*" || str_eq pattern path;
}

abbrev app : Middleware
app = record {
  policies = p1 ∷ [];
  user_header = "X-User-Id";
  tenant_header = "X-Tenant-Id";
  skip_paths = "/healthz" ∷ [];
}

abbrev get_chats : Middleware.Request
get_chats = record { path = "/chats"; method = "GET"; client_host = none; header = λ name. none }

-- an application that counts its requests
abbrev count : ℕ → ℕ × ℕ
count w = (w, w + 1)

chosen : select_policy plain "GET" "/chats" (p1 ∷ []) ≡ some p1
unfolding select_policy matches
chosen = refl

dispatch-Called_example :
    let (o, w', _) = dispatch plain 2 count app get_chats 0 [] 7 in Called plain 2 count o 7 w'
dispatch-Called_example = dispatch-Called plain 2 count app get_chats 0 [] 7

-- the one bucket of `get_chats`, spent at time 0
abbrev busy : Store
busy = (consume 2 "global:*" p1 2 0 []).1

not_skipped : skipped plain "/chats" ("/healthz" ∷ []) ≡ false
unfolding skipped
not_skipped = refl

busy-entry : TokenEntry 2 p1 (Dict.lookup (bucket_key (build_key app get_chats p1) p1) busy)
unfolding program build_key
busy-entry = TokenEntry.held 0 0 (omega arith)

dispatch_gate_example :
    let e = Dict.lookup (bucket_key (build_key app get_chats p1) p1) busy in
    is_limited plain 2 count (dispatch plain 2 count app get_chats 0 busy 7).0
    ≡ not (leb (price 2 p1 p1.cost) (refilled 2 p1 0 (held_tokens 2 p1 e) (held_since 2 p1 0 e)))
dispatch_gate_example =
    dispatch_gate plain 2 count app get_chats 0 busy 7 p1 not_skipped chosen refl busy-entry
