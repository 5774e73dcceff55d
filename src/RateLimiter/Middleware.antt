-- ===== src/RateLimiter/Middleware.antt =====
-- components/ratelimiter/middleware.py: `RateLimiterMiddleware`.
-- A header's numbers are kept as numbers, before they are printed. `call_next` is the rest of the
-- application: a parameter, on a state `W` of its own. The regular expressions are those of `TextOps`.
pub mod Dispatch
use Prim.Native.String.{◌++◌}
use lbpr.Prelude.{
  ℕ, ◌*◌, ◌/◌, String, Bool, true, false, Option, none, some, List, [], ◌∷◌, ◌==◌, if◌then◌else◌,
}
use lbpr.RateLimiter.Policy.{
  Policy, Scope, ip, user, tenant, global, custom, TextOps, matches, ConsumeResult,
}
use lbpr.RateLimiter.Bucket.{Outcome, ok, key_error}
use lbpr.RateLimiter.Store.{Store}
use lbpr.RateLimiter.Service.{consume, unit}

pub record Middleware : Type 0 where
  pub policies : List Policy
  pub user_header : String
  pub tenant_header : String
  pub skip_paths : List String

pub record Request : Type 0 where
  pub path : String
  pub method : String
  pub client_host : Option String
  pub header : String → Option String

-- `X-RateLimit-Limit` (rate, period and burst), `-Remaining`, `-Reset` and `Retry-After`
pub record Headers : Type 0 where
  pub rate : ℕ
  pub period : ℕ
  pub burst : ℕ
  pub remaining : ℕ
  pub reset : ℕ
  pub retry_after : Option ℕ

pub data Response (R : Type 0) : Type 0 where
  -- the application's response, as it is or with headers added
  passed : R → Response R
  annotated : R → Headers → Response R
  -- status 429, with the number of seconds in the body
  limited : ℕ → Headers → Response R

abbrev pub or_else : Option String → String → String
or_else none d = d
or_else (some s) d = s

-- Python's `x or d` on an optional number: zero is false too
abbrev pub number_or : Option ℕ → ℕ → ℕ
number_or none d = d
number_or (some n) d = if n == 0 then d else n

scope_key : Scope → Middleware → Request → String
scope_key ip m r = "ip:" ++ or_else r.client_host "unknown"
scope_key user m r = "user:" ++ or_else (r.header m.user_header) "anonymous"
scope_key tenant m r = "tenant:" ++ or_else (r.header m.tenant_header) "default"
scope_key global m r = "global:*"
scope_key custom m r = "custom:" ++ or_else r.client_host "unknown"

unfoldable pub build_key : Middleware → Request → Policy → String
unfolding scope_key
build_key m r p = scope_key p.scope m r

module _ (ops : TextOps) where
  unfoldable pub select_policy : String → String → List Policy → Option Policy
  select_policy method path [] = none
  select_policy method path (p ∷ ps) =
      if matches ops p method path then some p else select_policy method path ps

  unfoldable pub skipped : String → List String → Bool
  skipped path [] = false
  skipped path (pat ∷ pats) = if ops.re_search pat path then true else skipped path pats

  module _ (ticks : ℕ) {R W : Type 0} (call_next : W → R × W) where
    -- the headers of an allowed and of a denied request
    unfoldable pub allowed_headers : Policy → ConsumeResult → Headers
    allowed_headers p result = record {
      rate = p.rate;
      period = p.period;
      burst = p.burst;
      remaining = result.remaining / unit ticks p;
      reset = p.period;
      retry_after = none;
    }

    unfoldable pub denied_headers : Policy → ConsumeResult → Headers
    denied_headers p result = record {
      rate = p.rate;
      period = p.period;
      burst = p.burst;
      remaining = result.remaining / unit ticks p;
      reset = number_or result.retry_after p.period;
      retry_after = some (number_or result.retry_after 0);
    }

    abbrev pub forward : W → Outcome (Response R) × W
    forward w = let (response, w') = call_next w in (ok (passed response), w')

    unfoldable pub respond : Policy → Outcome ConsumeResult → W → Outcome (Response R) × W
    unfolding allowed_headers denied_headers
    respond p key_error w = (key_error, w)
    respond p (ok result) w =
        let (response, w') = call_next w in
        if result.allowed
        then (ok (annotated response (allowed_headers p result)), w')
        else (ok (limited (number_or result.retry_after 0) (denied_headers p result)), w)

    -- with the policy that was selected
    unfoldable pub limit :
        Middleware → Request → ℕ → Option Policy → Store → W → Outcome (Response R) × W × Store
    unfolding respond
    limit m r now none s w = let (o, w') = forward w in (o, w', s)
    limit m r now (some p) s w =
        let (result, s') = consume ticks (build_key m r p) p p.cost now s in
        let (o, w') = respond p result w in (o, w', s')

    unfoldable pub dispatch :
        Middleware → Request → ℕ → Store → W → Outcome (Response R) × W × Store
    unfolding skipped select_policy limit
    dispatch m r now s w =
        let (o, w') = forward w in
        if skipped r.path m.skip_paths
        then (o, w', s)
        else limit m r now (select_policy (ops.upper r.method) r.path m.policies) s w
