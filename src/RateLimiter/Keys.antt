-- ===== src/RateLimiter/Keys.antt =====
-- When two calls of components/ratelimiter/service.py share a bucket: `_bucket_key`.
use Prim.Native.Char.{Char, code}
use Prim.Native.String.{◌++◌}
use text.Mathlib.TextLemmas.{append_cancel_left, cons-append, nil-append}
use lbpr.Prelude.{String, ◌≡◌, refl, ap, sym, ◌∙◌, false, List, ◌∷◌, arith, eq_iff}
use lbpr.Text.Parts.{split_on, has_char, split_on-append}
use lbpr.RateLimiter.Policy.{Policy, Algorithm, token_bucket, leaky_bucket}
use lbpr.RateLimiter.Service.{algorithm_name, bucket_key}

-- Under one policy different keys have different buckets.
pub bucket_key_injective : (j k : String) (p : Policy) → bucket_key j p ≡ bucket_key k p → j ≡ k
unfolding bucket_key
bucket_key_injective j k p e = append_cancel_left ":" _ _ (
    append_cancel_left p.name _ _ (
      append_cancel_left ":" _ _ (
        append_cancel_left (algorithm_name p.algorithm) _ _
          (append_cancel_left "ratelimiter:" _ _ e))))

first-inj : {a b : String} {xs ys : List String} → a ∷ xs ≡ b ∷ ys → a ≡ b
first-inj h = cc

abbrev colon : Char
colon = ":"

colon-append : (s : String) → ":" ++ s ≡ String.◌∷◌ colon s
colon-append s = cons-append colon String.[] s ∙ ap (String.◌∷◌ colon) (nil-append s)

-- Two texts without a colon, each before a colon: they are the same if the whole is.
before_colon :
    (a b s t : String)
    → has_char (code colon) a ≡ false
    → has_char (code colon) b ≡ false
    → a ++ (":" ++ s) ≡ b ++ (":" ++ t)
    → (a ≡ b) × (s ≡ t)
before_colon a b s t ha hb e =
    let parts : a ∷ split_on (code colon) s ≡ b ∷ split_on (code colon) t =
      sym (split_on-append (code colon) colon a s refl ha)
      ∙ ap (split_on (code colon))
          (ap (λ r. a ++ r) (sym (colon-append s)) ∙ e ∙ ap (λ r. b ++ r) (colon-append t))
      ∙ split_on-append (code colon) colon b t refl hb in
    let same : a ≡ b = first-inj parts in
    let rest : b ++ (":" ++ s) ≡ b ++ (":" ++ t) = ap (λ x. x ++ (":" ++ s)) (sym same) ∙ e in
    (same, append_cancel_left ":" _ _ (append_cancel_left b _ _ rest))

algorithm_name-colon : (a : Algorithm) → has_char (code colon) (algorithm_name a) ≡ false
unfolding has_char
algorithm_name-colon token_bucket = refl
algorithm_name-colon leaky_bucket = refl

algorithm_name-inj : (a b : Algorithm) → algorithm_name a ≡ algorithm_name b → a ≡ b
algorithm_name-inj token_bucket token_bucket e = refl
algorithm_name-inj token_bucket leaky_bucket e =
    absurd (ground (arith, eq_iff "token_bucket" "leaky_bucket"))
algorithm_name-inj leaky_bucket token_bucket e =
    absurd (ground (arith, eq_iff "leaky_bucket" "token_bucket"))
algorithm_name-inj leaky_bucket leaky_bucket e = refl

-- If no name of a policy has a colon, calls share a bucket only under one algorithm, one name and one
-- key; the keys may hold colons.
pub bucket_key-separates :
    (j k : String) (p q : Policy)
    → has_char (code colon) p.name ≡ false
    → has_char (code colon) q.name ≡ false
    → bucket_key j p ≡ bucket_key k q
    → (p.algorithm ≡ q.algorithm) × (p.name ≡ q.name) × (j ≡ k)
unfolding bucket_key
bucket_key-separates j k p q hp hq e =
    let (algorithms, rest) =
      before_colon (algorithm_name p.algorithm) (algorithm_name q.algorithm) (p.name ++ (":" ++ j))
        (q.name ++ (":" ++ k)) (algorithm_name-colon p.algorithm) (algorithm_name-colon q.algorithm)
        (append_cancel_left "ratelimiter:" _ _ e) in
    let (names, keys) = before_colon p.name q.name j k hp hq rest in
    (algorithm_name-inj p.algorithm q.algorithm algorithms, names, keys)
