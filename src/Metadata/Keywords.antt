-- ===== src/Metadata/Keywords.antt =====
-- components/metadataservice/service.py: `SimpleKeywordExtractor`, and `NoopLLMAdapter`. `lower` is
-- `str.lower`, a parameter.
use Prim.Native.Char.{code, Char}
use Prim.Native.Nat.{Ordering}
use Prim.Native.String.{count, compare}
use lbpr.Prelude.{
  ℕ, suc, String, Bool, true, false, ◌&&◌, ◌||◌, Option, none, some, List, [], ◌∷◌, map, take, max,
  leb, ltb, ◌==◌, str_eq, if◌then◌else◌,
}
use lbpr.Dict
use lbpr.Dict.{Dict}
use lbpr.Text.{split, join}
use lbpr.Text.Find.{has_text}

-- the characters of `[A-Za-z0-9']`
unfoldable pub is_word_char : ℕ → Bool
is_word_char c =
    (leb b'a' c && leb c b'z')
    || (leb b'A' c && leb c b'Z')
    || (leb b'0' c && leb c b'9')
    || c == 39

-- The runs of word characters; the flag says whether the text before ended in one.
abbrev pub begins_run : String → Bool
begins_run String.[] = false
begins_run (String.◌∷◌ c s) = is_word_char (code c)

abbrev pub extend : Char → Bool → List String → List String
extend c true (w ∷ ws) = String.◌∷◌ c w ∷ ws
extend c true [] = String.◌∷◌ c String.[] ∷ []
extend c false ws = String.◌∷◌ c String.[] ∷ ws

unfoldable pub runs : String → List String
unfolding is_word_char
runs String.[] = []
runs (String.◌∷◌ c s) =
    let rest : List String = runs s in
    if is_word_char (code c) then extend c (begins_run s) rest else rest

-- `re.findall(r"[A-Za-z0-9']{2,}", text)`
unfoldable pub long_runs : List String → List String
long_runs [] = []
long_runs (w ∷ ws) =
    let rest : List String = long_runs ws in if leb 2 (count w) then w ∷ rest else rest

abbrev pub stopwords : List String
stopwords =
    "the" ∷ "a" ∷ "an" ∷ "and" ∷ "or" ∷ "but" ∷ "if" ∷ "then" ∷ "else" ∷ "for" ∷ "of" ∷ "to" ∷ "in"
    ∷ "on" ∷ "at" ∷ "by" ∷ "with" ∷ "is" ∷ "are" ∷ "was" ∷ "were" ∷ "be" ∷ "been" ∷ "it" ∷ "that"
    ∷ "this" ∷ "these" ∷ "those" ∷ "as" ∷ "from" ∷ "we" ∷ "you" ∷ []

unfoldable pub listed : String → List String → Bool
listed s [] = false
listed s (t ∷ ts) = let rest : Bool = listed s ts in if str_eq t s then true else rest

-- `t.isdigit()` of a token
unfoldable pub all_digits : String → Bool
all_digits String.[] = true
all_digits (String.◌∷◌ c s) = leb b'0' (code c) && leb (code c) b'9' && all_digits s

-- only English has stop words
abbrev pub stop_for : String → List String
stop_for lang = if str_eq lang "en" then stopwords else []

abbrev pub or_zero : Option ℕ → ℕ
or_zero none = 0
or_zero (some n) = n

-- `freq[t] = freq.get(t, 0) + 1`, for the tokens that count
unfoldable pub count_tokens : List String → List String → Dict ℕ → Dict ℕ
unfolding listed all_digits
count_tokens stop [] freq = freq
count_tokens stop (t ∷ ts) freq = count_tokens stop ts (
    if listed t stop || all_digits t
    then freq
    else Dict.insert t (suc (or_zero (Dict.lookup t freq))) freq)

abbrev pub text_before : String → String → Bool
text_before a b = elim (compare a b) [ Ordering.lt ↦ true | _ ↦ false ]

-- by the key (-count, word)
abbrev pub goes_before : String × ℕ → String × ℕ → Bool
goes_before (v, m) (w, n) = ltb n m || (m == n && text_before v w)

unfoldable pub insert_sorted : String × ℕ → List (String × ℕ) → List (String × ℕ)
insert_sorted e [] = e ∷ []
insert_sorted e (x ∷ xs) =
    let rest : List (String × ℕ) = insert_sorted e xs in
    if goes_before e x then e ∷ x ∷ xs else x ∷ rest

unfoldable pub sort_tokens : List (String × ℕ) → List (String × ℕ) → List (String × ℕ)
unfolding insert_sorted
sort_tokens [] sorted = sorted
sort_tokens (e ∷ es) sorted = sort_tokens es (insert_sorted e sorted)

unfoldable pub top_keywords : (String → String) → String → ℕ → String → List String
unfolding runs long_runs count_tokens sort_tokens
top_keywords lower text top_k lang =
    map (λ e. e.0)
      (take (max 1 top_k)
        (sort_tokens (count_tokens (stop_for lang) (long_runs (runs (lower text))) []) []))

-- `NoopLLMAdapter.summarize`; the runs of `\S+` are the words of `split`
unfoldable pub noop_summarize : String → String
unfolding split join
noop_summarize text = join " " (take 40 (split text))

unfoldable pub any_in : List String → String → Bool
unfolding has_text
any_in [] text = false
any_in (k ∷ ks) text = let rest : Bool = any_in ks text in if has_text k text then true else rest

abbrev pub label_if : Bool → String → List String → List String
label_if true label cats = label ∷ cats
label_if false label cats = cats

unfoldable pub noop_categorize : (String → String) → String → ℕ → List String
unfolding any_in
noop_categorize lower text max_labels = take max_labels (
    label_if (any_in ("contract" ∷ "agreement" ∷ "clause" ∷ "party" ∷ []) (lower text)) "legal" (
      label_if (any_in ("invoice" ∷ "payment" ∷ "amount" ∷ "tax" ∷ []) (lower text)) "finance" (
        label_if (any_in ("meeting" ∷ "notes" ∷ "minutes" ∷ "action" ∷ []) (lower text))
          "meeting-notes" [])))
