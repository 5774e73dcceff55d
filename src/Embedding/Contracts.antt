-- ===== src/Embedding/Contracts.antt =====
-- components/embeddingadapter/contracts.py. The metadata and the user of a request, which only the
-- provider could read, are left out. Python's floats are a parameter.
use lbpr.Prelude.{
  ℕ, String, Bool, true, false, ◌&&◌, ◌||◌, Option, none, some, List, [], ◌∷◌, map, length, leb,
  str_eq, if◌then◌else◌,
}
use lbpr.Text.{is_space}
use lbpr.Text.Strip.{strip, no_text}

-- the operations on floats that the component uses
pub record Floats (F : Type 0) : Type 0 where
  pub of_int : ℕ → F
  pub add : F → F → F
  pub sub : F → F → F
  pub mul : F → F → F
  pub div : F → F → F
  pub sqrt : F → F
  pub is_zero : F → Bool

-- `EmbedRequest`; `truncate` is the text of the policy
pub record EmbedRequest : Type 0 where
  pub texts : List String
  pub model : String
  pub dimensions : Option ℕ
  pub normalize : Bool
  pub truncate : String

pub record EmbedResult (F : Type 0) : Type 0 where
  pub vectors : List (List F)
  pub model : String
  pub dimensions : ℕ
  pub prompt_texts : ℕ
  pub provider : String
  pub normalized : Bool

-- What an adapter returns or raises: an `EmbeddingError` with its code and message, or another
-- exception.
pub data Outcome (A : Type 0) : Type 0 where
  returned : A → Outcome A
  embedding_error : String → String → Outcome A
  other_exception : Outcome A

-- `_no_empty_texts`
unfoldable pub no_empty_texts : List String → Bool
unfolding strip is_space no_text
no_empty_texts [] = true
no_empty_texts (t ∷ ts) =
    let rest : Bool = no_empty_texts ts in if no_text (strip is_space t) then false else rest

abbrev pub some_texts : List String → Bool
some_texts [] = false
some_texts (t ∷ ts) = true

abbrev pub in_range : Option ℕ → Bool
in_range none = true
in_range (some n) = leb 8 n && leb n 8192

abbrev pub is_policy : String → Bool
is_policy t = str_eq t "NONE" || str_eq t "START" || str_eq t "END"

-- what pydantic accepts as an `EmbedRequest`
unfoldable pub accepts : EmbedRequest → Bool
unfolding no_empty_texts
accepts req =
    some_texts req.texts
    && no_empty_texts req.texts
    && in_range req.dimensions
    && is_policy req.truncate

unfoldable pub rows_have : {F : Type 0} → ℕ → List (List F) → Bool
rows_have dim [] = true
rows_have dim (row ∷ rows) =
    let rest : Bool = rows_have dim rows in
    if leb (length row) dim && leb dim (length row) then rest else false

-- `_vectors_shape`
unfoldable pub vectors_shape : {F : Type 0} → List (List F) → Bool
unfolding rows_have
vectors_shape [] = false
vectors_shape (row ∷ rows) = rows_have (length row) (row ∷ rows)

module _ {F : Type 0} (floats : Floats F) where
  unfoldable pub sum_squares : F → List F → F
  sum_squares acc [] = acc
  sum_squares acc (x ∷ xs) = sum_squares (floats.add acc (floats.mul x x)) xs

  -- `math.sqrt(...) or 1.0`
  unfoldable pub norm_of : List F → F
  unfolding sum_squares
  norm_of vec =
      let norm : F = floats.sqrt (sum_squares (floats.of_int 0) vec) in
      if floats.is_zero norm then floats.of_int 1 else norm

  unfoldable pub l2_normalize : List F → List F
  unfolding norm_of
  l2_normalize vec = map (λ x. floats.div x (norm_of vec)) vec
