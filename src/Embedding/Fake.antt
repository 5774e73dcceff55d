-- ===== src/Embedding/Fake.antt =====
-- components/embeddingadapter/adapter_fake.py. UTF-8, SHA-256 and `str` of a number are fields of
-- `Libs`.
use Prim.Native.String.{◌++◌ as join_text}
use lbpr.Prelude.{
  ℕ, zero, suc, ◌+◌, ◌*◌, ◌%◌, String, Bool, Option, none, some, List, [], ◌∷◌, ◌++◌, take, drop,
  length, leb, if◌then◌else◌,
}
use lbpr.Embedding.Contracts.{
  Floats, EmbedRequest, EmbedResult, Outcome, returned, other_exception, l2_normalize,
  vectors_shape,
}

abbrev pub Bytes : Type 0
Bytes = List ℕ

pub record Libs : Type 0 where
  pub encode : String → Bytes
  pub sha256 : Bytes → Bytes
  pub show : ℕ → String

pub record FakeEmbeddingAdapter : Type 0 where
  pub default_model : String
  pub default_dims : ℕ

-- `int.from_bytes(chunk, "big")`, from the number read so far
unfoldable pub from_bytes : ℕ → Bytes → ℕ
from_bytes n [] = n
from_bytes n (b ∷ bytes) = from_bytes (n * 256 + b) bytes

abbrev pub or_default : ℕ → Option ℕ → ℕ
or_default default none = default
or_default default (some zero) = default
or_default default (some (suc n)) = suc n

abbrev pub both : {A : Type 0} → Option A → Option (List A) → Option (List A)
both (some a) (some rest) = some (a ∷ rest)
both (some a) none = none
both none rest = none

module _ (libs : Libs) where
  -- The loop that hashes until `want` bytes are there; none when the fuel runs out.
  unfoldable pub expand : ℕ → ℕ → Bytes → Bytes → Option Bytes
  expand zero want cur buf = none
  expand (suc fuel) want cur buf =
      let rest : Option Bytes = expand fuel want (libs.sha256 cur) (buf ++ libs.sha256 cur) in
      if leb want (length buf) then some buf else rest

  -- f"{req.model}:{dims}:{t}"
  abbrev pub seed_of : EmbedRequest → ℕ → String → String
  seed_of req dims t =
      join_text req.model (join_text ":" (join_text (libs.show dims) (join_text ":" t)))

  module _ {F : Type 0} (floats : Floats F) where
    -- `(n % 2000000) / 1000000.0 - 1.0`
    abbrev pub to_float : ℕ → F
    to_float n =
        floats.sub (floats.div (floats.of_int (n % 2000000)) (floats.of_int 1000000))
          (floats.of_int 1)

    -- the loop over `range(dims)`, from `i` on
    unfoldable pub floats_from : ℕ → ℕ → Bytes → List F
    unfolding from_bytes
    floats_from i zero buf = []
    floats_from i (suc n) buf =
        to_float (from_bytes 0 (take 4 (drop (4 * i) buf))) ∷ floats_from (suc i) n buf

    abbrev pub read_floats : ℕ → Option Bytes → Option (List F)
    read_floats dims none = none
    read_floats dims (some buf) = some (floats_from 0 dims buf)

    unfoldable pub hash_to_floats : String → ℕ → Option (List F)
    unfolding expand floats_from
    hash_to_floats seed dims = read_floats dims (expand (suc dims) (dims * 4) (libs.encode seed) [])

    abbrev pub normalized_if : Bool → Option (List F) → Option (List F)
    normalized_if normalize none = none
    normalized_if normalize (some v) = some (if normalize then l2_normalize floats v else v)

    unfoldable pub embed_texts : EmbedRequest → ℕ → List String → Option (List (List F))
    unfolding hash_to_floats l2_normalize
    embed_texts req dims [] = some []
    embed_texts req dims (t ∷ texts) =
        both (normalized_if req.normalize (hash_to_floats (seed_of req dims t) dims))
          (embed_texts req dims texts)

    abbrev pub result_of : EmbedRequest → ℕ → List (List F) → EmbedResult F
    result_of req dims vectors = record {
      vectors = vectors;
      model = req.model;
      dimensions = dims;
      prompt_texts = length req.texts;
      provider = "fake";
      normalized = req.normalize;
    }

    -- `EmbedResult(...)`, a ValidationError when the rows differ in length; an expansion without fuel
    -- also ends as an exception here
    abbrev pub checked : EmbedRequest → ℕ → Option (List (List F)) → Outcome (EmbedResult F)
    checked req dims none = other_exception
    checked req dims (some vectors) =
        if vectors_shape vectors then returned (result_of req dims vectors) else other_exception

    unfoldable pub embed : FakeEmbeddingAdapter → EmbedRequest → Outcome (EmbedResult F)
    unfolding embed_texts vectors_shape
    embed adapter req =
        let dims : ℕ = or_default adapter.default_dims req.dimensions in
        checked req dims (embed_texts req dims req.texts)
