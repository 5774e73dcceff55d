-- ===== src/Embedding/Tests.antt =====
-- Two texts are embedded, with numbers in the place of floats; a blank text is not.
use lbpr.Prelude.{ℕ, ◌+◌, ◌-◌, ◌*◌, ◌/◌, ◌==◌, ◌≡◌, refl, true, some, List, [], ◌∷◌, length, All}
use lbpr.Embedding.Contracts.{Floats, EmbedRequest, accepts, no_empty_texts}
use lbpr.Embedding.Fake.{Bytes, Libs, FakeEmbeddingAdapter, result_of, embed}
use lbpr.Embedding.Service.{answered, refused, create_embeddings}
use lbpr.Embedding.Shapes.{create_embeddings-embed}

abbrev floats : Floats ℕ
floats = record {
  of_int = λ n. n;
  add = λ a b. a + b;
  sub = λ a b. a - b;
  mul = λ a b. a * b;
  div = λ a b. a / b;
  sqrt = λ a. a;
  is_zero = λ a. a == 0;
}

abbrev eight : Bytes
eight = 1 ∷ 2 ∷ 3 ∷ 4 ∷ 5 ∷ 6 ∷ 7 ∷ 8 ∷ []

abbrev digest : Bytes
digest =
    1 ∷ 2 ∷ 3 ∷ 4 ∷ 5 ∷ 6 ∷ 7 ∷ 8 ∷ 1 ∷ 2 ∷ 3 ∷ 4 ∷ 5 ∷ 6 ∷ 7 ∷ 8 ∷ 1 ∷ 2 ∷ 3 ∷ 4 ∷ 5 ∷ 6 ∷ 7 ∷ 8
    ∷ eight

abbrev libs : Libs
libs = record { encode = λ s. 0 ∷ []; sha256 = λ bytes. digest; show = λ n. "8" }

abbrev adapter : FakeEmbeddingAdapter
adapter = record { default_model = "m"; default_dims = 1536 }

abbrev request : EmbedRequest
request = record {
  texts = "a" ∷ "b" ∷ [];
  model = "m";
  dimensions = some 9;
  normalize = true;
  truncate = "NONE";
}

create_embeddings-embed_example :
    (vs : List (List ℕ)) × (create_embeddings (embed libs floats adapter) request
      ≡ answered (result_of libs floats request 9 vs))
    × (length vs ≡ 2)
    × All (λ v. length v ≡ 9) vs
unfolding accepts no_empty_texts
create_embeddings-embed_example =
    create_embeddings-embed libs (λ bytes. refl) floats adapter request refl

-- A blank text is answered as an internal error.
blank_text_refused :
    create_embeddings (embed libs floats adapter) (record request { texts = " " ∷ [] })
    ≡ refused 500 "INTERNAL_ERROR"
unfolding create_embeddings accepts no_empty_texts
blank_text_refused = refl
