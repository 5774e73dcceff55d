-- ===== src/Embedding/Shapes.antt =====
-- The fake adapter answers every accepted request, with one vector of the right length for a text.
use lbpr.Prelude.{
  ℕ, zero, suc, ◌+◌, ◌*◌, ◌≤◌, ◌≡◌, refl, ap, ◌∙◌, arith, String, Bool, true, false, ◌&&◌, some,
  List, [], ◌∷◌, ◌++◌, inl, inr, length, leb, All, Bool-cases, le→leb, length-append, length-map,
  if◌then◌else◌,
}
use lbpr.Embedding.Contracts.{
  Floats, EmbedRequest, some_texts, accepts, rows_have, vectors_shape, l2_normalize,
}
use lbpr.Embedding.Fake.{
  Bytes, Libs, FakeEmbeddingAdapter, or_default, expand, floats_from, hash_to_floats, seed_of,
  embed_texts, result_of, embed,
}
use lbpr.Embedding.Service.{answered, create_embeddings}

rows_have-true :
    {F : Type 0} (n : ℕ) (rows : List (List F))
    → All (λ v. length v ≡ n) rows
    → rows_have n rows ≡ true
unfolding rows_have
rows_have-true n [] h = refl
rows_have-true n (row ∷ rows) h =
    let below : leb (length row) n ≡ true = le→leb (length row) n (omega (arith, h.0)) in
    let above : leb n (length row) ≡ true = le→leb n (length row) (omega (arith, h.0)) in
    rw (below, above) (rows_have-true n rows h.1)

vectors_shape-true :
    {F : Type 0} (n k : ℕ) (rows : List (List F))
    → All (λ v. length v ≡ n) rows
    → length rows ≡ suc k
    → vectors_shape rows ≡ true
unfolding vectors_shape
vectors_shape-true n k [] h e = absurd (omega (arith, e))
vectors_shape-true n k (row ∷ rows) h e =
    ap (λ m. rows_have m (row ∷ rows)) h.0 ∙ rows_have-true n (row ∷ rows) h

some_texts-length :
    (texts : List String) → some_texts texts ≡ true → (k : ℕ) × (length texts ≡ suc k)
some_texts-length [] h = ground arith
some_texts-length (t ∷ texts) h = (length texts, refl)

and_left : (a b : Bool) → (a && b) ≡ true → a ≡ true
and_left true b h = refl
and_left false b h = h

accepts-some_texts : (req : EmbedRequest) → accepts req ≡ true → some_texts req.texts ≡ true
unfolding accepts
accepts-some_texts req h = and_left _ _ (and_left _ _ (and_left _ _ h))

abbrev pub IsDigest : Libs → Type 0
IsDigest libs = (bytes : Bytes) → length (libs.sha256 bytes) ≡ 32

length-floats_from :
    (libs : Libs) {F : Type 0} (floats : Floats F) (i dims : ℕ) (buf : Bytes)
    → length (floats_from libs floats i dims buf) ≡ dims
unfolding floats_from
length-floats_from libs floats i zero buf = refl
length-floats_from libs floats i (suc n) buf = ap suc (length-floats_from libs floats (suc i) n buf)

module _ (libs : Libs) (digest : IsDigest libs) where
  expand-some :
      (fuel want : ℕ) (cur buf : Bytes)
      → want ≤ length buf + 32 * fuel
      → (out : Bytes) × (expand libs (suc fuel) want cur buf ≡ some out)
  unfolding expand
  expand-some zero want cur buf h =
      let enough : leb want (length buf) ≡ true = le→leb want (length buf) (omega (arith, h)) in
      (buf, rw enough refl)
  expand-some (suc fuel) want cur buf h = elim (Bool-cases (leb want (length buf))) [
    | inl enough ↦ (buf, rw enough refl)
    | inr short ↦
        let (out, e) =
          expand-some fuel want (libs.sha256 cur) (buf ++ libs.sha256 cur)
            (omega (arith, h, length-append buf (libs.sha256 cur), digest cur)) in
        (out, rw short e)
  ]

  module _ {F : Type 0} (floats : Floats F) where
    length-hash_to_floats :
        (seed : String) (dims : ℕ)
        → (v : List F) × (hash_to_floats libs floats seed dims ≡ some v) × (length v ≡ dims)
    unfolding hash_to_floats
    length-hash_to_floats seed dims =
        let (buf, e) = expand-some dims (dims * 4) (libs.encode seed) [] (omega arith) in
        (floats_from libs floats 0 dims buf, rw e refl, length-floats_from libs floats 0 dims buf)

    length-l2_normalize :
        (normalize : Bool) (v : List F)
        → length (if normalize then l2_normalize floats v else v) ≡ length v
    unfolding l2_normalize
    length-l2_normalize true v = length-map _ v
    length-l2_normalize false v = refl

    embed_texts-All :
        (req : EmbedRequest) (dims : ℕ) (texts : List String)
        → (vs : List (List F)) × (embed_texts libs floats req dims texts ≡ some vs)
          × (length vs ≡ length texts)
          × All (λ v. length v ≡ dims) vs
    unfolding embed_texts
    embed_texts-All req dims [] = ([], refl, refl, tt)
    embed_texts-All req dims (t ∷ texts) =
        let (v, hashed, dim) = length-hash_to_floats (seed_of libs req dims t) dims in
        let (vs, e, len, all) = embed_texts-All req dims texts in
        (
          (if req.normalize then l2_normalize floats v else v) ∷ vs,
          rw (hashed, e) refl,
          ap suc len,
          (length-l2_normalize req.normalize v ∙ dim, all),
        )

    -- With a digest of 32 bytes, every accepted request is answered by the fake adapter, with one
    -- vector for each text in which there are as many numbers as the request, or else the adapter,
    -- asks for: the loop over digests ends and the result passes its own validation.
    pub create_embeddings-embed :
        (adapter : FakeEmbeddingAdapter) (req : EmbedRequest)
        → accepts req ≡ true
        → (vs : List (List F)) × (create_embeddings (embed libs floats adapter) req
            ≡ answered
                (result_of libs floats req (or_default adapter.default_dims req.dimensions) vs))
          × (length vs ≡ length req.texts)
          × All (λ v. length v ≡ or_default adapter.default_dims req.dimensions) vs
    unfolding create_embeddings embed
    create_embeddings-embed adapter req valid =
        let dims : ℕ = or_default adapter.default_dims req.dimensions in
        let (k, some_text) = some_texts-length req.texts (accepts-some_texts req valid) in
        let (vs, e, len, all) = embed_texts-All req dims req.texts in
        let shaped = vectors_shape-true dims k vs all (len ∙ some_text) in
        (vs, rw (valid, e, shaped) refl, len, all)
