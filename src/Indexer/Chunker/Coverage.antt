-- ===== src/Indexer/Chunker/Coverage.antt =====
-- The chunks of `SimpleChunker`: the loop ends, and every word is in a chunk.
use lbpr.Prelude.{
  ◌⊎◌, ℕ, zero, suc, ◌+◌, ◌*◌, ◌/◌, ◌%◌, ◌<◌, ◌≤◌, String, ◌≡◌, refl, ap, sym, ◌∙◌, true, false,
  Option, none, some, List, [], ◌∷◌, arith, ltb, length, take, drop, inl, inr, if◌then◌else◌,
}
use native.Mathlib.Nat.{mod-lt, div-add-mod'}
use lbpr.Dict.{Dict}
use lbpr.Text.{split, join}
use lbpr.Value.{Value}
use lbpr.Indexer.Contracts.{Chunk}
use lbpr.Indexer.Chunker.{window, chunk_at, chunk_loop, step_of, chunk_words, chunk}

not_lt_zero : {n : ℕ} → n < 0 → ⊥
not_lt_zero h = omega arith

ltb-of-lt : {m n : ℕ} → m < n → ltb m n ≡ true
ltb-of-lt h = ground arith

ltb-of-le : {m n : ℕ} → n ≤ m → ltb m n ≡ false
ltb-of-le h = ground arith

lt-or-le : (m n : ℕ) → (m < n) ⊎ (n ≤ m)
lt-or-le m n = omega arith

-- `xs[i]`, where there is one
abbrev pub get_elem? {ℓ} : {A : Type ℓ} → ℕ → List A → Option A
get_elem? n [] = none
get_elem? zero (x ∷ xs) = some x
get_elem? (suc n) (x ∷ xs) = get_elem? n xs

get_elem?-take {ℓ} :
    {A : Type ℓ} (n i : ℕ) (xs : List A) → i < n → get_elem? i (take n xs) ≡ get_elem? i xs
get_elem?-take zero i xs h = elim (not_lt_zero h) [ ]
get_elem?-take (suc n) i [] h = refl
get_elem?-take (suc n) zero (x ∷ xs) h = refl
get_elem?-take (suc n) (suc i) (x ∷ xs) h = get_elem?-take n i xs (omega arith)

get_elem?-drop {ℓ} :
    {A : Type ℓ} (n i : ℕ) (xs : List A) → get_elem? i (drop n xs) ≡ get_elem? (n + i) xs
get_elem?-drop zero i xs = let e : i ≡ zero + i = omega arith in ap (λ (j : ℕ). get_elem? j xs) e
get_elem?-drop (suc n) i [] = refl
get_elem?-drop (suc n) i (x ∷ xs) =
    let e : suc (n + i) ≡ suc n + i = omega arith in
    get_elem?-drop n i xs ∙ ap (λ (j : ℕ). get_elem? j (x ∷ xs)) e

get_elem?-lt {ℓ} :
    {A : Type ℓ} (i : ℕ) (xs : List A) (x : A) → get_elem? i xs ≡ some x → i < length xs
get_elem?-lt i [] x e = cc
get_elem?-lt zero (y ∷ xs) x e = omega arith
get_elem?-lt (suc i) (y ∷ xs) x e = omega (arith, get_elem?-lt i xs x e)

module _ (words : List String) (chunk_size step : ℕ) (doc_meta : Dict Value) where
  -- the chunk that the loop makes in its round `k`, if it gets there
  abbrev pub round : ℕ → ℕ → ℕ → Option Chunk
  round i idx k =
      if ltb (i + k * step) (length words)
      then some (chunk_at words chunk_size step doc_meta (i + k * step) (idx + k))
      else none

  round_next : (i idx k : ℕ) → round (i + step) (suc idx) k ≡ round i idx (suc k)
  round_next i idx k =
      let at : (i + step) + k * step ≡ i + suc k * step = omega arith in
      let number : suc idx + k ≡ idx + suc k = omega arith in rw (at, number) refl

  round-none : (i idx k : ℕ) → length words ≤ i → round i idx k ≡ none
  round-none i idx k h =
      let beyond : length words ≤ i + k * step = omega arith in rw (ltb-of-le beyond) refl

  each_round :
      (i idx : ℕ) (rest : List Chunk)
      → i < length words
      → ((k : ℕ) → get_elem? k rest ≡ round (i + step) (suc idx) k)
      → (k : ℕ) → get_elem? k (chunk_at words chunk_size step doc_meta i idx ∷ rest) ≡ round i idx k
  each_round i idx rest within each zero =
      let at : i + 0 * step ≡ i = omega arith in
      let number : idx + 0 ≡ idx = omega arith in rw (at, number, ltb-of-lt within) refl
  each_round i idx rest within each (suc k) = each k ∙ round_next i idx k

  -- From round to round the index grows by `step`, so the fuel is enough.
  chunk_loop_exact :
      (fuel i idx : ℕ)
      → 0 < step
      → length words ≤ i + fuel
      → (chunks : List Chunk) × (chunk_loop words chunk_size step doc_meta fuel i idx ≡ some chunks)
        × ((k : ℕ) → get_elem? k chunks ≡ round i idx k)
  unfolding chunk_loop
  chunk_loop_exact zero i idx pos enough =
      let over : length words ≤ i = omega arith in
      ([], rw (ltb-of-le over) refl, λ k. sym (round-none i idx k over))
  chunk_loop_exact (suc fuel) i idx pos enough = elim (lt-or-le i (length words)) [
    | inr over ↦ ([], rw (ltb-of-le over) refl, λ k. sym (round-none i idx k over))
    | inl within ↦
        let (rest, made, each) = chunk_loop_exact fuel (i + step) (suc idx) pos (omega arith) in
        (
          chunk_at words chunk_size step doc_meta i idx ∷ rest,
          rw (ltb-of-lt within, made) refl,
          each_round i idx rest within each,
        )
  ]

-- The loop ends for every text and every option.
pub chunk_total :
    (text : String) (chunk_size chunk_overlap : ℕ) (doc_meta : Dict Value)
    → (chunks : List Chunk) × (chunk text chunk_size chunk_overlap doc_meta ≡ some chunks)
unfolding chunk
chunk_total text chunk_size chunk_overlap doc_meta = of_words (split text)
  where
    of_words :
        (words : List String)
        → (chunks : List Chunk) × (chunk_words words chunk_size chunk_overlap doc_meta
            ≡ some chunks)
    of_words [] = ([], refl)
    of_words (v ∷ words) =
        let step : ℕ = step_of chunk_size chunk_overlap in
        let (chunks, made, _) =
          chunk_loop_exact (v ∷ words) chunk_size step doc_meta (length (v ∷ words)) 0 0
            (omega arith) (omega arith) in
        (chunks, made)

chunk_words_cover :
    (words : List String) (chunk_size chunk_overlap : ℕ) (doc_meta : Dict Value) (j : ℕ)
    (w : String)
    → 0 < chunk_size
    → get_elem? j words ≡ some w
    → let step = step_of chunk_size chunk_overlap in
      let i = (j / step) * step in
      (chunks : List Chunk) × (chunk_words words chunk_size chunk_overlap doc_meta ≡ some chunks)
      × (get_elem? (j / step) chunks ≡ some (chunk_at words chunk_size step doc_meta i (j / step)))
      × (get_elem? (j % step) (window words chunk_size step doc_meta i) ≡ some w)
chunk_words_cover [] chunk_size chunk_overlap doc_meta j w size found = cc
chunk_words_cover (v ∷ words) chunk_size chunk_overlap doc_meta j w size found =
    let step : ℕ = step_of chunk_size chunk_overlap in
    let all : List String = v ∷ words in
    let pos : 0 < step = omega arith in
    let (chunks, made, each) =
      chunk_loop_exact all chunk_size step doc_meta (length all) 0 0 pos (omega arith) in
    let place : (j / step) * step + j % step ≡ j = div-add-mod' j step in
    let first : 0 + (j / step) * step ≡ (j / step) * step = omega arith in
    let number : 0 + j / step ≡ j / step = omega arith in
    let bound : j % step < step = mod-lt j pos in
    let inside : (j / step) * step < length all = omega (arith, get_elem?-lt j all w found) in
    let narrow : j % step < chunk_size = omega arith in
    (
      chunks,
      made,
      each (j / step) ∙ rw (first, number, ltb-of-lt inside) refl,
      get_elem?-take chunk_size (j % step) (drop ((j / step) * step) all) narrow
          ∙ get_elem?-drop ((j / step) * step) (j % step) all
          ∙ ap (λ (n : ℕ). get_elem? n all) place
          ∙ found,
    )

-- The loop ends, and for a positive chunk size no word is lost: with `step` words between the starts
-- of the chunks, the text of chunk `j / step` is the next `chunk_size` words of the text from its
-- start on, joined by spaces, and the word at place `j` of the text stands at place `j % step` of
-- them. The chunk has its number as index.
pub chunk_covers :
    (text : String) (chunk_size chunk_overlap : ℕ) (doc_meta : Dict Value) (j : ℕ) (w : String)
    → 0 < chunk_size
    → get_elem? j (split text) ≡ some w
    → let step = step_of chunk_size chunk_overlap in
      (chunks : List Chunk) × (chunk text chunk_size chunk_overlap doc_meta ≡ some chunks)
      × ((c : Chunk) × (ws : List String) × (get_elem? (j / step) chunks ≡ some c)
          × (c.idx ≡ j / step)
          × (c.text ≡ join " " ws)
          × (ws ≡ take chunk_size (drop ((j / step) * step) (split text)))
          × (get_elem? (j % step) ws ≡ some w))
unfolding chunk chunk_at
chunk_covers text chunk_size chunk_overlap doc_meta j w size found =
    let step : ℕ = step_of chunk_size chunk_overlap in
    let i : ℕ = (j / step) * step in
    let (chunks, made, at, there) =
      chunk_words_cover (split text) chunk_size chunk_overlap doc_meta j w size found in
    let ws : List String = window (split text) chunk_size step doc_meta i in
    (
      chunks,
      made,
      (
        chunk_at (split text) chunk_size step doc_meta i (j / step),
        ws,
        at,
        refl,
        refl,
        refl,
        there,
      ),
    )
