-- ===== src/Indexer/Chunker.antt =====
-- components/indexer/adapters_inmemory.py: `SimpleChunker`. Its loop runs on fuel; `none` is a loop
-- that has not ended when the fuel is spent.
pub mod Coverage
use lbpr.Prelude.{
  ℕ, zero, suc, ◌+◌, ◌-◌, max, String, Bool, Option, none, some, List, [], ◌∷◌, ltb, length, take,
  drop, if◌then◌else◌,
}
use lbpr.Prelude.Int.{pos}
use lbpr.Dict
use lbpr.Dict.{Dict}
use lbpr.Text.{split, join}
use lbpr.Value.{Value}
use lbpr.Indexer.Contracts.{Chunk}

-- `doc_meta.get("doc_id")`, where the service has put a text or `None`
unfoldable pub doc_id_of : Option Value → Option String
doc_id_of (some (Value.text t)) = some t
doc_id_of _ = none

module _ (words : List String) (chunk_size step : ℕ) (doc_meta : Dict Value) where
  -- `words[i : i + chunk_size]`
  abbrev pub window : ℕ → List String
  window i = take chunk_size (drop i words)

  unfoldable pub chunk_at : ℕ → ℕ → Chunk
  unfolding doc_id_of
  chunk_at i idx = record {
    doc_id = doc_id_of (Dict.lookup "doc_id" doc_meta);
    idx = idx;
    text = join " " (window i);
    metadata = Dict.insert "chunk_idx" (Value.int (pos idx)) doc_meta;
  }

  -- `chunks.append(...)`, before the later rounds
  abbrev pub prepend : Chunk → Option (List Chunk) → Option (List Chunk)
  prepend c none = none
  prepend c (some cs) = some (c ∷ cs)

  -- the `while` loop
  unfoldable pub chunk_loop : ℕ → ℕ → ℕ → Option (List Chunk)
  unfolding chunk_at
  chunk_loop zero i idx = if ltb i (length words) then none else some []
  chunk_loop (suc fuel) i idx =
      let rest : Option (List Chunk) = chunk_loop fuel (i + step) (suc idx) in
      if ltb i (length words) then prepend (chunk_at i idx) rest else some []

abbrev pub step_of : ℕ → ℕ → ℕ
step_of chunk_size chunk_overlap = max 1 (chunk_size - chunk_overlap)

-- no words, no chunks
abbrev pub chunk_words : List String → ℕ → ℕ → Dict Value → Option (List Chunk)
chunk_words [] chunk_size chunk_overlap doc_meta = some []
chunk_words (w ∷ words) chunk_size chunk_overlap doc_meta =
    chunk_loop (w ∷ words) chunk_size (step_of chunk_size chunk_overlap) doc_meta
      (length (w ∷ words)) 0 0

unfoldable pub chunk : String → ℕ → ℕ → Dict Value → Option (List Chunk)
unfolding chunk_loop
chunk text chunk_size chunk_overlap doc_meta =
    chunk_words (split text) chunk_size chunk_overlap doc_meta
