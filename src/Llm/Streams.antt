-- ===== src/Llm/Streams.antt =====
-- The stream of the provider for tests and its answer in one piece.
use Prim.Native.String.{◌++◌ as join_text, count}
use lbpr.Prelude.{
  ℕ, zero, suc, ◌+◌, ◌-◌, ◌≤◌, ◌<◌, ◌≡◌, refl, ap, sym, ◌∙◌, arith, String, Option, none, some,
  List, [], ◌∷◌, ◌++◌, map, ltb, All, if◌then◌else◌, Bool-cases, inl, inr,
}
use lbpr.Dict
use lbpr.Text.Slice.{
  text_take, text_drop, slice, text_take-text_drop, text_drop-text_drop, count-text_drop,
  count-text_take, text_drop_all,
}
use lbpr.Llm.Contracts.{ChatRequest, ChatResponse}
use lbpr.Llm.Fake.{
  Libs, last_user_content, content_of, rid, fake_usage, answer, response, generate, generate_for,
  with_ids_of, chunk_frame, end_frame, chunk_frames, chunk_size, stream, stream_for,
}
use lbpr.Llm.Service.{fake, with_ids, chat, chat_stream}

abbrev pub joined : List String → String
joined [] = String.[]
joined (s ∷ pieces) = join_text s (joined pieces)

abbrev pieces : ℕ → ℕ → ℕ → String → List String
pieces zero size i full = []
pieces (suc fuel) size i full =
    let rest : List String = slice i (i + size) full ∷ pieces fuel size (i + size) full in
    if ltb i (count full) then rest else []

chunk_frames-pieces :
    (fuel size i : ℕ) (id model full : String)
    → chunk_frames fuel size i id model full ≡ map (chunk_frame id model) (pieces fuel size i full)
unfolding chunk_frames
chunk_frames-pieces zero size i id model full = refl
chunk_frames-pieces (suc fuel) size i id model full = elim (Bool-cases (ltb i (count full))) [
  | inl more ↦ rw more (
      ap (λ l. chunk_frame id model (slice i (i + size) full) ∷ l)
        (chunk_frames-pieces fuel size (i + size) id model full))
  | inr done ↦ rw done refl
]

slice-take : (i n : ℕ) (full : String) → slice i (i + n) full ≡ text_take n (text_drop i full)
unfolding slice
slice-take i n full = ap (λ k. text_take k (text_drop i full)) (omega arith)

joined-pieces :
    (fuel c i : ℕ) (full : String)
    → count full - i ≤ fuel
    → joined (pieces fuel (suc c) i full) ≡ text_drop i full
joined-pieces zero c i full h = sym (text_drop_all i full (omega (arith, count-text_drop i full)))
joined-pieces (suc fuel) c i full h = elim (Bool-cases (ltb i (count full))) [
  | inl more ↦ rw more (
      ap (λ s. join_text s (joined (pieces fuel (suc c) (i + suc c) full)))
        (slice-take i (suc c) full)
      ∙ ap (join_text (text_take (suc c) (text_drop i full))) (
          joined-pieces fuel c (i + suc c) full (ground arith)
          ∙ sym (text_drop-text_drop (suc c) i full))
      ∙ text_take-text_drop (suc c) (text_drop i full))
  | inr done ↦ rw done (sym (text_drop_all i full (ground (arith, count-text_drop i full))))
]

pieces-All :
    (fuel c i : ℕ) (full : String)
    → All (λ s. (0 < count s) × (count s ≤ suc c)) (pieces fuel (suc c) i full)
pieces-All zero c i full = tt
pieces-All (suc fuel) c i full = elim (Bool-cases (ltb i (count full))) [
  | inl more ↦ rw more (
    rw (slice-take i (suc c) full)
        (ground (arith, count-text_take (suc c) (text_drop i full), count-text_drop i full)),
    pieces-All fuel c (i + suc c) full,
  )
  | inr done ↦ rw done tt
]

-- what an answer comes from
with_ids_of-some :
    (libs : Libs) (req : ChatRequest) (u : String) (r s : Option (Option String))
    (resp : ChatResponse)
    → with_ids_of libs req u r s ≡ some resp
    → (request_id : Option String) × (span_id : Option String) × (resp
        ≡ response libs req u request_id span_id)
with_ids_of-some libs req u none s resp h = cc
with_ids_of-some libs req u (some r) none resp h = cc
with_ids_of-some libs req u (some r) (some s) resp h = (r, s, cc)

generate_for-some :
    (libs : Libs) (req : ChatRequest) (o : Option String) (resp : ChatResponse)
    → generate_for libs req o ≡ some resp
    → (u : String) × (o ≡ some u)
      × (request_id : Option String) × (span_id : Option String) × (resp
          ≡ response libs req u request_id span_id)
generate_for-some libs req none resp h = cc
generate_for-some libs req (some u) resp h =
    let (r, s, e) =
      with_ids_of-some libs req u (libs.optional_text (Dict.lookup "request_id" req.metadata))
        (libs.optional_text (Dict.lookup "span_id" req.metadata)) resp h in
    (u, refl, r, s, e)

stream_for-pieces :
    (libs : Libs) (req : ChatRequest) (u : String)
    → stream_for libs req (some u)
      ≡ some (
          map
            (chunk_frame (rid libs req u) req.model)
            (pieces (count (content_of req u)) chunk_size 0 (content_of req u))
          ++ end_frame (rid libs req u) req.model (fake_usage req (content_of req u)) ∷ [])
stream_for-pieces libs req u =
    ap
      (λ l.
        some (l ++ end_frame (rid libs req u) req.model (fake_usage req (content_of req u)) ∷ []))
      (chunk_frames-pieces (count (content_of req u)) chunk_size 0 (rid libs req u) req.model
        (content_of req u))

-- Where a chat is answered, the stream of the same request ends, whatever ids either draws: its
-- chunks, of one to six characters, join to the content of the answer, and one end frame follows
-- with the answer's usage; every frame has the answer's id and model.
pub chat_stream-chat :
    (libs : Libs) (ids other_ids : String × String) (req : ChatRequest) (resp : ChatResponse)
    → chat (fake libs) ids req ≡ some resp
    → (texts : List String) × (chat_stream (fake libs) other_ids req
        ≡ some (
            map (chunk_frame resp.id resp.model) texts
            ++ end_frame resp.id resp.model resp.usage ∷ []))
      × (resp.choices
          ≡ record { index = 0; message = answer (joined texts); finish_reason = some "stop" } ∷ [])
      × All (λ s. (0 < count s) × (count s ≤ 6)) texts
unfolding chat chat_stream generate stream with_ids content_of rid fake_usage
chat_stream-chat libs ids other_ids req resp h =
    let (u, found, r, s, e) =
      generate_for-some libs (with_ids ids req) (last_user_content req) resp h in
    let full : String = content_of req u in
    let texts : List String = pieces (count full) 6 0 full in
    let whole : joined texts ≡ full =
      joined-pieces (count full) 5 0 full (omega arith) ∙ unfold text_drop in refl in
    rw e (
      texts,
      ap (stream_for libs (with_ids other_ids req)) found
          ∙ stream_for-pieces libs (with_ids other_ids req) u,
      ap (λ t. record { index = 0; message = answer t; finish_reason = some "stop" } ∷ [])
          (sym whole),
      pieces-All (count full) 5 0 full,
    )
