-- ===== src/Ingestion/Outcome.antt =====
-- How a call of `create_ingestion` of components/ingestionservice/service.py ends.
use mathlib.Core.Path.{subst}
use lbpr.Prelude.{
  String, ◌≡◌, ◌≢◌, refl, sym, ap, ◌∙◌, none, some, List, [], ◌∷◌, ◌++◌, map, length, length-append,
  arith, ◌==◌, false, inl, inr, ◌⊎◌, length-map, Bool-cases,
}
use lbpr.Value.{Value}
use lbpr.Dict
use lbpr.Dict.{lookup-insert_self, lookup-insert_ne}
use lbpr.Ingestion.Contracts.{
  running, submitted_to_indexer, failed, IngestionEvent, IngestionJob, CreateIngestionRequest,
  or_empty, total_items,
}
use lbpr.Ingestion.Repository
use lbpr.Ingestion.Repository.{Repo, tick}
use lbpr.Ingestion.Frame.{
  Answer, returns, raises, Ports, Frame, Flow, goes_on, stops, save, log, set_status, fail, attempt,
  and_then, each, index_items,
}
use lbpr.Ingestion.Service.{
  ingest_file, register_ref, accept_url, submitted, create_failed, submit, process, started,
  frame_of, create_ingestion,
}
use lbpr.Ingestion.Wants.{
  Want, want_file, want_ref, want_url, event_of, types_of, AllMeet, Raised, index_raised,
}
use lbpr.Ingestion.Tracked.{
  map-append, Tracked, Failed, stored-Tracked, log-Tracked, set_status-Tracked, at_work, at_end,
  at_world,
}
use lbpr.Ingestion.Loops.{asked, At, Good, loops, loops-Fine}

total_items-asked : (req : CreateIngestionRequest) → total_items req ≡ length (asked req)
unfolding total_items
total_items-asked req =
    let files = or_empty req.files in
    let refs = or_empty req.file_refs in
    let urls = or_empty req.source_urls in
    omega (
      arith,
      length-append (map want_file files ++ map want_ref refs) (map want_url urls),
      length-append (map want_file files) (map want_ref refs),
      length-map want_file files,
      length-map want_ref refs,
      length-map want_url urls,
    )

nonzero : {A : Type 0} (xs : List A) → xs ≢ [] → (length xs == 0) ≡ false
nonzero [] h = elim (h refl) [ ]
nonzero (x ∷ xs) h = ground arith

module _ {W : Type 0} (ports : Ports W) (tenant_id job_id : String) (before : Repo) where
  -- The job is with the indexer, which was given its items, and each of them is one that was asked for;
  -- the events are those of the creation, the start, the items and the submission.
  pub record Submitted (wants : List Want) (s : Frame W) : Type 0 where
    pub status : s.job.status ≡ submitted_to_indexer
    pub index_job_id : String
    pub kept : s.job.index_job_id ≡ some index_job_id
    pub calls : W × W
    pub given :
        ports.create_index_job tenant_id (index_items s.job.items) calls.0
        ≡ (returns index_job_id, calls.1)
    pub met : AllMeet ports tenant_id wants s.job.items
    pub logged :
        types_of s.job.events
        ≡ "job.created" ∷ "job.running" ∷ (map event_of wants ++ "indexer.submitted" ∷ [])

  abbrev pub Ended : List Want → Frame W → Type 0
  Ended wants s =
      Tracked job_id tenant_id before s
      × (Failed ports job_id tenant_id before s ⊎ Submitted wants s)

  submitted-Ended :
      (wants : List Want) (index_job_id : String) (u v : W) (s : Frame W)
      → At ports tenant_id job_id before wants s
      → AllMeet ports tenant_id wants s.job.items
      → ports.create_index_job tenant_id (index_items s.job.items) u ≡ (returns index_job_id, v)
      → Ended wants (frame_of ports tenant_id (submitted ports tenant_id index_job_id s))
  unfolding submitted
  submitted-Ended wants index_job_id u v s h met given =
      let s' : Frame W = record s { job = record s.job { index_job_id = some index_job_id } } in
      let stored : Tracked job_id tenant_id before (set_status submitted_to_indexer s') =
        stored-Tracked job_id tenant_id before s' (set_status submitted_to_indexer s').job _ s.items
          h.tracked.others h.tracked.own_id h.tracked.own_tenant in
      (
        log-Tracked job_id tenant_id before (set_status submitted_to_indexer s') stored
            "indexer.submitted" "Submitted to indexer" _,
        inr (record {
          status = refl;
          index_job_id = index_job_id;
          kept = refl;
          calls = (u, v);
          given = given;
          met = met;
          logged =
              map-append (λ (e : IngestionEvent). e.type) s.job.events _
              ∙ ap (λ (l : List String). l ++ "indexer.submitted" ∷ []) h.logged;
        }),
      )

  fail-Ended :
      (type message : String) (info : Dict.Dict Value) (wants : List Want) (s : Frame W)
      → Raised ports tenant_id
      → At ports tenant_id job_id before wants s
      → Ended wants (frame_of ports tenant_id (fail type message info s))
  unfolding fail
  fail-Ended type message info wants s cause h = (
    log-Tracked job_id tenant_id before (set_status failed s)
        (set_status-Tracked job_id tenant_id before s h.tracked failed) type message info,
    inl (record { status = refl; unsubmitted = h.unsubmitted; cause = cause }),
  )

  attempt-Ended :
      (wants : List Want) (u : W) (answer : Answer String × W) (s : Frame W)
      → ports.create_index_job tenant_id (index_items s.job.items) u ≡ answer
      → At ports tenant_id job_id before wants s
      → AllMeet ports tenant_id wants s.job.items
      → Ended wants (
          frame_of ports tenant_id
            (attempt answer (submitted ports tenant_id) (create_failed ports tenant_id) s))
  attempt-Ended wants u (returns a, w) s given h met =
      submitted-Ended wants a u w (record s { world = w })
        (at_world ports job_id tenant_id before wants s w h) met given
  attempt-Ended wants u (raises e, w) s given h met =
      fail-Ended "indexer.create_failed" "Indexer job creation failed" _ wants
        (record s { world = w }) (index_raised given)
        (at_world ports job_id tenant_id before wants s w h)

  submit-Ended :
      (wants : List Want) (s : Frame W)
      → At ports tenant_id job_id before wants s
      → Ended wants (frame_of ports tenant_id (submit ports tenant_id s))
  unfolding submit
  submit-Ended wants s h =
      let job : IngestionJob = record s.job { items = s.items } in
      let s' : Frame W = save (record s { job = job }) in
      attempt-Ended wants s.world (ports.create_index_job tenant_id (index_items s.items) s.world)
        s' refl
        (record {
          tracked =
              stored-Tracked job_id tenant_id before s s'.job _ s.items h.tracked.others
                h.tracked.own_id h.tracked.own_tenant;
          status = h.status;
          unsubmitted = h.unsubmitted;
          met = h.met;
          logged = h.logged;
        })
        h.met

  and_then-Ended :
      (wants : List Want) (f : Flow W)
      → Good ports tenant_id job_id before wants f
      → Ended wants (frame_of ports tenant_id (and_then f (submit ports tenant_id)))
  and_then-Ended wants f (at_work {s} h) = submit-Ended wants s h
  and_then-Ended wants f (at_end tracked ended) = (tracked, inl ended)

  and_then_assoc :
      (f : Flow W) (g k : Frame W → Flow W)
      → and_then f (λ s. and_then (g s) k) ≡ and_then (and_then f g) k
  and_then_assoc (goes_on s) g k = refl
  and_then_assoc (stops s) g k = refl

  process-Ended :
      (req : CreateIngestionRequest) (s : Frame W)
      → At ports tenant_id job_id before [] s
      → Ended (asked req) (frame_of ports tenant_id (process ports tenant_id req s))
  unfolding process
  process-Ended req s h =
      rw
        (
          and_then_assoc (each (ingest_file ports tenant_id) (or_empty req.files) s)
              (each (register_ref ports tenant_id) (or_empty req.file_refs))
              (λ s2.
                and_then (each (accept_url ports tenant_id) (or_empty req.source_urls) s2)
                  (submit ports tenant_id)),
          and_then_assoc
              (and_then (each (ingest_file ports tenant_id) (or_empty req.files) s)
                (each (register_ref ports tenant_id) (or_empty req.file_refs)))
              (each (accept_url ports tenant_id) (or_empty req.source_urls))
              (submit ports tenant_id),
        )
        (and_then-Ended (asked req) (loops ports tenant_id job_id before req s)
          (loops-Fine ports tenant_id job_id before req s h))

  started-Running :
      (w : W) → At ports tenant_id job_id before [] (started ports tenant_id job_id before w)
  unfolding started
  started-Running w =
      let (job, repo) = Repository.create_job job_id tenant_id before in
      let s0 : Frame W = record { job = job; items = []; repo = repo; world = w } in
      let s1 : Frame W = log "job.created" "Ingestion job created." [] s0 in
      let s2 : Frame W = set_status running s1 in
      let new : Tracked job_id tenant_id before s0 = record {
        own_id = refl;
        own_tenant = refl;
        stored = lookup-insert_self job_id job before.jobs;
        others = λ j other. lookup-insert_ne job_id j job before.jobs other;
      } in
      let logged : Tracked job_id tenant_id before s1 =
        log-Tracked job_id tenant_id before s0 new "job.created" "Ingestion job created." [] in
      record {
        tracked =
            log-Tracked job_id tenant_id before s2
              (set_status-Tracked job_id tenant_id before s1 logged running) "job.running"
              "Processing items." [];
        status = refl;
        unsubmitted = refl;
        met = tt;
        logged = refl;
      }

  -- A request with items is not refused, and its job ends: it is stored under its id, and is either
  -- failed, because a call of a port has raised, and has no job of the indexer; or submitted. Then its
  -- items are those that the request asks for, first the files, each decoded, put into the blob
  -- store and registered with what the ports returned, then the references, each registered, then
  -- the URLs; the indexer was given them, and the job has the id that it returned; and its events are,
  -- by their types, those of its creation, its start, each item and the submission. The jobs of other
  -- ids are as they were.
  pub create_ingestion-outcome :
      (req : CreateIngestionRequest) (w : W)
      → asked req ≢ []
      → (s : Frame W) × (create_ingestion ports tenant_id job_id req before w ≡ some s)
        × Ended (asked req) s
  unfolding create_ingestion
  create_ingestion-outcome req w some_asked =
      let start : Frame W = started ports tenant_id job_id before w in
      (
        frame_of ports tenant_id (process ports tenant_id req start),
        rw (total_items-asked req, nonzero (asked req) some_asked) refl,
        process-Ended req start (started-Running w),
      )

  pub made-Tracked :
      (req : CreateIngestionRequest) (w : W) (s : Frame W)
      → create_ingestion ports tenant_id job_id req before w ≡ some s
      → Tracked job_id tenant_id before s
  unfolding create_ingestion
  made-Tracked req w s made =
      let start : Frame W = started ports tenant_id job_id before w in
      elim (Bool-cases (total_items req == 0)) [
        | inl empty ↦ elim (no_frame s (sym (rw empty at made))) [ ]
        | inr full ↦
            let same : some (frame_of ports tenant_id (process ports tenant_id req start))
                ≡ some s =
              rw full at made in
            let here : frame_of ports tenant_id (process ports tenant_id req start) ≡ s = cc same in
            subst (Tracked job_id tenant_id before) here
              (process-Ended req start (started-Running w)).0
      ]
    where
      no_frame : (u : Frame W) → some u ≡ none → ⊥
      no_frame u e = cc
