-- ===== src/Ingestion/Tenants.antt =====
-- What the routes of components/ingestionservice/http.py show to the tenants after an ingestion.
use lbpr.Prelude.{
  String, ◌≡◌, ◌≢◌, refl, sym, ap, ◌∙◌, Option, some, true, false, inl, inr, String-cases, str_eq,
  eq_iff,
}
use lbpr.Ingestion.Contracts.{CreateIngestionRequest, IngestionJob}
use lbpr.Ingestion.Repository
use lbpr.Ingestion.Repository.{Repo}
use lbpr.Ingestion.Frame.{Ports, Frame}
use lbpr.Ingestion.Service.{create_ingestion}
use lbpr.Ingestion.Tracked.{Tracked}
use lbpr.Ingestion.Outcome.{made-Tracked}
use lbpr.Ingestion.Http.{
  success, http_error, tenant_of, found, job_found, post_ingestion, get_ingestion, get_events,
}

str_eq-of-ne : (a b : String) → a ≢ b → str_eq a b ≡ false
str_eq-of-ne a b h = elim (String-cases a b) [ inl (_, e) ↦ elim (h e) [ ] | inr (test, _) ↦ test ]

-- After an ingestion that is not refused, the job that the route answered with is what its tenant is
-- shown under its id, with its events; another tenant is answered 404 by both routes; and what any
-- tenant is shown under another id, the job and its events, is what it was shown before.
pub create_ingestion_shown :
    {W : Type 0} (ports : Ports W) (header other any : Option String) (job_id j : String)
    (before : Repo) (req : CreateIngestionRequest) (w : W) (s : Frame W)
    → create_ingestion ports (tenant_of header) job_id req before w ≡ some s
    → tenant_of header ≢ tenant_of other
    → job_id ≢ j
    → (post_ingestion ports job_id header req before w ≡ success 201 s.job)
      × (get_ingestion header job_id s.repo ≡ success 200 s.job)
      × (get_events header job_id s.repo ≡ success 200 s.job.events)
      × (get_ingestion other job_id s.repo ≡ http_error 404 "Ingestion job not found")
      × (get_events other job_id s.repo ≡ http_error 404 "Ingestion job not found")
      × (get_ingestion any j s.repo ≡ get_ingestion any j before)
      × (get_events any j s.repo ≡ get_events any j before)
unfolding post_ingestion get_ingestion get_events Repository.list_events
create_ingestion_shown ports header other any job_id j before req w s made foreign elsewhere =
    let h : Tracked job_id (tenant_of header) before s =
      made-Tracked ports (tenant_of header) job_id before req w s made in
    let mine : str_eq s.job.tenant_id (tenant_of header) ≡ true = (eq_iff _ _).1 h.own_tenant in
    let not_theirs : str_eq s.job.tenant_id (tenant_of other) ≡ false =
      str_eq-of-ne s.job.tenant_id (tenant_of other) (λ e. foreign (sym h.own_tenant ∙ e)) in
    (
      rw made refl,
      rw (h.stored, mine) refl,
      rw (h.stored, mine) refl,
      rw (h.stored, not_theirs) refl,
      rw (h.stored, not_theirs) refl,
      ap (λ (o : Option IngestionJob). job_found (Repository.of_tenant (tenant_of any) o))
          (h.others j elsewhere),
      ap
          (λ (o : Option IngestionJob).
            found (Repository.of_tenant (tenant_of any) o)
              (Repository.events_of (Repository.of_tenant (tenant_of any) o)))
          (h.others j elsewhere),
    )
