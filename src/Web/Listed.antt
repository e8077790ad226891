-- ===== src/Web/Listed.antt =====
-- internal/web/handler.go: which jobs the list of jobs shows.
use kong_gateway_cert_lite.Prelude.{
  ℕ, ◌≤◌, List, [], ◌∷◌, map, Bool, true, false, not, Bool-cases, ◌≡◌, ◌⊎◌, inl, inr, refl, ◌∙◌, ap,
  arith, if◌then◌else◌, In, keep, length, ltb, ltb→lt, take, sort_by,
}
use kong_gateway_cert_lite.Prelude.Kept.{
  length-sort_by, In-sort_by, In-keep, length-take, length-take_full, In-take, length-map,
}
use kong_gateway_cert_lite.Text.Case.{Unicode}
use kong_gateway_cert_lite.Domain.{Job}
use kong_gateway_cert_lite.World.{World, ok, statement}
use kong_gateway_cert_lite.World.Faults.{NoFaults}
use kong_gateway_cert_lite.Sqlite.Jobs as JobTable
use kong_gateway_cert_lite.Views.Job as JobViews
use kong_gateway_cert_lite.Views.Job.{JobView, build_job_view}
use kong_gateway_cert_lite.Web.Pages.{JobListPage, job_list}
use kong_gateway_cert_lite.Web.Answer.{Handler, Request, status_ok}
use kong_gateway_cert_lite.Web.Filters.{job_filters_from_request, filter_jobs, job_passes}
use kong_gateway_cert_lite.Web.Certificates.{render}
use kong_gateway_cert_lite.Web.Jobs.{jobs_list_limit, limited, jobs}

In-map_view : (v : JobView) (js : List Job) → In v (map build_job_view js) → In v.job js
unfolding build_job_view
In-map_view v [] i = i
In-map_view v (j ∷ js) (inl e) = inl (rw e refl)
In-map_view v (j ∷ js) (inr i) = inr (In-map_view v js i)

In-view : (j : Job) (js : List Job) → In j js → In (build_job_view j) (map build_job_view js)
In-view j [] i = elim i [ ]
In-view j (x ∷ js) (inl e) = inl (ap build_job_view e)
In-view j (x ∷ js) (inr i) = inr (In-view j js i)

ltb-false : (a b : ℕ) → ltb a b ≡ false → b ≤ a
ltb-false a b e = ground arith

-- A list cut where it is longer than `n`.
module _ (n : ℕ) (views : List JobView) where
  abbrev cut : List JobView
  cut = if ltb n (length views) then take n views else views

  length-cut : length cut ≤ n
  length-cut = elim (Bool-cases (ltb n (length views))) [
    | inl e ↦ rw e (length-take n views)
    | inr e ↦ rw e (omega (arith, ltb-false n (length views) e))
  ]

  In-cut : (v : JobView) → In v cut → In v views
  In-cut v = elim (Bool-cases (ltb n (length views))) [
    | inl e ↦ rw e (In-take n v views)
    | inr e ↦ rw e (λ i. i)
  ]

  cut-keeps : (v : JobView) → In v views → In v cut ⊎ (length cut ≡ n)
  cut-keeps v i = elim (Bool-cases (ltb n (length views))) [
    | inl e ↦ rw e (inr (length-take_full n views (omega (arith, ltb→lt n (length views) e))))
    | inr e ↦ rw e (inl i)
  ]

-- A filter that is applied where a flag is set, and lets everything pass where it is not.
In-kept :
    (p : JobView → Bool) (v : JobView) (views : List JobView) (any : Bool)
    → (any ≡ false → p v ≡ true)
    → (In v (if not any then views else keep p views) → In v views × (p v ≡ true))
      × (In v views → p v ≡ true → In v (if not any then views else keep p views))
In-kept p v views true clear = In-keep p v views
In-kept p v views false clear = (λ i. (i, clear refl), λ i e. i)

-- Without any filter the tests of a job let everything pass.
module _ (u : Unicode) (req : Request) where
  unfiltered :
      (v : JobView)
      → (job_filters_from_request req).has_any ≡ false
      → job_passes u (job_filters_from_request req) v ≡ true
  unfolding job_filters_from_request job_passes
  unfiltered v none_given = ground arith

  In-filtered :
      (v : JobView) (views : List JobView)
      → (In v (filter_jobs u views (job_filters_from_request req))
          → In v views × (job_passes u (job_filters_from_request req) v ≡ true))
        × (In v views
            → job_passes u (job_filters_from_request req) v ≡ true
            → In v (filter_jobs u views (job_filters_from_request req)))
  unfolding filter_jobs
  In-filtered v views =
      In-kept (job_passes u (job_filters_from_request req)) v views
        (job_filters_from_request req).has_any (unfiltered v)

-- Reading the table of jobs for the list.
list_lem :
    (w : World)
    → NoFaults w
    → JobViews.list w ≡ (ok (map build_job_view (sort_by JobTable.is_later w.db.jobs)), w)
unfolding JobViews.list JobTable.list statement
list_lem w calm = ground arith

-- With nothing refused by the system, the list of jobs is a page that changes nothing, counts all
-- the jobs of the table, and shows at most 50: only jobs of the table which pass the filters of the
-- request, and every one that passes, unless 50 are shown.
pub jobs-bounded :
    (h : Handler) (req : Request) (w : World)
    → NoFaults w
    → (p : JobListPage) × (jobs h req w ≡ (ok (render h req status_ok (job_list p)), w))
      × (length p.jobs ≤ 50)
      × (p.total_count ≡ length w.db.jobs)
      × ((v : JobView)
          → In v p.jobs
          → In v.job w.db.jobs × (job_passes h.unicode (job_filters_from_request req) v ≡ true))
      × ((j : Job)
          → In j w.db.jobs
          → job_passes h.unicode (job_filters_from_request req) (build_job_view j) ≡ true
          → In (build_job_view j) p.jobs ⊎ (length p.jobs ≡ 50))
unfolding jobs limited
jobs-bounded h req w calm =
    let rows = sort_by JobTable.is_later w.db.jobs in
    let views = map build_job_view rows in
    let filters = job_filters_from_request req in
    let passing = filter_jobs h.unicode views filters in
    rw (list_lem w calm) (
      _,
      refl,
      length-cut jobs_list_limit passing,
      length-map build_job_view rows ∙ length-sort_by JobTable.is_later w.db.jobs,
      λ v i.
          let (listed, passes) =
            (In-filtered h.unicode req v views).0 (In-cut jobs_list_limit passing v i) in
          ((In-sort_by JobTable.is_later v.job w.db.jobs).1 (In-map_view v rows listed), passes),
      λ j i passes. cut-keeps jobs_list_limit passing (build_job_view j) (
          (In-filtered h.unicode req (build_job_view j) views).1
            (In-view j rows ((In-sort_by JobTable.is_later j w.db.jobs).0 i)) passes),
    )
