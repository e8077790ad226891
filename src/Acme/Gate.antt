-- ===== src/Acme/Gate.antt =====
-- When an issue or a renewal may start: what `ensure_acme_operation_allowed` decides.
use kong_gateway_cert_lite.Prelude.{
  ℕ, ◌-◌, ◌≤◌, ◌≢◌, List, [], ◌∷◌, if◌then◌else◌, head?, sort_by, ◌∙◌, subst, some, ◌≡◌, refl, ◌⊎◌,
  ◌↔◌, inl, inr, arith, All, In, false, keep, any_row, any_row-false_iff, keep-empty_iff,
  head?-sort_by-none_iff,
}
use kong_gateway_cert_lite.Domain
use kong_gateway_cert_lite.Domain.{
  Time, JobType, issue, renew, blocked, JobStatus, running, failed, is_type, is_status,
}
use kong_gateway_cert_lite.Text.{Text}
use kong_gateway_cert_lite.World.{World, ok, err, statement}
use kong_gateway_cert_lite.World.Faults.{NoFaults}
use kong_gateway_cert_lite.World.Clock.{ticked, time_now_lem, ticked-db, ticked-faults}
use kong_gateway_cert_lite.Sqlite.Columns.{to_column}
use kong_gateway_cert_lite.Sqlite.Jobs
use kong_gateway_cert_lite.Sqlite.Jobs.{is_later, is_running_for, is_failed_since}
use kong_gateway_cert_lite.Job
use kong_gateway_cert_lite.Acme.{
  acme_job_types, acme_retry_cooldown, acme_operation_state, operation_state,
  ensure_acme_operation_allowed, AcmeOperationState, running_state, after_failure,
}

-- A job that stands in the way of an operation at time `now`: an issue or a renewal for the
-- certificate that runs, or that failed and was started less than the cooldown ago.
abbrev pub Blocks : ℕ → Time → Domain.Job → Type 0
Blocks certificate_id now j =
    (j.certificate_id ≡ some certificate_id)
    × ((j.type ≡ issue) ⊎ (j.type ≡ renew))
    × ((j.status ≡ running)
        ⊎ ((j.status ≡ failed) × (to_column (now - acme_retry_cooldown) ≤ j.started_at)))

blocks_iff :
    (certificate_id : ℕ) (now : Time) (j : Domain.Job)
    → ((is_running_for certificate_id acme_job_types j ≡ false)
        × (is_failed_since certificate_id acme_job_types (now - acme_retry_cooldown) j ≡ false))
      ↔ (¬ Blocks certificate_id now j)
unfolding is_type is_status
blocks_iff certificate_id now j = ground arith

All-not_blocks :
    (certificate_id : ℕ) (now : Time) (js : List Domain.Job)
    → All (λ j. is_running_for certificate_id acme_job_types j ≡ false) js
    → All
        (λ j. is_failed_since certificate_id acme_job_types (now - acme_retry_cooldown) j ≡ false)
        js
    → All (λ j. ¬ Blocks certificate_id now j) js
All-not_blocks certificate_id now [] _ _ = tt
All-not_blocks certificate_id now (j ∷ js) (p, ps) (q, qs) =
    ((blocks_iff certificate_id now j).0 (p, q), All-not_blocks certificate_id now js ps qs)

All-runs_nor_failed :
    (certificate_id : ℕ) (now : Time) (js : List Domain.Job)
    → All (λ j. ¬ Blocks certificate_id now j) js
    → All (λ j. is_running_for certificate_id acme_job_types j ≡ false) js
      × All
          (λ j. is_failed_since certificate_id acme_job_types (now - acme_retry_cooldown) j ≡ false)
          js
All-runs_nor_failed certificate_id now [] _ = (tt, tt)
All-runs_nor_failed certificate_id now (j ∷ js) (n, ns) =
    let (p, q) = (blocks_iff certificate_id now j).1 n in
    let (ps, qs) = All-runs_nor_failed certificate_id now js ns in ((p, ps), (q, qs))

-- The state that the gate reads, with nothing refused by the system.
pub gate_state : ℕ → Time → List Domain.Job → AcmeOperationState
gate_state certificate_id now jobs =
    if any_row (is_running_for certificate_id acme_job_types) jobs
    then running_state
    else after_failure (
        head? (
          sort_by is_later (
            keep (is_failed_since certificate_id acme_job_types (now - acme_retry_cooldown)) jobs)))

acme_operation_state_lem :
    (certificate_id : ℕ) (now : Time) (w : World)
    → NoFaults w
    → certificate_id ≢ 0
    → acme_operation_state certificate_id now w ≡ (ok (gate_state certificate_id now w.db.jobs), w)
unfolding acme_operation_state Job.has_running_certificate_job
    Job.latest_failed_certificate_job_since Jobs.has_running_certificate_job
    Jobs.latest_failed_certificate_job_since statement gate_state
acme_operation_state_lem certificate_id now w h pos = ground arith

gate_state-unblocked_iff :
    (certificate_id : ℕ) (now : Time) (jobs : List Domain.Job)
    → ((gate_state certificate_id now jobs).is_blocked ≡ false)
      ↔ All (λ j. ¬ Blocks certificate_id now j) jobs
unfolding gate_state
gate_state-unblocked_iff certificate_id now jobs = (to, from)
  where
    to :
        (gate_state certificate_id now jobs).is_blocked ≡ false
        → All (λ j. ¬ Blocks certificate_id now j) jobs
    to e =
        All-not_blocks certificate_id now jobs
          ((any_row-false_iff (is_running_for certificate_id acme_job_types) jobs).0 (ground arith))
          ((keep-empty_iff
              (is_failed_since certificate_id acme_job_types (now - acme_retry_cooldown)) jobs).0
            ((head?-sort_by-none_iff is_later _).0 (ground arith)))

    from :
        All (λ j. ¬ Blocks certificate_id now j) jobs
        → (gate_state certificate_id now jobs).is_blocked ≡ false
    from a =
        let (p, q) = All-runs_nor_failed certificate_id now jobs a in
        rw ((any_row-false_iff (is_running_for certificate_id acme_job_types) jobs).1 p) (
          rw
            ((head?-sort_by-none_iff is_later _).1 (
              (keep-empty_iff
                  (is_failed_since certificate_id acme_job_types (now - acme_retry_cooldown))
                  jobs).1
                q))
            refl)

-- The whole effect of the check: its verdict, and a reading of the clock.
pub ensure_lem :
    (certificate_id : ℕ) (w : World)
    → NoFaults w
    → certificate_id ≢ 0
    → ensure_acme_operation_allowed certificate_id w ≡ (
      let state = gate_state certificate_id (ticked w).clock w.db.jobs in
          if state.is_blocked then err (blocked state.reason) else ok tt,
      ticked w,
    )
unfolding ensure_acme_operation_allowed operation_state
ensure_lem certificate_id w h pos = ground (
  arith,
  ticked-db w,
  time_now_lem w,
  acme_operation_state_lem certificate_id (ticked w).clock (ticked w) (ticked-faults w ∙ h) pos,
)

-- With nothing refused by the system, the check before an issue or a renewal of certificate
-- `certificate_id`, which is not 0, passes exactly when none of the jobs in the table stands in
-- the way at the time that the check reads from the clock.
pub ensure-passes_iff :
    (certificate_id : ℕ) (w : World)
    → NoFaults w
    → certificate_id ≢ 0
    → ((ensure_acme_operation_allowed certificate_id w).0 ≡ ok tt)
      ↔ All (λ j. ¬ Blocks certificate_id (ticked w).clock j) w.db.jobs
ensure-passes_iff certificate_id w h pos =
    rw (ensure_lem certificate_id w h pos)
      (ground (arith, gate_state-unblocked_iff certificate_id (ticked w).clock w.db.jobs))

-- Where nothing stands in the way the check changes nothing but the clock.
pub ensure-eq-ok :
    (certificate_id : ℕ) (w : World)
    → NoFaults w
    → certificate_id ≢ 0
    → All (λ j. ¬ Blocks certificate_id (ticked w).clock j) w.db.jobs
    → ensure_acme_operation_allowed certificate_id w ≡ (ok tt, ticked w)
ensure-eq-ok certificate_id w h pos free =
    rw (ensure_lem certificate_id w h pos)
      (rw ((gate_state-unblocked_iff certificate_id (ticked w).clock w.db.jobs).1 free))

not-All-not_blocks :
    (certificate_id : ℕ) (now : Time) (js : List Domain.Job) (j : Domain.Job)
    → In j js
    → Blocks certificate_id now j
    → ¬ All (λ x. ¬ Blocks certificate_id now x) js
not-All-not_blocks certificate_id now [] j i b = elim i [ ]
not-All-not_blocks certificate_id now (x ∷ js) j (inl e) b =
    λ a. a.0 (subst (Blocks certificate_id now) e b)
not-All-not_blocks certificate_id now (x ∷ js) j (inr i) b =
    λ a. not-All-not_blocks certificate_id now js j i b a.1

-- Where a job stands in the way the check refuses, and changes nothing but the clock.
pub ensure-refuses :
    (certificate_id : ℕ) (w : World)
    → NoFaults w
    → certificate_id ≢ 0
    → (j : Domain.Job) → In j w.db.jobs
    → Blocks certificate_id (ticked w).clock j
    → (reason : Text) × (ensure_acme_operation_allowed certificate_id w
        ≡ (err (blocked reason), ticked w))
ensure-refuses certificate_id w h pos j listed blocks =
    let state = gate_state certificate_id (ticked w).clock w.db.jobs in
    let stays : state.is_blocked ≢ false = λ e.
      not-All-not_blocks certificate_id (ticked w).clock w.db.jobs j listed blocks
        ((gate_state-unblocked_iff certificate_id (ticked w).clock w.db.jobs).0 e) in
    (state.reason, rw (ensure_lem certificate_id w h pos) (ground arith))
