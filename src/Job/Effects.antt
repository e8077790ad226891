-- ===== src/Job/Effects.antt =====
-- What creating and completing a job do to the table, with nothing refused by the system.
use kong_gateway_cert_lite.Prelude.{
  suc, [], ◌∷◌, ◌++◌, map, true, some, ◌≡◌, ◌≢◌, refl, arith, any_row, find_first, find_first-some,
  ==_iff, ◌==◌, eq_ℕ, list_eq,
}
use kong_gateway_cert_lite.Text.{lit, trim_space, is_space}
use kong_gateway_cert_lite.Domain
use kong_gateway_cert_lite.Domain.{
  Time, Certificate, KongTarget, JobType, issue, renew, sync, test_kong, delete, JobStatus, success,
  running, job_type_of, job_type_text, job_status_of, job_status_text,
}
use kong_gateway_cert_lite.World.{World, ok, statement}
use kong_gateway_cert_lite.World.Faults.{NoFaults, statement_of_NoFaults}
use kong_gateway_cert_lite.World.Clock.{ticked, time_now_lem, ticked-db, ticked-faults}
use kong_gateway_cert_lite.Sqlite.Columns.{refers, to_column}
use kong_gateway_cert_lite.Sqlite.Jobs
use kong_gateway_cert_lite.Sqlite.Jobs.{
  insert, with_jobs, updated, new_row, known_status, known_type,
}
use kong_gateway_cert_lite.Job.{
  JobInput, JobCompleteInput, create, complete, completion, completed, built_job, is_valid_type,
  validate_job_input,
}

-- The words of the statuses and types come back from the texts that the use cases pass.
pub job_type_of-text :
    (t : JobType) → is_valid_type t ≡ true → job_type_of (trim_space (job_type_text t)) ≡ t
unfolding job_type_of job_type_text trim_space is_space lit list_eq
job_type_of-text issue _ = refl
job_type_of-text renew _ = refl
job_type_of-text sync _ = refl
job_type_of-text test_kong _ = refl
job_type_of-text delete _ = refl
job_type_of-text (JobType.other s) h = cc

pub completion-text :
    (s : JobStatus)
    → completion s ≡ some s
    → completion (job_status_of (trim_space (job_status_text s))) ≡ some s
unfolding job_status_of job_status_text trim_space is_space lit list_eq
completion-text running h = cc
completion-text success _ = refl
completion-text JobStatus.failed _ = refl
completion-text (JobStatus.other s) h = cc

trim_space-nil : trim_space [] ≡ []
unfolding trim_space
trim_space-nil = refl

-- The row that a job input with no status adds.
pub row_of : JobInput → World → Domain.Job
row_of input w = new_row (built_job input) w

pub row_of-fields :
    (input : JobInput) (t : JobType) (w : World)
    → input.type ≡ job_type_text t
    → is_valid_type t ≡ true
    → ((row_of input w).id ≡ suc w.db.last_job)
      × ((row_of input w).type ≡ t)
      × ((row_of input w).certificate_id ≡ input.certificate_id)
unfolding row_of
row_of-fields input t w e v = (refl, rw e (job_type_of-text t v), refl)

pub row_of-started :
    (input : JobInput) (w : World) → (row_of input w).started_at ≡ to_column w.clock
unfolding row_of
row_of-started input w = refl

pub row_of-target :
    (input : JobInput) (w : World) → (row_of input w).kong_target_id ≡ input.kong_target_id
unfolding row_of
row_of-target input w = refl

pub create_lem :
    (input : JobInput) (t : JobType) (w : World)
    → NoFaults w
    → input.type ≡ job_type_text t
    → is_valid_type t ≡ true
    → input.status ≡ []
    → refers (λ (c : Certificate). c.id) w.db.certificates input.certificate_id ≡ true
    → refers (λ (k : KongTarget). k.id) w.db.kong_targets input.kong_target_id ≡ true
    → create input w ≡ (
      ok (suc w.db.last_job),
      record w {
        db = record w.db { jobs = w.db.jobs ++ row_of input w ∷ []; last_job = suc w.db.last_job };
      },
    )
unfolding create validate_job_input Jobs.create row_of
create_lem input t w h e v s c k =
    let type_is : job_type_of (trim_space input.type) ≡ t = rw e (job_type_of-text t v) in
    let no_status : trim_space input.status ≡ [] = rw s trim_space-nil in
    ground (arith, statement_of_NoFaults (lit "create job") (insert (built_job input)) w h)

pub complete_lem :
    (input : JobCompleteInput) (j : Domain.Job) (s : JobStatus) (w : World)
    → NoFaults w
    → input.id ≢ 0
    → find_first (λ x. x.id == input.id) w.db.jobs ≡ some j
    → completion (job_status_of (trim_space input.status)) ≡ some s
    → complete input w ≡ (
      ok tt,
      with_jobs (ticked w) (map (updated (completed input j s (ticked w).clock)) w.db.jobs),
    )
unfolding complete Jobs.get Jobs.update statement
complete_lem input j s w h pos found status =
    let (same, row, _) = find_first-some (λ x. x.id == input.id) w.db.jobs j found in
    let same_id : j.id ≡ input.id = (==_iff j.id input.id).0 same in
    let present : any_row (λ x. x.id == j.id) w.db.jobs ≡ true = rw same_id row in
    ground (arith, time_now_lem w, ticked-db w, ticked-faults w)
