-- ===== src/Job.antt =====
-- internal/usecase/job.go
pub mod Effects
use kong_gateway_cert_lite.Prelude.{
  ℕ, List, [], ◌∷◌, ◌++◌, Bool, true, false, Option, none, some, String, if◌then◌else◌, ◌==◌, eq_ℕ,
  is_empty,
}
use kong_gateway_cert_lite.Text.{Text, lit, trim_space}
use kong_gateway_cert_lite.Domain.{
  Time, JobType, JobStatus, running, success, job_type_of, job_status_of, Error, validation, failed,
}
use kong_gateway_cert_lite.Domain
use kong_gateway_cert_lite.World.{M, Result, ok, err, raise, ◌>>=◌, or_not_found, time_now}
use kong_gateway_cert_lite.Sqlite.Jobs

pub record JobInput : Type 0 where
  pub certificate_id : Option ℕ
  pub kong_target_id : Option ℕ
  pub type : Text
  pub status : Text
  pub message : Text
  pub log : Text

pub record JobCompleteInput : Type 0 where
  pub id : ℕ
  pub status : Text
  pub message : Text
  pub log : Text

-- The fields of a map of messages: an entry where the test fails.
abbrev pub complain : Bool → String → String → List (String × String)
complain good field message = if good then [] else (field, message) ∷ []

abbrev pub is_valid_type : JobType → Bool
is_valid_type (JobType.other _) = false
is_valid_type _ = true

abbrev pub is_valid_status : JobStatus → Bool
is_valid_status (JobStatus.other _) = false
is_valid_status _ = true

-- The job that `validateJobInput` builds; the columns that it does not set are Go's zero values.
abbrev pub built_job : JobInput → Domain.Job
built_job input = record {
  id = 0;
  certificate_id = input.certificate_id;
  kong_target_id = input.kong_target_id;
  type = job_type_of (trim_space input.type);
  status =
      if is_empty (trim_space input.status)
      then running
      else job_status_of (trim_space input.status);
  message = trim_space input.message;
  log = trim_space input.log;
  started_at = 0;
  finished_at = none;
  created_at = 0;
}

unfoldable pub validate_job_input : JobInput → Result Domain.Job
validate_job_input input =
    let job = built_job input in
    let fields : List (String × String) =
      complain (is_valid_type job.type) "type" "Job type is invalid."
      ++ complain (is_valid_status job.status) "status" "Job status is invalid." in
    if is_empty fields then ok job else err (validation fields)

abbrev pub lift : {A : Type 0} → Result A → M A
lift r w = (r, w)

unfoldable pub create : JobInput → M ℕ
create input = do job ← lift (validate_job_input input); Jobs.create job

-- `switch status` in `Complete`
abbrev pub completion : JobStatus → Option JobStatus
completion success = some success
completion JobStatus.failed = some JobStatus.failed
completion _ = none

abbrev pub bad_completion : Error
bad_completion = validation (("status", "Job completion status must be success or failed.") ∷ [])

abbrev pub completed : JobCompleteInput → Domain.Job → JobStatus → Time → Domain.Job
completed input job status now = record job {
  status = status;
  message = trim_space input.message;
  log = trim_space input.log;
  finished_at = some now;
}

unfoldable pub complete : JobCompleteInput → M Unit
complete input = if input.id == 0 then raise (failed (lit "invalid job id")) else do
  existing ← or_not_found (Jobs.get input.id)
  elim (completion (job_status_of (trim_space input.status))) [
    | none ↦ raise bad_completion
    | some status ↦ do now ← time_now; Jobs.update (completed input existing status now)
  ]

unfoldable pub clear_completed : M ℕ
clear_completed = Jobs.delete_completed

unfoldable pub has_running_certificate_job : ℕ → List JobType → M Bool
has_running_certificate_job = Jobs.has_running_certificate_job

unfoldable pub latest_failed_certificate_job_since : ℕ → List JobType → Time → M (Option Domain.Job)
latest_failed_certificate_job_since = Jobs.latest_failed_certificate_job_since
