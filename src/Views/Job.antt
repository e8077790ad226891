-- ===== src/Views/Job.antt =====
-- internal/usecase/job.go: what the pages show of jobs.
use kong_gateway_cert_lite.Prelude.{
  ℕ, List, map, ◌++◌, Option, none, some, if◌then◌else◌, ◌==◌, eq_ℕ,
}
use kong_gateway_cert_lite.Text.{Text, lit}
use kong_gateway_cert_lite.Text.Number.{decimal}
use kong_gateway_cert_lite.Calendar.{format_minute}
use kong_gateway_cert_lite.Domain.{Time, job_type_text, job_status_text}
use kong_gateway_cert_lite.Domain
use kong_gateway_cert_lite.World.{M, pure, ◌>>=◌, or_not_found}
use kong_gateway_cert_lite.Sqlite.Jobs
use kong_gateway_cert_lite.Views.Status.{status_label_for_value}

pub record JobView : Type 0 where
  pub job : Domain.Job
  pub type_label : Text
  pub status_label : Text
  pub started_at : Text
  pub finished_at : Text
  pub certificate_label : Text
  pub kong_target_label : Text

unfoldable pub optional_id_label : Text → Option ℕ → Text
optional_id_label prefix none = lit "Not linked"
optional_id_label prefix (some id) = prefix ++ (lit " #" ++ decimal id)

unfoldable pub format_job_time : Time → Text
format_job_time value = if value == 0 then lit "Unknown" else format_minute value

abbrev finished_label : Option Time → Text
finished_label none = lit "Not finished"
finished_label (some t) = format_job_time t

unfoldable pub build_job_view : Domain.Job → JobView
build_job_view job = record {
  job = job;
  type_label = status_label_for_value (job_type_text job.type);
  status_label = status_label_for_value (job_status_text job.status);
  started_at = format_job_time job.started_at;
  finished_at = finished_label job.finished_at;
  certificate_label = optional_id_label (lit "Certificate") job.certificate_id;
  kong_target_label = optional_id_label (lit "Kong target") job.kong_target_id;
}

unfoldable pub list : M (List JobView)
list = do jobs ← Jobs.list; pure (map build_job_view jobs)

unfoldable pub get : ℕ → M JobView
get id = do job ← or_not_found (Jobs.get id); pure (build_job_view job)
