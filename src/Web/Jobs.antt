-- ===== src/Web/Jobs.antt =====
-- internal/web/handler.go: the list of jobs, a job's page, and clearing the list.
use kong_gateway_cert_lite.Prelude.{
  ℕ, List, [], ◌∷◌, ◌++◌, if◌then◌else◌, ◌==◌, eq_ℕ, ltb, length, map, take,
}
use kong_gateway_cert_lite.Text.{Text, lit}
use kong_gateway_cert_lite.Text.Number.{decimal}
use kong_gateway_cert_lite.World.{M, pure}
use kong_gateway_cert_lite.Job
use kong_gateway_cert_lite.Views.Job as JobViews
use kong_gateway_cert_lite.Views.Job.{JobView}
use kong_gateway_cert_lite.Web.Pages.{zero_page, job_list, job_detail}
use kong_gateway_cert_lite.Web.Answer.{
  Handler, Request, Answer, status_ok, server_error, not_found_or_error, handle, with_id,
}
use kong_gateway_cert_lite.Web.Flash.{page_data, redirect_with_flash}
use kong_gateway_cert_lite.Web.Filters.{job_filters_from_request, filter_jobs}
use kong_gateway_cert_lite.Web.Certificates.{render}

abbrev pub jobs_list_limit : ℕ
jobs_list_limit = 50

unfoldable pub limited : List JobView → List JobView
limited views = if ltb jobs_list_limit (length views) then take jobs_list_limit views else views

abbrev to_jobs : Handler → Text → Text → Answer
to_jobs h = redirect_with_flash h (lit "/jobs")

module _ (h : Handler) where
  unfoldable pub jobs : Request → M Answer
  jobs req = handle JobViews.list server_error λ views.
      let filters = job_filters_from_request req in
      pure (
        render h req status_ok (
          job_list (record {
            page = page_data h req (record zero_page {
              title = lit "Jobs and logs";
              active = lit "jobs";
              heading = lit "Jobs and logs";
              description = lit "Operation history for issue, sync, and target checks.";
              primary_action = lit "Refresh";
              action_href = lit "/jobs";
              action_class = lit "btn btn-outline-secondary";
              columns = map lit ("Run" ∷ "Scope" ∷ "Outcome" ∷ "Actions" ∷ []);
              empty_title = lit "No jobs";
              empty_text =
                  lit "Job history appears after certificate, sync, or Kong target actions run.";
            });
            jobs = limited (filter_jobs h.unicode views filters);
            filters = filters;
            total_count = length views;
          })))

  unfoldable pub clear_jobs : Request → M Answer
  clear_jobs req = handle Job.clear_completed server_error λ deleted. pure (
      if deleted == 0
      then to_jobs h (lit "warning") (lit "No completed logs were available to clear.")
      else to_jobs h (lit "success")
          (lit "Cleared " ++ (decimal deleted ++ lit " completed logs.")))

  unfoldable pub job_detail_page : Request → M Answer
  job_detail_page req = with_id (req.params (lit "id")) λ id.
      handle (JobViews.get id) not_found_or_error λ view. pure (
        render h req status_ok (
          job_detail (record {
            page = page_data h req (record zero_page {
              title = lit "Job #" ++ decimal view.job.id;
              active = lit "jobs";
              heading = lit "Job #" ++ decimal view.job.id;
              description = lit "Run status, timing, and log output.";
              primary_action = lit "Back to jobs";
              action_href = lit "/jobs";
              action_class = lit "btn btn-outline-secondary";
              empty_title = lit "No log output";
              empty_text = lit "This job has no captured log lines.";
            });
            job = view;
          })))
