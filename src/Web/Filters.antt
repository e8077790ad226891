-- ===== src/Web/Filters.antt =====
-- internal/web/handler.go: the filters of the lists.
use kong_gateway_cert_lite.Prelude.{
  List, [], ◌∷◌, Bool, ◌&&◌, ◌||◌, not, if◌then◌else◌, ◌==◌, eq_ℕ, eq_List, is_empty, keep,
}
use kong_gateway_cert_lite.Text.{Text, lit, trim_space, join}
use kong_gateway_cert_lite.Text.Case.{Unicode, to_lower, equal_fold, contains_text}
use kong_gateway_cert_lite.Domain.{job_type_text, job_status_text}
use kong_gateway_cert_lite.Views.Status.{certificate_status_text, kong_target_status_text, tone_of}
use kong_gateway_cert_lite.Views.Job.{JobView}
use kong_gateway_cert_lite.Views.KongTarget.{KongTargetView}
use kong_gateway_cert_lite.Views.Certificate.{CertificateView}
use kong_gateway_cert_lite.Web.Pages.{ListFilters}
use kong_gateway_cert_lite.Web.Answer.{Request}

unfoldable pub certificate_filters_from_request : Request → ListFilters
certificate_filters_from_request req =
    let query = trim_space (req.query (lit "q")) in
    let status = trim_space (req.query (lit "status")) in
    record {
      query = query;
      status = status;
      type = [];
      environment = [];
      has_any = not (is_empty query) || not (is_empty status);
    }

unfoldable pub kong_target_filters_from_request : Request → ListFilters
kong_target_filters_from_request req =
    let query = trim_space (req.query (lit "q")) in
    let status = trim_space (req.query (lit "status")) in
    let environment = trim_space (req.query (lit "environment")) in
    record {
      query = query;
      status = status;
      type = [];
      environment = environment;
      has_any = not (is_empty query) || (not (is_empty status) || not (is_empty environment));
    }

unfoldable pub job_filters_from_request : Request → ListFilters
job_filters_from_request req =
    let query = trim_space (req.query (lit "q")) in
    let status = trim_space (req.query (lit "status")) in
    let type = trim_space (req.query (lit "type")) in
    record {
      query = query;
      status = status;
      type = type;
      environment = [];
      has_any = not (is_empty query) || (not (is_empty status) || not (is_empty type));
    }

module _ (u : Unicode) where
  unfoldable pub contains_fold : Text → Text → Bool
  contains_fold value query = contains_text (to_lower u value) (to_lower u (trim_space query))

  -- A filter that is empty lets everything pass.
  abbrev same_word : Text → Text → Bool
  same_word wanted word = is_empty wanted || equal_fold u word wanted

  abbrev has_words : Text → List Text → Bool
  has_words wanted words = is_empty wanted || contains_fold (join (lit " ") words) wanted

  unfoldable pub certificate_passes : ListFilters → CertificateView → Bool
  certificate_passes filters view =
      same_word filters.status (certificate_status_text view.certificate.status)
      && has_words filters.query (
          view.certificate.name
          ∷ view.certificate.primary_domain
          ∷ view.certificate.email
          ∷ join (lit " ") view.certificate.domains
          ∷ join (lit " ") view.certificate.snis
          ∷ [])

  unfoldable pub filter_certificates : List CertificateView → ListFilters → List CertificateView
  filter_certificates views filters =
      if not filters.has_any then views else keep (certificate_passes filters) views

  unfoldable pub kong_target_passes : ListFilters → KongTargetView → Bool
  kong_target_passes filters view =
      same_word filters.status (kong_target_status_text view.target.status)
      && (same_word filters.environment view.target.environment
          && has_words filters.query (
              view.target.name ∷ view.target.environment ∷ view.target.admin_url
              ∷ view.target.auth_header_name ∷ []))

  unfoldable pub filter_kong_targets : List KongTargetView → ListFilters → List KongTargetView
  filter_kong_targets views filters =
      if not filters.has_any then views else keep (kong_target_passes filters) views

  unfoldable pub job_passes : ListFilters → JobView → Bool
  job_passes filters view =
      same_word filters.status (job_status_text view.job.status)
      && (same_word filters.type (job_type_text view.job.type)
          && has_words filters.query (
              view.job.message ∷ view.job.log ∷ view.type_label ∷ view.certificate_label
              ∷ view.kong_target_label ∷ []))

  unfoldable pub filter_jobs : List JobView → ListFilters → List JobView
  filter_jobs views filters = if not filters.has_any then views else keep (job_passes filters) views

  -- The colours that the templates ask for.
  unfoldable pub status_class : Text → Text
  status_class status = tone_of (to_lower u (trim_space status))

  abbrev type_colour : Text → Text
  type_colour s =
      if s == lit "issue"
      then lit "azure"
      else if s == lit "renew"
      then lit "cyan"
      else if s == lit "sync"
      then lit "success"
      else if s == lit "test_kong"
      then lit "purple"
      else if s == lit "delete"
      then lit "danger"
      else lit "secondary"

  unfoldable pub job_type_class : Text → Text
  job_type_class job_type = type_colour (to_lower u (trim_space job_type))
