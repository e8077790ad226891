-- ===== src/Web/Pages.antt =====
-- internal/web/handler.go: what the handlers hand to the templates.
use kong_gateway_cert_lite.Prelude.{ℕ, List, [], Bool, Option, none, String}
use kong_gateway_cert_lite.Prelude.Int.{ℤ}
use kong_gateway_cert_lite.Text.{Text}
use kong_gateway_cert_lite.Acme.{AcmeOperationState}
use kong_gateway_cert_lite.Views.Job.{JobView}
use kong_gateway_cert_lite.Views.KongTarget.{KongTargetView}
use kong_gateway_cert_lite.Views.Certificate.{CertificateView}

pub record FlashMessage : Type 0 where
  pub tone : Text
  pub message : Text

pub record PageData : Type 0 where
  pub title : Text
  pub active : Text
  pub heading : Text
  pub description : Text
  pub primary_action : Text
  pub action_href : Text
  pub action_class : Text
  pub flash : Option FlashMessage
  pub columns : List Text
  pub empty_title : Text
  pub empty_text : Text
  pub nav_certificates_class : Text
  pub nav_kong_targets_class : Text
  pub nav_jobs_class : Text

-- `PageData{}`
abbrev pub zero_page : PageData
zero_page = record {
  title = [];
  active = [];
  heading = [];
  description = [];
  primary_action = [];
  action_href = [];
  action_class = [];
  flash = none;
  columns = [];
  empty_title = [];
  empty_text = [];
  nav_certificates_class = [];
  nav_kong_targets_class = [];
  nav_jobs_class = [];
}

pub record ListFilters : Type 0 where
  pub query : Text
  pub status : Text
  pub type : Text
  pub environment : Text
  pub has_any : Bool

-- `usecase.CertificateFormData`
pub record CertificateFormData : Type 0 where
  pub id : ℕ
  pub name : Text
  pub email : Text
  pub domains_text : Text
  pub snis_text : Text
  pub auto_renew : Bool
  pub renew_before_days : ℤ

-- `usecase.KongTargetFormData`
pub record KongTargetFormData : Type 0 where
  pub id : ℕ
  pub name : Text
  pub environment : Text
  pub admin_url : Text
  pub auth_type : Text
  pub auth_header_name : Text
  pub auth_header_value : Text
  pub has_secret : Bool

pub record CertificateListPage : Type 0 where
  pub page : PageData
  pub certificates : List CertificateView
  pub filters : ListFilters
  pub total_count : ℕ

pub record CertificateFormPage : Type 0 where
  pub page : PageData
  pub form : CertificateFormData
  pub errors : List (String × String)
  pub is_edit : Bool
  pub action : Text
  pub domains_and_sni_lock : Bool
  pub domains_help_text : Text
  pub snis_help_text : Text

pub record CertificateDetailPage : Type 0 where
  pub page : PageData
  pub certificate : CertificateView
  pub latest_job : Option JobView
  pub acme_operation : AcmeOperationState
  pub acme_action_disabled : Bool

pub record KongTargetListPage : Type 0 where
  pub page : PageData
  pub targets : List KongTargetView
  pub filters : ListFilters
  pub total_count : ℕ

pub record KongTargetFormPage : Type 0 where
  pub page : PageData
  pub form : KongTargetFormData
  pub errors : List (String × String)
  pub is_edit : Bool
  pub action : Text

pub record JobListPage : Type 0 where
  pub page : PageData
  pub jobs : List JobView
  pub filters : ListFilters
  pub total_count : ℕ

pub record JobDetailPage : Type 0 where
  pub page : PageData
  pub job : JobView

-- A template with what it is executed on.
pub data Page : Type 0 where
  certificate_list : CertificateListPage → Page
  certificate_form : CertificateFormPage → Page
  certificate_detail : CertificateDetailPage → Page
  kong_target_list : KongTargetListPage → Page
  kong_target_form : KongTargetFormPage → Page
  job_list : JobListPage → Page
  job_detail : JobDetailPage → Page
