-- ===== src/KongTarget.antt =====
-- internal/usecase/kong_target.go: the Kong targets' use case.
pub mod Secret
pub mod Connection
mod Tests
use kong_gateway_cert_lite.Prelude.{
  ℕ, List, [], ◌∷◌, ◌++◌, Bool, true, false, ◌&&◌, ◌||◌, not, String, Option, none, some,
  if◌then◌else◌, ◌==◌, eq_ℕ, eq_List, leb, contains, is_empty,
}
use kong_gateway_cert_lite.Text.{Text, lit, trim_space}
use kong_gateway_cert_lite.Domain.{
  Time, KongTarget, KongTargetStatus, KongTargetAuthType, custom_header, unknown, online, offline,
  JobStatus, success, test_kong, job_type_text, job_status_text, Error, error_text, validation,
}
use kong_gateway_cert_lite.World.{
  M, Result, ok, err, pure, raise, ◌>>=◌, ◌>>◌, or_not_found, time_now, NotificationSeverity,
  NotificationEvent,
}
use kong_gateway_cert_lite.Sqlite.KongTargets
use kong_gateway_cert_lite.Notification.{Notifier, notify_job_result}
use kong_gateway_cert_lite.KongSync.{ask}
use kong_gateway_cert_lite.Certificate.{note, accept}
use kong_gateway_cert_lite.Job

pub record KongTargetInput : Type 0 where
  pub id : ℕ
  pub name : Text
  pub environment : Text
  pub admin_url : Text
  pub auth_type : Text
  pub auth_header_name : Text
  pub auth_header_value : Text

-- `domain.KongTargetAuthType(s)`
unfoldable pub auth_type_of : Text → KongTargetAuthType
auth_type_of s =
    if is_empty s || s == lit "none"
    then KongTargetAuthType.none
    else if s == lit "custom-header"
    then custom_header
    else KongTargetAuthType.other s

-- The characters of a header's name.
unfoldable pub is_header_char : ℕ → Bool
is_header_char c =
    (leb b'A' c && leb c b'Z')
    || ((leb b'a' c && leb c b'z')
        || ((leb b'0' c && leb c b'9') || contains (lit "!#$%&'*+-.^_`|~") c))

abbrev all_header_chars : Text → Bool
all_header_chars [] = true
all_header_chars (c ∷ s) = is_header_char c && all_header_chars s

unfoldable pub is_http_header_name : Text → Bool
is_http_header_name value = not (is_empty value) && all_header_chars value

-- The target that the input describes: without header where no authentication is wanted.
abbrev described : KongTargetInput → KongTargetAuthType → KongTarget
described input auth_type = record {
  id = 0;
  name = trim_space input.name;
  environment = trim_space input.environment;
  admin_url = trim_space input.admin_url;
  auth_type = auth_type;
  auth_header_name = elim auth_type [
    | KongTargetAuthType.none ↦ []
    | _ ↦ trim_space input.auth_header_name
  ];
  auth_header_value = elim auth_type [
    | KongTargetAuthType.none ↦ []
    | _ ↦ trim_space input.auth_header_value
  ];
  status = unknown;
  last_checked_at = none;
  created_at = 0;
  updated_at = 0;
}

unfoldable pub described_target : KongTargetInput → KongTarget
described_target input = described input (auth_type_of (trim_space input.auth_type))

-- A custom header with no value in the form keeps the value that is stored.
unfoldable pub with_secret : KongTarget → KongTarget → Text
with_secret existing target = elim target.auth_type [
  | custom_header ↦
      if is_empty target.auth_header_value
      then existing.auth_header_value
      else target.auth_header_value
  | _ ↦ target.auth_header_value
]

unfoldable pub merged : KongTargetInput → KongTarget → KongTarget → KongTarget
merged input existing target = record target {
  id = input.id;
  status = existing.status;
  last_checked_at = existing.last_checked_at;
  auth_header_value = with_secret existing target;
}

abbrev auth_problems : KongTarget → Bool → List (String × String)
auth_problems t allow_existing_secret = elim t.auth_type [
  | KongTargetAuthType.none ↦ []
  | custom_header ↦
      note (not (is_http_header_name t.auth_header_name)) "auth_header_name"
        (if is_empty t.auth_header_name
          then "Header name is required for custom-header auth."
          else "Enter a valid HTTP header name.")
        (note (is_empty t.auth_header_value && not allow_existing_secret) "auth_header_value"
          "Header value is required for custom-header auth." [])
  | KongTargetAuthType.other s ↦ ("auth_type", "Auth type must be none or custom-header.") ∷ []
]

abbrev url_problem : Option (Text × Text) → List (String × String) → List (String × String)
url_problem none fields = ("admin_url", "Enter a valid Admin API URL.") ∷ fields
url_problem (some (scheme, host)) fields =
    if is_empty scheme || is_empty host
    then ("admin_url", "Enter a valid Admin API URL.") ∷ fields
    else note (not (scheme == lit "http" || scheme == lit "https")) "admin_url"
        "Admin API URL must start with http:// or https://." fields

-- url.ParseRequestURI, with the scheme and the host of what it reads.
module _ (parse_uri : Text → Option (Text × Text)) where
  unfoldable pub refused_fields : KongTarget → Bool → List (String × String)
  refused_fields t allow_existing_secret =
      note (is_empty t.name) "name" "Target name is required." (
        note (is_empty t.environment) "environment" "Environment is required." (
          if is_empty t.admin_url
          then ("admin_url", "Admin API URL is required.") ∷ auth_problems t allow_existing_secret
          else url_problem (parse_uri t.admin_url) (auth_problems t allow_existing_secret)))

  unfoldable pub validate_kong_target_input : KongTargetInput → Bool → Result KongTarget
  validate_kong_target_input input allow_existing_secret =
      elim (refused_fields (described_target input) allow_existing_secret) [
        | [] ↦ ok (described_target input)
        | f ∷ fs ↦ err (validation (f ∷ fs))
      ]

  unfoldable pub create : KongTargetInput → M ℕ
  create input = accept (validate_kong_target_input input false) >>= KongTargets.create

  unfoldable pub update : KongTargetInput → M Unit
  update input = do
    existing ← or_not_found (KongTargets.get input.id)
    target ← accept (validate_kong_target_input input true)
    KongTargets.update (merged input existing target)

unfoldable pub delete : ℕ → M Unit
delete id = or_not_found (KongTargets.delete id)

-- What `CheckConnection` of the client gives back: a detail for the log, an error or nil.
pub record CheckReply : Type 0 where
  pub detail : Text
  pub error : Option Error

pub record KongAdminClient : Type 0 where
  pub check_connection : ℕ → KongTarget → CheckReply

-- What a test of a target leaves: the target's status, and the job's last status, message and log.
pub record CheckOutcome : Type 0 where
  pub target_status : KongTargetStatus
  pub status : JobStatus
  pub message : Text
  pub log : Text

abbrev check_log : KongTarget → CheckReply → Text
check_log target reply =
    trim_space (lit "Testing Kong target " ++ (target.admin_url ++ (lit "\n" ++ reply.detail)))

unfoldable pub check_outcome : KongTarget → CheckReply → CheckOutcome
check_outcome target reply = elim reply.error [
  | some e ↦ record {
    target_status = offline;
    status = JobStatus.failed;
    message = error_text e;
    log = trim_space (check_log target reply ++ (lit "\n" ++ error_text e));
  }
  | none ↦ record {
    target_status = online;
    status = success;
    message = lit "Kong Admin API reachable";
    log = check_log target reply;
  }
]

abbrev pub checked_event : KongTarget → ℕ → CheckOutcome → NotificationEvent
checked_event target job_id outcome = record {
  severity = elim outcome.status [
    | JobStatus.failed ↦ NotificationSeverity.warning
    | _ ↦ NotificationSeverity.success
  ];
  event = elim outcome.status [
    | JobStatus.failed ↦ lit "kong_target_test_failed"
    | _ ↦ lit "kong_target_test_succeeded"
  ];
  certificate = none;
  kong_target = target.name;
  environment = target.environment;
  job_id = job_id;
  job_type = some test_kong;
  job_status = some outcome.status;
  message = outcome.message;
  remaining_days = none;
  occurred_at = 0;
}

module _ (tester : KongAdminClient) (notifier : Notifier) where
  unfoldable pub report_check : KongTarget → ℕ → CheckOutcome → M Unit
  report_check target job_id outcome =
      notify_job_result notifier (checked_event target job_id outcome)

  unfoldable pub test_connection : ℕ → M Unit
  test_connection id = do
    target ← or_not_found (KongTargets.get id)
    job_id ← Job.create (record {
      certificate_id = none;
      kong_target_id = some target.id;
      type = job_type_text test_kong;
      status = [];
      message = lit "Testing Kong Admin API connectivity";
      log = lit "Starting Kong Admin API connectivity test for " ++ target.admin_url;
    })
    reply ← ask (λ n. tester.check_connection n target)
    checked_at ← time_now
    let outcome = check_outcome target reply
    KongTargets.update
        (record target { status = outcome.target_status; last_checked_at = some checked_at })
    Job.complete (record {
      id = job_id;
      status = job_status_text outcome.status;
      message = outcome.message;
      log = outcome.log;
    })
    report_check target job_id outcome
