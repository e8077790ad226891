-- ===== src/Domain.antt =====
-- internal/domain: the records and status words that all layers share, and the errors.
use kong_gateway_cert_lite.Prelude.{
  ℕ, ◌*◌, List, ◌++◌, Bool, true, false, ◌||◌, Option, String, if◌then◌else◌, ◌==◌, eq_ℕ, eq_List,
}
use kong_gateway_cert_lite.Prelude.Int.{ℤ}
use kong_gateway_cert_lite.Text.{Text, lit}

-- A `time.Time` in UTC, as the nanoseconds since Go's zero time (year 1); 0 is the zero time.
abbrev pub Time : Type 0
Time = ℕ

abbrev pub Bytes : Type 0
Bytes = List ℕ

abbrev pub second : ℕ
second = 1_000_000_000

abbrev pub minute : ℕ
minute = 60 * second

abbrev pub day : ℕ
day = 86_400 * second

pub data CertificateStatus : Type 0 where
  pending active warning expired failed : CertificateStatus

pub record Certificate : Type 0 where
  pub id : ℕ
  pub name : Text
  pub primary_domain : Text
  pub domains : List Text
  pub email : Text
  pub snis : List Text
  pub cert_path : Text
  pub key_path : Text
  pub expires_at : Option Time
  pub auto_renew : Bool
  pub renew_before_days : ℤ
  pub status : CertificateStatus
  pub created_at : Time
  pub updated_at : Time

pub data SyncStatus : Type 0 where
  pending synced failed not_synced : SyncStatus

pub record CertificateKongTarget : Type 0 where
  pub id : ℕ
  pub certificate_id : ℕ
  pub kong_target_id : ℕ
  pub kong_certificate_id : Text
  pub sync_status : SyncStatus
  pub last_synced_at : Option Time
  pub last_error : Text
  pub created_at : Time
  pub updated_at : Time

pub data KongTargetStatus : Type 0 where
  online offline unknown : KongTargetStatus

-- A Go string type: the constants, and `other` for any further word.
pub data KongTargetAuthType : Type 0 where
  none custom_header : KongTargetAuthType
  other : Text → KongTargetAuthType

pub record KongTarget : Type 0 where
  pub id : ℕ
  pub name : Text
  pub environment : Text
  pub admin_url : Text
  pub auth_type : KongTargetAuthType
  pub auth_header_name : Text
  pub auth_header_value : Text
  pub status : KongTargetStatus
  pub last_checked_at : Option Time
  pub created_at : Time
  pub updated_at : Time

pub data JobType : Type 0 where
  issue renew sync test_kong delete : JobType
  other : Text → JobType

pub data JobStatus : Type 0 where
  running success failed : JobStatus
  other : Text → JobStatus

pub record Job : Type 0 where
  pub id : ℕ
  pub certificate_id : Option ℕ
  pub kong_target_id : Option ℕ
  pub type : JobType
  pub status : JobStatus
  pub message : Text
  pub log : Text
  pub started_at : Time
  pub finished_at : Option Time
  pub created_at : Time

-- `domain.JobType(s)` and `string(t)`
unfoldable pub job_type_of : Text → JobType
job_type_of s =
    if s == lit "issue"
    then issue
    else if s == lit "renew"
    then renew
    else if s == lit "sync"
    then sync
    else if s == lit "test_kong"
    then test_kong
    else if s == lit "delete"
    then delete
    else JobType.other s

unfoldable pub job_type_text : JobType → Text
job_type_text issue = lit "issue"
job_type_text renew = lit "renew"
job_type_text sync = lit "sync"
job_type_text test_kong = lit "test_kong"
job_type_text delete = lit "delete"
job_type_text (other s) = s

-- `a == b` on job types and on job statuses
unfoldable pub is_type : JobType → JobType → Bool
is_type issue issue = true
is_type renew renew = true
is_type sync sync = true
is_type test_kong test_kong = true
is_type delete delete = true
is_type (other a) (other b) = a == b
is_type _ _ = false

unfoldable pub is_status : JobStatus → JobStatus → Bool
is_status running running = true
is_status success success = true
is_status failed failed = true
is_status (other a) (other b) = a == b
is_status _ _ = false

-- `domain.JobStatus(s)` and `string(t)`
unfoldable pub job_status_of : Text → JobStatus
job_status_of s =
    if s == lit "running"
    then running
    else if s == lit "success"
    then success
    else if s == lit "failed"
    then JobStatus.failed
    else JobStatus.other s

unfoldable pub job_status_text : JobStatus → Text
job_status_text running = lit "running"
job_status_text success = lit "success"
job_status_text failed = lit "failed"
job_status_text (other s) = s

-- The errors of the use cases: `ErrNotFound`, `ValidationError`, `OperationBlockedError`, any
-- other, by its text, and `errors.Join` of two.
pub data Error : Type 0 where
  not_found : Error
  validation : List (String × String) → Error
  blocked : Text → Error
  failed : Text → Error
  join : Error → Error → Error

-- `err.Error()`
unfoldable pub error_text : Error → Text
error_text not_found = lit "not found"
error_text (validation fields) = lit "validation failed"
error_text (blocked reason) = reason
error_text (failed text) = text
error_text (join a b) = error_text a ++ (lit "\n" ++ error_text b)

-- `errors.Is(err, domain.ErrNotFound)`
unfoldable pub is_not_found : Error → Bool
is_not_found not_found = true
is_not_found (join a b) = is_not_found a || is_not_found b
is_not_found _ = false
