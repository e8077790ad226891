-- ===== src/Acme.antt =====
-- internal/usecase/acme.go: the collaborators, the check before an operation, the issued files.
-- Issuing and renewing stand in `Operations`; the other children hold the proofs.
pub mod Operations
pub mod Gate
pub mod Keeps
pub mod Outcome
pub mod Settle
pub mod Run
pub mod Issue
pub mod Stranded
pub mod Expiry
mod Tests
use kong_gateway_cert_lite.Prelude.{
  ℕ, zero, suc, ◌*◌, ◌-◌, ◌+◌, List, [], ◌∷◌, ◌++◌, Bool, true, false, Option, none, some,
  if◌then◌else◌, ◌==◌, eq_ℕ, eq_List, is_empty, length,
}
use kong_gateway_cert_lite.Text.{Text, lit, is_blank, join}
use kong_gateway_cert_lite.Text.Number.{decimal}
use kong_gateway_cert_lite.Text.FilePath.{file_join}
use kong_gateway_cert_lite.Calendar.{format_rfc3339, format_minute}
use kong_gateway_cert_lite.Domain.{
  Time, Bytes, minute, Certificate, CertificateStatus, JobType, issue, renew, JobStatus, success,
  job_type_text, job_status_text, Error, blocked, error_text,
}
use kong_gateway_cert_lite.Domain
use kong_gateway_cert_lite.World.{
  World, M, Result, ok, err, pure, raise, proceed, ◌>>=◌, ◌>>◌, attempt, or_not_found, time_now,
  join_errors, critical,
}
use kong_gateway_cert_lite.World
use kong_gateway_cert_lite.Sqlite.Certificates
use kong_gateway_cert_lite.Files.{read_certificate_files, mkdir_all, write_file}
use kong_gateway_cert_lite.Notification.{Notifier, notify_job_result}
use kong_gateway_cert_lite.Job
use kong_gateway_cert_lite.KongSync
use kong_gateway_cert_lite.KongSync.{ask, KongCertificateSyncClient}

pub record AcmeIssueRequest : Type 0 where
  pub email : Text
  pub domains : List Text

pub record AcmeRenewRequest : Type 0 where
  pub email : Text
  pub domains : List Text
  pub existing_full_chain_pem : Bytes
  pub existing_private_key_pem : Bytes

pub record AcmeIssueResult : Type 0 where
  pub full_chain_pem : Bytes
  pub private_key_pem : Bytes

-- `ACMEIssueClient`; its answer to the n-th call that the program makes is free.
pub record AcmeIssueClient : Type 0 where
  pub issue : ℕ → AcmeIssueRequest → Result AcmeIssueResult
  pub renew : ℕ → AcmeRenewRequest → Result AcmeIssueResult

-- encoding/pem and crypto/x509: the first block of a text with what follows it, and the end of a
-- certificate's validity.
pub record PemBlock : Type 0 where
  pub type : Text
  pub bytes : Bytes

pub record X509 : Type 0 where
  pub decode : Bytes → Option (PemBlock × Bytes)
  pub not_after : Bytes → Result Time

-- The state of the ACME use case: its directory, and its collaborators.
pub record AcmeUseCase : Type 0 where
  pub client : AcmeIssueClient
  pub x509 : X509
  pub cert_dir : Text
  pub kong_sync : Option (KongCertificateSyncClient × Notifier)
  pub notifier : Notifier

abbrev pub acme_retry_cooldown : Time
acme_retry_cooldown = 15 * minute

abbrev pub acme_job_types : List JobType
acme_job_types = issue ∷ renew ∷ []

pub record AcmeOperationState : Type 0 where
  pub is_blocked : Bool
  pub reason : Text
  pub retry_after : Text

abbrev pub unblocked : AcmeOperationState
unblocked = record { is_blocked = false; reason = []; retry_after = [] }

abbrev pub running_state : AcmeOperationState
running_state = record {
  is_blocked = true;
  reason = lit "An issue or renew job is already running for this certificate.";
  retry_after = [];
}

abbrev pub cooling_state : Domain.Job → AcmeOperationState
cooling_state job = record {
  is_blocked = true;
  reason = lit "The last issue or renew attempt failed recently. Wait 15 minutes before retrying.";
  retry_after = format_minute (job.started_at + acme_retry_cooldown) ++ lit " UTC";
}

abbrev pub after_failure : Option Domain.Job → AcmeOperationState
after_failure none = unblocked
after_failure (some job) = cooling_state job

unfoldable pub acme_operation_state : ℕ → Time → M AcmeOperationState
acme_operation_state certificate_id now = do
  running ← Job.has_running_certificate_job certificate_id acme_job_types
  elim running [
    | true ↦ pure running_state
    | false ↦ do
      failure ←
          Job.latest_failed_certificate_job_since certificate_id acme_job_types
            (now - acme_retry_cooldown)
      pure (after_failure failure)
  ]

unfoldable pub operation_state : ℕ → M AcmeOperationState
unfolding acme_operation_state
operation_state certificate_id = do now ← time_now; acme_operation_state certificate_id now

unfoldable pub ensure_acme_operation_allowed : ℕ → M Unit
unfolding operation_state
ensure_acme_operation_allowed certificate_id = do
  state ← operation_state certificate_id
  if state.is_blocked then raise (blocked state.reason) else pure tt

-- The loop of `parseCertificateExpiry`; each round but the last consumes a block.
unfoldable pub parse_expiry_from : X509 → ℕ → Bytes → Result Time
parse_expiry_from x zero rest =
    err (Domain.Error.failed (lit "issued certificate does not contain a valid PEM certificate"))
parse_expiry_from x (suc fuel) rest =
    if is_empty rest
    then err
        (Domain.Error.failed (lit "issued certificate does not contain a valid PEM certificate"))
    else elim (x.decode rest) [
      | none ↦
          err (
            Domain.Error.failed (lit "issued certificate does not contain a valid PEM certificate"))
      | some (block, remaining) ↦
          if block.type == lit "CERTIFICATE"
          then elim (x.not_after block.bytes) [
            | ok t ↦ ok t
            | err e ↦ err (Domain.Error.failed (lit "parse issued certificate: " ++ error_text e))
          ]
          else parse_expiry_from x fuel remaining
    ]

unfoldable pub parse_certificate_expiry : X509 → Bytes → Result Time
unfolding parse_expiry_from
parse_certificate_expiry x full_chain_pem =
    parse_expiry_from x (suc (length full_chain_pem)) full_chain_pem

unfoldable pub write_issued_files : Text → ℕ → Bytes → Bytes → M (Text × Text)
write_issued_files cert_dir certificate_id full_chain_pem private_key_pem =
    if is_blank cert_dir
    then raise (Domain.Error.failed (lit "certificate directory is not configured"))
    else if is_empty full_chain_pem
    then raise (Domain.Error.failed (lit "issued certificate is empty"))
    else if is_empty private_key_pem
    then raise (Domain.Error.failed (lit "issued private key is empty"))
    else do
      let target_dir = file_join cert_dir (decimal certificate_id)
      mkdir_all target_dir
      let cert_path = file_join target_dir (lit "fullchain.pem")
      let key_path = file_join target_dir (lit "privkey.pem")
      write_file (lit "certificate") cert_path full_chain_pem
      write_file (lit "private key") key_path private_key_pem
      pure (cert_path, key_path)
