-- ===== src/Acme/Operations.antt =====
-- internal/usecase/acme.go: issuing and renewing, from the check to the Kong sync.
use kong_gateway_cert_lite.Prelude.{ℕ, [], ◌∷◌, ◌++◌, Bool, true, false, none, some, eq_ℕ, eq_List}
use kong_gateway_cert_lite.Text.{Text, lit, join}
use kong_gateway_cert_lite.Calendar.{format_rfc3339}
use kong_gateway_cert_lite.Domain.{
  Time, Certificate, CertificateStatus, JobType, issue, renew, JobStatus, success, job_type_text,
  job_status_text, Error, error_text,
}
use kong_gateway_cert_lite.World.{
  World, M, Result, ok, err, pure, raise, proceed, ◌>>=◌, ◌>>◌, attempt, or_not_found, time_now,
  join_errors, critical,
}
use kong_gateway_cert_lite.World
use kong_gateway_cert_lite.Sqlite.Certificates
use kong_gateway_cert_lite.Files.{read_certificate_files}
use kong_gateway_cert_lite.Notification.{notify_job_result}
use kong_gateway_cert_lite.Job
use kong_gateway_cert_lite.Job.{JobInput, JobCompleteInput}
use kong_gateway_cert_lite.KongSync
use kong_gateway_cert_lite.KongSync.{ask, KongCertificateSyncClient}
use kong_gateway_cert_lite.Acme.{
  AcmeIssueResult, AcmeUseCase, ensure_acme_operation_allowed, parse_certificate_expiry,
  write_issued_files,
}

-- The words in which the two operations differ.
pub record Wording : Type 0 where
  pub type : JobType
  pub starting : Text
  pub start_log : Text
  pub done : Text
  pub done_log : Text
  pub failed_log : Text
  pub succeeded_event : Text
  pub failed_event : Text

abbrev pub issue_words : Wording
issue_words = record {
  type = issue;
  starting = lit "Issuing certificate via Let's Encrypt";
  start_log = lit "Starting ACME DNS-01 issue for ";
  done = lit "Certificate issued successfully";
  done_log = lit "Issued certificate for ";
  failed_log = lit "Certificate issue failed";
  succeeded_event = lit "issue_succeeded";
  failed_event = lit "issue_failed";
}

abbrev pub renew_words : Wording
renew_words = record {
  type = renew;
  starting = lit "Renewing certificate via Let's Encrypt";
  start_log = lit "Starting ACME DNS-01 renew for ";
  done = lit "Certificate renewed successfully";
  done_log = lit "Renewed certificate for ";
  failed_log = lit "Certificate renew failed";
  succeeded_event = lit "renew_succeeded";
  failed_event = lit "renew_failed";
}

pub record Issued : Type 0 where
  pub cert_path : Text
  pub key_path : Text
  pub expires_at : Time

-- How the job of an operation is created and completed.
abbrev pub start_input : Wording → Certificate → JobInput
start_input words certificate = record {
  certificate_id = some certificate.id;
  kong_target_id = none;
  type = job_type_text words.type;
  status = [];
  message = words.starting;
  log = words.start_log ++ join (lit ", ") certificate.domains;
}

abbrev pub success_input : Wording → Certificate → ℕ → Issued → JobCompleteInput
success_input words certificate job_id issued = record {
  id = job_id;
  status = job_status_text success;
  message = words.done;
  log = join (lit "\n") (
      (words.done_log ++ join (lit ", ") certificate.domains)
      ∷ (lit "Saved fullchain to " ++ issued.cert_path)
      ∷ (lit "Saved private key to " ++ issued.key_path)
      ∷ (lit "Expires at " ++ format_rfc3339 issued.expires_at)
      ∷ []);
}

abbrev pub failure_input : Wording → ℕ → Error → JobCompleteInput
failure_input words job_id cause = record {
  id = job_id;
  status = job_status_text JobStatus.failed;
  message = error_text cause;
  log = join (lit "\n") (words.failed_log ∷ error_text cause ∷ []);
}

module _ (uc : AcmeUseCase) where
  -- The job of an operation, created as running.
  unfoldable pub start_job : Wording → Certificate → M ℕ
  start_job words certificate = Job.create (start_input words certificate)

  unfoldable pub report : Wording → Certificate → ℕ → JobStatus → Text → M Unit
  report words certificate job_id status message = notify_job_result uc.notifier (record {
    severity = elim status [ success ↦ World.NotificationSeverity.success | _ ↦ critical ];
    event = elim status [ success ↦ words.succeeded_event | _ ↦ words.failed_event ];
    certificate = some certificate;
    kong_target = [];
    environment = [];
    job_id = job_id;
    job_type = some words.type;
    job_status = some status;
    message = message;
    remaining_days = none;
    occurred_at = 0;
  })

  -- `failIssue` and `failRenew`: both calls are made, whatever the first returns.
  unfoldable pub fail : Wording → Certificate → ℕ → Error → M Unit
  fail words certificate job_id cause = do
    status_err ← attempt (Certificates.update_status certificate.id CertificateStatus.failed)
    job_err ← attempt (Job.complete (failure_input words job_id cause))
    report words certificate job_id JobStatus.failed (error_text cause)
    Job.lift (join_errors status_err job_err)

  -- Write the files of an answer and read its end of validity; any error here is a failure of the
  -- operation.
  unfoldable pub store : Certificate → AcmeIssueResult → M Issued
  store certificate result = do
    paths ←
        write_issued_files uc.cert_dir certificate.id result.full_chain_pem result.private_key_pem
    expires_at ← Job.lift (parse_certificate_expiry uc.x509 result.full_chain_pem)
    pure (record { cert_path = paths.0; key_path = paths.1; expires_at = expires_at })

  unfoldable pub succeed : Wording → Certificate → ℕ → Issued → M Unit
  succeed words certificate job_id issued = do
    Certificates.mark_issued certificate.id issued.cert_path issued.key_path issued.expires_at
    Job.complete (success_input words certificate job_id issued)
    report words certificate job_id success words.done

  -- What follows the client's part, by its outcome; whether the operation has succeeded.
  unfoldable pub settle : Wording → Certificate → ℕ → Result Issued → M Bool
  settle words certificate job_id (ok issued) =
      succeed words certificate job_id issued >>= λ _. pure true
  settle words certificate job_id (err e) = fail words certificate job_id e >>= λ _. pure false

  unfoldable pub obtain : Certificate → M Issued
  obtain certificate = do
    answer ← ask (λ n.
        uc.client.issue n (record { email = certificate.email; domains = certificate.domains }))
    result ← Job.lift answer
    store certificate result

  unfoldable pub obtain_again : Certificate → M Issued
  obtain_again certificate = do
    existing ← read_certificate_files (lit "existing ") certificate.cert_path certificate.key_path
    answer ← ask (λ n. uc.client.renew n (record {
      email = certificate.email;
      domains = certificate.domains;
      existing_full_chain_pem = existing.0;
      existing_private_key_pem = existing.1;
    }))
    result ← Job.lift answer
    store certificate result

  -- The steps that `IssueCertificate` and `RenewCertificate` share.
  unfoldable pub run_operation : Wording → (Certificate → M Issued) → ℕ → M (Certificate × Bool)
  run_operation words work certificate_id = do
    certificate ← or_not_found (Certificates.get certificate_id)
    ensure_acme_operation_allowed certificate.id
    job_id ← start_job words certificate
    outcome ← attempt (work certificate)
    done ← settle words certificate job_id outcome
    pure (certificate, done)

  unfoldable pub issue_certificate : ℕ → M Unit
  issue_certificate certificate_id =
      run_operation issue_words obtain certificate_id >>= λ _. pure tt

  -- The Kong sync that follows a renewal, where one is configured.
  unfoldable pub sync_after : Certificate × Bool → M Unit
  sync_after (certificate, false) = pure tt
  sync_after (certificate, true) = elim uc.kong_sync [
    | none ↦ pure tt
    | some (client, notifier) ↦ KongSync.sync_certificate client notifier certificate.id
  ]

  unfoldable pub renew_certificate : ℕ → M Unit
  renew_certificate certificate_id =
      run_operation renew_words obtain_again certificate_id >>= sync_after
