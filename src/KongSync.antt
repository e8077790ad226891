-- ===== src/KongSync.antt =====
-- internal/usecase/kong_sync.go
pub mod Push
pub mod Synced
mod Tests
use kong_gateway_cert_lite.Prelude.{
  ℕ, suc, List, [], ◌∷◌, ◌++◌, Option, none, some, if◌then◌else◌, ◌==◌, eq_ℕ, contains, is_empty,
  find_first, any_row,
}
use kong_gateway_cert_lite.Text.{Text, lit, trim_space}
use kong_gateway_cert_lite.Domain.{
  Time, Bytes, Certificate, CertificateKongTarget, synced, KongTarget, JobStatus, success, sync,
  job_type_text, job_status_text, Error, not_found, error_text, is_not_found, is_status,
}
use kong_gateway_cert_lite.Domain
use kong_gateway_cert_lite.World.{
  M, Result, ok, err, pure, raise, ◌>>=◌, ◌>>◌, attempt, or_not_found, time_now,
  NotificationSeverity, NotificationEvent, critical,
}
use kong_gateway_cert_lite.Sqlite.Certificates
use kong_gateway_cert_lite.Sqlite.KongTargets
use kong_gateway_cert_lite.Sqlite.Links
use kong_gateway_cert_lite.Files.{read_certificate_files}
use kong_gateway_cert_lite.Notification.{Notifier, notify_job_result}
use kong_gateway_cert_lite.Job
use kong_gateway_cert_lite.Job.{JobInput, JobCompleteInput}

-- What `SyncCertificate` of the client gives back: an id, a detail for the log, an error or nil.
pub record SyncReply : Type 0 where
  pub kong_certificate_id : Text
  pub detail : Text
  pub error : Option Error

-- `KongCertificateSyncClient`; its answer to the n-th call that the program makes is free.
pub record KongCertificateSyncClient : Type 0 where
  pub sync_certificate : ℕ → KongTarget → Text → Bytes → Bytes → List Text → List Text → SyncReply

-- One call of a client: what it answers is a function of how many calls were made before.
abbrev pub ask : {A : Type 0} → (ℕ → A) → M A
ask f w = (ok (f w.calls), record w { calls = suc w.calls })

unfoldable pub kong_certificate_tags : Certificate → List Text
kong_certificate_tags certificate =
    lit "cert-lite"
    ∷ (if any_row (λ sni. contains (trim_space sni) b'*') certificate.snis
        then lit "wildcard"
        else lit "non-wildcard")
    ∷ []

-- What one attempt leaves: the mapping to store, and the job's last status, message and log.
pub record SyncOutcome : Type 0 where
  pub mapping : CertificateKongTarget
  pub status : JobStatus
  pub message : Text
  pub log : Text

unfoldable pub unreadable : CertificateKongTarget → Error → SyncOutcome
unreadable mapping e = record {
  mapping = record mapping { sync_status = Domain.SyncStatus.failed; last_error = error_text e };
  status = JobStatus.failed;
  message = lit "Certificate sync failed: " ++ error_text e;
  log = lit "Unable to read certificate files for sync\n" ++ error_text e;
}

abbrev sync_log : KongTarget → SyncReply → Text
sync_log target reply =
    trim_space (lit "Syncing certificate to " ++ (target.admin_url ++ (lit "\n" ++ reply.detail)))

unfoldable pub refused : KongTarget → CertificateKongTarget → SyncReply → Error → SyncOutcome
refused target mapping reply e = record {
  mapping = record mapping { sync_status = Domain.SyncStatus.failed; last_error = error_text e };
  status = JobStatus.failed;
  message = lit "Certificate sync failed: " ++ error_text e;
  log = trim_space (sync_log target reply ++ (lit "\n" ++ error_text e));
}

unfoldable pub accepted : KongTarget → CertificateKongTarget → SyncReply → Time → SyncOutcome
accepted target mapping reply now = record {
  mapping = record mapping {
    kong_certificate_id = reply.kong_certificate_id;
    sync_status = synced;
    last_synced_at = some now;
    last_error = [];
  };
  status = success;
  message =
      lit "Certificate synced to Kong target with Kong certificate id "
      ++ reply.kong_certificate_id;
  log =
      trim_space
        (sync_log target reply ++ (lit "\nKong certificate id: " ++ reply.kong_certificate_id));
}

abbrev pub sync_severity : JobStatus → NotificationSeverity
sync_severity JobStatus.failed = critical
sync_severity _ = NotificationSeverity.success

abbrev pub sync_event : JobStatus → Text
sync_event JobStatus.failed = lit "sync_failed"
sync_event _ = lit "sync_succeeded"

abbrev pub sync_job : Certificate → KongTarget → JobInput
sync_job certificate target = record {
  certificate_id = some certificate.id;
  kong_target_id = some target.id;
  type = job_type_text sync;
  status = [];
  message = lit "Syncing certificate to Kong target";
  log = lit "Starting certificate sync for " ++ target.name;
}

abbrev pub sync_end : ℕ → SyncOutcome → JobCompleteInput
sync_end job_id outcome = record {
  id = job_id;
  status = job_status_text outcome.status;
  message = outcome.message;
  log = outcome.log;
}

abbrev pub sync_notice : Certificate → KongTarget → ℕ → SyncOutcome → NotificationEvent
sync_notice certificate target job_id outcome = record {
  severity = sync_severity outcome.status;
  event = sync_event outcome.status;
  certificate = some certificate;
  kong_target = target.name;
  environment = target.environment;
  job_id = job_id;
  job_type = some sync;
  job_status = some outcome.status;
  message = outcome.message;
  remaining_days = none;
  occurred_at = 0;
}

module _ (client : KongCertificateSyncClient) (notifier : Notifier) where
  unfoldable pub push_certificate :
      Certificate → KongTarget → CertificateKongTarget → Result (Bytes × Bytes) → M SyncOutcome
  push_certificate certificate target mapping (err e) = pure (unreadable mapping e)
  push_certificate certificate target mapping (ok (cert, key)) = do
    reply ← ask (λ n.
        client.sync_certificate n target mapping.kong_certificate_id cert key certificate.snis
          (kong_certificate_tags certificate))
    elim reply.error [
      | some e ↦ pure (refused target mapping reply e)
      | none ↦ do now ← time_now; pure (accepted target mapping reply now)
    ]

  unfoldable pub report_sync : Certificate → KongTarget → ℕ → SyncOutcome → M Unit
  report_sync certificate target job_id outcome =
      notify_job_result notifier (sync_notice certificate target job_id outcome)

  unfoldable pub sync_target :
      Certificate → KongTarget → CertificateKongTarget → Result (Bytes × Bytes) → M Unit
  sync_target certificate target mapping files = do
    job_id ← Job.create (sync_job certificate target)
    outcome ← push_certificate certificate target mapping files
    Links.upsert_sync_target outcome.mapping
    Job.complete (sync_end job_id outcome)
    report_sync certificate target job_id outcome

  unfoldable pub sync_inputs : ℕ → M (Certificate × List CertificateKongTarget)
  sync_inputs certificate_id = do
    certificate ← or_not_found (Certificates.get certificate_id)
    linked ← Links.list_sync_targets certificate_id
    pure (certificate, linked)

  -- One round of the loop: a link to a target that is gone is passed over.
  unfoldable pub sync_link : Certificate → Result (Bytes × Bytes) → CertificateKongTarget → M Unit
  sync_link certificate files mapping = do
    target ← attempt (KongTargets.get mapping.kong_target_id)
    elim target [
      | ok t ↦ sync_target certificate t mapping files
      | err e ↦ if is_not_found e then pure tt else raise e
    ]

  unfoldable pub sync_links :
      Certificate → Result (Bytes × Bytes) → List CertificateKongTarget → M Unit
  sync_links certificate files [] = pure tt
  sync_links certificate files (mapping ∷ rest) =
      sync_link certificate files mapping >>= λ _. sync_links certificate files rest

  unfoldable pub sync_certificate : ℕ → M Unit
  sync_certificate certificate_id = do
    inputs ← sync_inputs certificate_id
    let linked = inputs.1
    let certificate = inputs.0
    if is_empty linked then pure tt else do
      files ← attempt (read_certificate_files [] certificate.cert_path certificate.key_path)
      sync_links certificate files linked

  unfoldable pub sync_certificate_target : ℕ → ℕ → M Unit
  sync_certificate_target certificate_id kong_target_id = do
    inputs ← sync_inputs certificate_id
    elim (find_first (λ m. m.kong_target_id == kong_target_id) inputs.1) [
      | none ↦ raise not_found
      | some mapping ↦ do
        target ← or_not_found (KongTargets.get mapping.kong_target_id)
        files ← attempt (read_certificate_files [] inputs.0.cert_path inputs.0.key_path)
        sync_target inputs.0 target mapping files
    ]
