-- ===== src/Samples.antt =====
-- Small data that the tests of the modules share: a certificate, a Kong target with a link to it,
-- and a world that holds them.
use kong_gateway_cert_lite.Prelude.{◌+◌, ◌*◌, [], ◌∷◌, true, false, none, some}
use kong_gateway_cert_lite.Prelude.Int.{pos}
use kong_gateway_cert_lite.Domain.{
  Time, Certificate, CertificateStatus, CertificateKongTarget, SyncStatus, KongTarget,
  KongTargetStatus, KongTargetAuthType, Job, JobStatus, JobType, Error, day,
}
use kong_gateway_cert_lite.World.{World, Database, err}
use kong_gateway_cert_lite.Notification.{Notifier}
use kong_gateway_cert_lite.Acme.{AcmeUseCase}

abbrev pub today : Time
today = 740000 * day

abbrev pub web : Certificate
web = record {
  id = 7;
  name = b'w' ∷ [];
  primary_domain = b'a' ∷ [];
  domains = (b'a' ∷ []) ∷ (b'b' ∷ []) ∷ [];
  email = b'm' ∷ [];
  snis = (b'a' ∷ []) ∷ [];
  cert_path = b'c' ∷ [];
  key_path = b'k' ∷ [];
  expires_at = some (today + 3 * day);
  auto_renew = true;
  renew_before_days = pos 30;
  status = CertificateStatus.active;
  created_at = 0;
  updated_at = 0;
}

abbrev pub gateway : KongTarget
gateway = record {
  id = 3;
  name = b'g' ∷ [];
  environment = b'p' ∷ [];
  admin_url = b'u' ∷ [];
  auth_type = KongTargetAuthType.none;
  auth_header_name = [];
  auth_header_value = [];
  status = KongTargetStatus.unknown;
  last_checked_at = none;
  created_at = 0;
  updated_at = 0;
}

abbrev pub edge : KongTarget
edge = record gateway { id = 4; name = b'e' ∷ [] }

abbrev pub link : CertificateKongTarget
link = record {
  id = 1;
  certificate_id = 7;
  kong_target_id = 3;
  kong_certificate_id = [];
  sync_status = SyncStatus.not_synced;
  last_synced_at = none;
  last_error = [];
  created_at = 0;
  updated_at = 0;
}

abbrev pub tables : Database
tables = record {
  certificates = web ∷ [];
  kong_targets = gateway ∷ edge ∷ [];
  links = link ∷ [];
  jobs = [];
  last_certificate = 7;
  last_kong_target = 4;
  last_link = 1;
  last_job = 0;
}

abbrev pub world : World
world = record {
  db = tables;
  files = [];
  clock = today;
  ticks = [];
  faults = [];
  calls = 0;
  sent = [];
}

-- A job of `web` that has the given status.
abbrev pub job_of_web : JobStatus → Job
job_of_web status = record {
  id = 1;
  certificate_id = some 7;
  kong_target_id = none;
  type = JobType.issue;
  status = status;
  message = [];
  log = [];
  started_at = today;
  finished_at = none;
  created_at = today;
}

abbrev pub silent : Notifier
silent = record { configured = false; notify_success = false }

-- A use case whose certificate authority refuses everything.
abbrev pub refusing : AcmeUseCase
refusing = record {
  client = record {
    issue = λ n request. err (Error.failed (b'x' ∷ []));
    renew = λ n request. err (Error.failed (b'x' ∷ []));
  };
  x509 = record { decode = λ text. none; not_after = λ bytes. err (Error.failed (b'y' ∷ [])) };
  cert_dir = b'd' ∷ [];
  kong_sync = none;
  notifier = silent;
}
