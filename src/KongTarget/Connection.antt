-- ===== src/KongTarget/Connection.antt =====
-- How a test of a connection ends: its job and its target.
use kong_gateway_cert_lite.Prelude.{
  ℕ, suc, [], ◌∷◌, ◌++◌, map, true, false, none, some, ◌≡◌, ◌≢◌, any_row, find_first, ◌==◌, eq_ℕ,
  eq_List,
}
use kong_gateway_cert_lite.Text.{lit, trim_space}
use kong_gateway_cert_lite.Domain
use kong_gateway_cert_lite.Domain.{
  Time, KongTarget, JobStatus, success, test_kong, job_type_text, job_status_text,
}
use kong_gateway_cert_lite.World.{World, Database}
use kong_gateway_cert_lite.World.Faults.{NoFaults}
use kong_gateway_cert_lite.World.Clock.{ticked}
use kong_gateway_cert_lite.Sqlite.KongTargets
use kong_gateway_cert_lite.Sqlite.Fresh.{IdsBelow}
use kong_gateway_cert_lite.Sqlite.Jobs.{updated}
use kong_gateway_cert_lite.Notification.{Notifier}
use kong_gateway_cert_lite.Job
use kong_gateway_cert_lite.Job.{JobInput, JobCompleteInput, completed}
use kong_gateway_cert_lite.Job.Effects.{row_of}
use kong_gateway_cert_lite.KongTarget.{KongAdminClient, CheckOutcome, check_outcome}

-- The database after a test of target `t` with outcome `outcome`.
pub record Tested (t : KongTarget) (outcome : CheckOutcome) (db db' : Database) : Type 0 where
  pub job : Domain.Job
  pub target : KongTarget
  pub jobs : db'.jobs ≡ db.jobs ++ job ∷ []
  pub job_id : job.id ≡ suc db.last_job
  pub job_type : job.type ≡ test_kong
  pub job_target : job.kong_target_id ≡ some t.id
  pub job_status : job.status ≡ outcome.status
  pub job_message : job.message ≡ trim_space outcome.message
  pub job_finished : job.finished_at ≢ none
  pub found : find_first (λ x. x.id == t.id) db'.kong_targets ≡ some target
  pub status : target.status ≡ outcome.target_status
  pub secret : target.auth_header_value ≡ t.auth_header_value
  pub checked : target.last_checked_at ≢ none
  pub certificates : db'.certificates ≡ db.certificates
  pub links : db'.links ≡ db.links

-- What a test of `t` needs in order to run through: a row that the table's checks let stand.
pub record MayTest (t : KongTarget) (w : World) : Type 0 where
  pub calm : NoFaults w
  pub below : IdsBelow w.db.last_job w.db.jobs
  pub positive : t.id ≢ 0
  pub found : find_first (λ x. x.id == t.id) w.db.kong_targets ≡ some t
  pub known : KongTargets.known_auth_type t.auth_type ≡ true
  pub unique : any_row (KongTargets.taken t) w.db.kong_targets ≡ false

abbrev start_input : KongTarget → JobInput
start_input t = record {
  certificate_id = none;
  kong_target_id = some t.id;
  type = job_type_text test_kong;
  status = [];
  message = lit "Testing Kong Admin API connectivity";
  log = lit "Starting Kong Admin API connectivity test for " ++ t.admin_url;
}

abbrev end_input : ℕ → CheckOutcome → JobCompleteInput
end_input job_id outcome = record {
  id = job_id;
  status = job_status_text outcome.status;
  message = outcome.message;
  log = outcome.log;
}

module _ (tester : KongAdminClient) (notifier : Notifier) (t : KongTarget) (w : World)
    (may : MayTest t w) where
  -- The world after the job's creation, after the client's call, after the readings of the clock.
  abbrev created : World
  created = record w {
    db = record w.db {
      jobs = w.db.jobs ++ row_of (start_input t) w ∷ [];
      last_job = suc w.db.last_job;
    };
  }

  abbrev called : World
  called = record created { calls = suc w.calls }

  abbrev outcome : CheckOutcome
  outcome = check_outcome t (tester.check_connection w.calls t)

  abbrev checked_target : KongTarget
  checked_target = record t {
    status = outcome.target_status;
    last_checked_at = some (ticked called).clock;
  }

  abbrev stored_world : World
  stored_world = record (ticked called) {
    db = record called.db {
      kong_targets = map (KongTargets.updated checked_target (ticked called)) w.db.kong_targets;
    };
  }

  abbrev ending : Domain.Job
  ending =
      updated
        (completed (end_input (suc w.db.last_job) outcome) (row_of (start_input t) w) outcome.status
          (ticked stored_world).clock)
        (row_of (start_input t) w)

  abbrev ended_world : World
  ended_world = record (ticked stored_world) {
    db = record stored_world.db { jobs = w.db.jobs ++ ending ∷ [] };
  }
