-- ===== src/Acme/Outcome.antt =====
-- How an operation ends: its job and its certificate after `settle`.
use kong_gateway_cert_lite.Prelude.{
  ℕ, suc, [], ◌∷◌, ◌++◌, map, none, some, ◌≡◌, ◌≢◌, refl, ◌∙◌, ap, arith, find_first, ◌==◌, eq_ℕ,
}
use kong_gateway_cert_lite.Text.{Text, trim_space}
use kong_gateway_cert_lite.Domain
use kong_gateway_cert_lite.Domain.{
  Time, Certificate, CertificateStatus, active, JobType, JobStatus, success, Error, error_text,
  job_status_text,
}
use kong_gateway_cert_lite.World.{World, Database, Result, ok, err}
use kong_gateway_cert_lite.World.Faults.{NoFaults}
use kong_gateway_cert_lite.World.Clock.{ticked, ticked-db, ticked-faults}
use kong_gateway_cert_lite.Sqlite.Columns.{to_column}
use kong_gateway_cert_lite.Sqlite.Jobs.{updated}
use kong_gateway_cert_lite.Sqlite.Fresh.{IdsBelow, find_first-fresh, map-updated-fresh}
use kong_gateway_cert_lite.Sqlite.Changes.{changed, find_first-changed_self, find_first-changed_ne}
use kong_gateway_cert_lite.Job
use kong_gateway_cert_lite.Job.{completed, JobCompleteInput}
use kong_gateway_cert_lite.Job.Effects.{complete_lem, completion-text}
use kong_gateway_cert_lite.Acme.{AcmeUseCase}
use kong_gateway_cert_lite.Acme.Operations.{Wording, Issued}

-- The certificate after an operation: issued, or marked failed and otherwise as it was.
abbrev pub Reflects : Result Issued → Certificate → Certificate → Type 0
Reflects (ok issued) c c' =
    (c'.status ≡ active)
    × (c'.cert_path ≡ issued.cert_path)
    × (c'.key_path ≡ issued.key_path)
    × (c'.expires_at ≡ some (to_column issued.expires_at))
Reflects (err e) c c' =
    (c'.status ≡ CertificateStatus.failed)
    × (c'.cert_path ≡ c.cert_path)
    × (c'.key_path ≡ c.key_path)
    × (c'.expires_at ≡ c.expires_at)

-- The status and the message of the job that an operation leaves.
abbrev pub final_status : Result Issued → JobStatus
final_status (ok issued) = success
final_status (err e) = JobStatus.failed

abbrev pub final_message : Wording → Result Issued → Text
final_message words (ok issued) = words.done
final_message words (err e) = error_text e

-- The database after an operation that began with database `db`: one job more, which has ended as
-- the outcome says, the certificate changed as the outcome says, and the rest as it was.
pub record Settled (words : Wording) (c : Certificate) (at : Time) (outcome : Result Issued)
    (db db' : Database) : Type 0 where
  pub job : Domain.Job
  pub certificate : Certificate
  pub jobs : db'.jobs ≡ db.jobs ++ job ∷ []
  pub job_id : job.id ≡ suc db.last_job
  pub job_type : job.type ≡ words.type
  pub job_certificate : job.certificate_id ≡ some c.id
  pub job_status : job.status ≡ final_status outcome
  pub job_message : job.message ≡ trim_space (final_message words outcome)
  pub job_started : job.started_at ≡ at
  pub job_finished : job.finished_at ≢ none
  pub found : find_first (λ x. x.id == c.id) db'.certificates ≡ some certificate
  pub reflects : Reflects outcome c certificate
  pub others :
      (k : ℕ)
      → k ≢ c.id
      → find_first (λ x. x.id == k) db'.certificates ≡ find_first (λ x. x.id == k) db.certificates
  pub links : db'.links ≡ db.links
  pub kong_targets : db'.kong_targets ≡ db.kong_targets

-- The world in which a job has just been started.
pub record Started (words : Wording) (c : Certificate) (at : Time) (db : Database) (w : World)
    : Type 0 where
  pub row : Domain.Job
  pub calm : NoFaults w
  pub jobs : w.db.jobs ≡ db.jobs ++ row ∷ []
  pub row_id : row.id ≡ suc db.last_job
  pub row_type : row.type ≡ words.type
  pub row_started : row.started_at ≡ at
  pub row_certificate : row.certificate_id ≡ some c.id
  pub found : find_first (λ x. x.id == c.id) w.db.certificates ≡ some c
  pub certificates : w.db.certificates ≡ db.certificates
  pub links : w.db.links ≡ db.links
  pub kong_targets : w.db.kong_targets ≡ db.kong_targets

module _ (uc : AcmeUseCase) (words : Wording) (c : Certificate) (at : Time) (db : Database)
    (below : IdsBelow db.last_job db.jobs) where
  -- Completing the job of an operation that was started.
  pub complete_started :
      (input : JobCompleteInput) (s : JobStatus) (row : Domain.Job) (w : World)
      → NoFaults w
      → w.db.jobs ≡ db.jobs ++ row ∷ []
      → row.id ≡ suc db.last_job
      → input.id ≡ suc db.last_job
      → Job.completion s ≡ some s
      → input.status ≡ job_status_text s
      → Job.complete input w ≡ (
        ok tt,
        record (ticked w) {
          db = record w.db {
            jobs = db.jobs ++ updated (completed input row s (ticked w).clock) row ∷ [];
          };
        },
      )
  complete_started input s row w calm jobs row_id id final status =
      let found : find_first (λ x. x.id == input.id) w.db.jobs ≡ some row =
        rw (jobs, id) (find_first-fresh db.last_job db.jobs row below row_id) in
      let done = completed input row s (ticked w).clock in
      let after : map (updated done) w.db.jobs ≡ db.jobs ++ updated done row ∷ [] =
        ap (map (updated done)) jobs
        ∙ map-updated-fresh done db.last_job db.jobs row below row_id in
      let positive : input.id ≢ 0 = rw id (omega arith) in
      ground (
        arith,
        complete_lem input row s w calm positive found (rw status (completion-text s final)),
        ticked-db w,
      )

  -- What the certificate's change and the job's completion make of a started world.
  module _ (f : Certificate → Certificate) (same_id : (x : Certificate) → (f x).id ≡ x.id)
      (w : World) (start : Started words c at db w) where
    unfoldable pub changed_world : World
    changed_world = record w {
      db = record w.db { certificates = map (changed c.id f) w.db.certificates };
    }

    pub completed_world : JobCompleteInput → JobStatus → World
    unfolding changed_world
    completed_world input s = record (ticked changed_world) {
      db = record changed_world.db {
        jobs =
            db.jobs
            ++ updated (completed input start.row s (ticked changed_world).clock) start.row ∷ [];
      };
    }

    pub complete_changed :
        (input : JobCompleteInput) (s : JobStatus)
        → input.id ≡ suc db.last_job
        → Job.completion s ≡ some s
        → input.status ≡ job_status_text s
        → Job.complete input changed_world ≡ (ok tt, completed_world input s)
    unfolding completed_world
    complete_changed input s id final status =
        complete_started input s start.row changed_world start.calm start.jobs start.row_id id final
          status

    pub completed_world-Settled :
        (input : JobCompleteInput) (outcome : Result Issued)
        → input.id ≡ suc db.last_job
        → input.message ≡ final_message words outcome
        → Reflects outcome c (f c)
        → Settled words c at outcome db (completed_world input (final_status outcome)).db
    unfolding completed_world
    completed_world-Settled input outcome id message reflects = record {
      job =
          updated (completed input start.row (final_status outcome) (ticked changed_world).clock)
            start.row;
      certificate = f c;
      jobs = refl;
      job_id = ground (arith, start.row_id);
      job_type = ground (arith, start.row_type);
      job_certificate = ground (arith, start.row_certificate);
      job_status = ground arith;
      job_message = ground arith;
      job_started = ground (arith, start.row_started);
      job_finished = ground arith;
      found = find_first-changed_self c.id f same_id w.db.certificates c start.found;
      reflects = reflects;
      others = λ k ne.
          find_first-changed_ne c.id f same_id k w.db.certificates ne
          ∙ ap (find_first (λ x. x.id == k)) start.certificates;
      links = start.links;
      kong_targets = start.kong_targets;
    }

    pub completed_world-calm :
        (input : JobCompleteInput) (s : JobStatus) → NoFaults (completed_world input s)
    unfolding completed_world
    completed_world-calm input s = ticked-faults changed_world ∙ start.calm
