-- ===== src/Acme/Run.antt =====
-- An operation as a whole, with nothing refused by the system: from the check to the ended job.
use kong_gateway_cert_lite.Prelude.{
  suc, [], ◌∷◌, ◌++◌, Bool, true, some, ◌≡◌, ◌≢◌, refl, sym, ◌∙◌, ap, subst, arith, All, find_first,
  find_first-some, ◌==◌, eq_ℕ,
}
use kong_gateway_cert_lite.Domain.{Certificate}
use kong_gateway_cert_lite.World.{
  World, Database, M, Result, ok, pure, proceed, or_not_found, statement,
}
use kong_gateway_cert_lite.World.Faults.{NoFaults}
use kong_gateway_cert_lite.World.Clock.{ticked, ticked-db, ticked-faults}
use kong_gateway_cert_lite.World.Keeps.{Keeps}
use kong_gateway_cert_lite.Sqlite.Certificates
use kong_gateway_cert_lite.Sqlite.Columns.{refers, to_column}
use kong_gateway_cert_lite.Sqlite.Fresh.{IdsBelow}
use kong_gateway_cert_lite.Job.{is_valid_type}
use kong_gateway_cert_lite.Job.Effects.{create_lem, row_of, row_of-fields, row_of-started}
use kong_gateway_cert_lite.Acme.{AcmeUseCase}
use kong_gateway_cert_lite.Acme.Gate.{Blocks, ensure-eq-ok}
use kong_gateway_cert_lite.Acme.Operations.{
  Wording, Issued, settle, start_job, start_input, run_operation,
}
use kong_gateway_cert_lite.Acme.Outcome.{Started}
use kong_gateway_cert_lite.Acme.Settle.{Ends, Ends-proceed, is_ok, settle-Ends}

-- What an operation on certificate `c` needs in order to start.
pub record MayStart (c : Certificate) (w : World) : Type 0 where
  pub calm : NoFaults w
  pub below : IdsBelow w.db.last_job w.db.jobs
  pub positive : c.id ≢ 0
  pub found : find_first (λ x. x.id == c.id) w.db.certificates ≡ some c
  pub unblocked : All (λ j. ¬ Blocks c.id (ticked w).clock j) w.db.jobs

-- The world in which the operation's job has just been created.
unfoldable pub started : AcmeUseCase → Wording → Certificate → World → World
started uc words c w = record (ticked w) {
  db = record w.db {
    jobs = w.db.jobs ++ row_of (start_input words c) (ticked w) ∷ [];
    last_job = suc w.db.last_job;
  };
}

module _ (uc : AcmeUseCase) (words : Wording) (c : Certificate) (w : World)
    (valid : is_valid_type words.type ≡ true) (may : MayStart c w) where
  start_job_lem : start_job uc words c (ticked w) ≡ (ok (suc w.db.last_job), started uc words c w)
  unfolding start_job started
  start_job_lem =
      let (_, present, _) = find_first-some (λ x. x.id == c.id) w.db.certificates c may.found in
      ground (
        arith,
        ticked-db w,
        create_lem (start_input words c) words.type (ticked w) (ticked-faults w ∙ may.calm) refl
            valid refl
            (subst (λ d. refers (λ (x : Certificate). x.id) d.certificates (some c.id) ≡ true)
              (sym (ticked-db w)) present)
            refl,
      )

  module _ (work : Certificate → M Issued) (kept : Keeps (work c)) where
    -- What the client's part of the operation comes to, and the world after it.
    abbrev outcome : Result Issued
    outcome = (work c (started uc words c w)).0

    abbrev worked : World
    worked = (work c (started uc words c w)).1

    worked-Started : Started words c (to_column (ticked w).clock) w.db worked
    unfolding started
    worked-Started =
        let same = kept.at (started uc words c w) in
        let (row_id, row_type, row_certificate) =
          row_of-fields (start_input words c) words.type (ticked w) refl valid in
        record {
          row = row_of (start_input words c) (ticked w);
          calm = same.calm (ticked-faults w ∙ may.calm);
          jobs = ap (λ (d : Database). d.jobs) same.db;
          row_id = row_id ∙ ap (λ (d : Database). suc d.last_job) (ticked-db w);
          row_type = row_type;
          row_started = row_of-started (start_input words c) (ticked w);
          row_certificate = row_certificate;
          found =
              ap (λ (d : Database). find_first (λ x. x.id == c.id) d.certificates) same.db
              ∙ may.found;
          certificates = ap (λ (d : Database). d.certificates) same.db;
          links = ap (λ (d : Database). d.links) same.db;
          kong_targets = ap (λ (d : Database). d.kong_targets) same.db;
        }

    found_lem : or_not_found (Certificates.get c.id) w ≡ (ok c, w)
    unfolding Certificates.get statement
    found_lem = ground (arith, may.calm, may.found)

    abbrev settled : Result Bool × World
    settled = settle uc words c (suc w.db.last_job) outcome worked

    run_operation_lem :
        run_operation uc words work c.id w ≡ proceed (λ done. pure (c, done)) settled
    unfolding run_operation
    run_operation_lem =
        rw found_lem
          (rw (ensure-eq-ok c.id w may.calm may.positive may.unblocked) (rw start_job_lem refl))

    -- The operation ends as its outcome says.
    pub run_operation-Ends :
        Ends words c
          (to_column (ticked w).clock)
          outcome
          w.db
          (c, is_ok outcome)
          (run_operation uc words work c.id w)
    run_operation-Ends = rw run_operation_lem (
        Ends-proceed words c (to_column (ticked w).clock) outcome w.db (is_ok outcome)
          (c, is_ok outcome) (λ done. pure (c, done)) settled (λ v. refl)
          (settle-Ends uc words c (to_column (ticked w).clock) w.db may.below worked worked-Started
            outcome))
