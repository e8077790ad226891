-- ===== src/Acme/Settle.antt =====
-- `settle`, and the operations as a whole: from a passed check to an ended job.
use kong_gateway_cert_lite.Prelude.{ℕ, suc, Bool, true, false, ◌≡◌, refl, arith, eq_ℕ}
use kong_gateway_cert_lite.Domain.{
  Time, Certificate, CertificateStatus, JobStatus, success, Error, error_text,
}
use kong_gateway_cert_lite.World.{World, Database, M, Result, ok, err, pure, proceed}
use kong_gateway_cert_lite.World.Faults.{NoFaults}
use kong_gateway_cert_lite.Text.{Text}
use kong_gateway_cert_lite.Sqlite.Certificates.{set_issued, set_status}
use kong_gateway_cert_lite.Sqlite.Fresh.{IdsBelow}
use kong_gateway_cert_lite.Sqlite.Changes.{mark_issued_lem, update_status_lem}
use kong_gateway_cert_lite.Acme.{AcmeUseCase}
use kong_gateway_cert_lite.Acme.Operations.{
  Wording, Issued, settle, fail, succeed, report, success_input, failure_input,
}
use kong_gateway_cert_lite.Acme.Keeps.{Keeps-report}
use kong_gateway_cert_lite.Notification.Effects.{notify_job_result-ok}
use kong_gateway_cert_lite.Acme.Outcome.{
  Settled, Started, changed_world, completed_world, complete_changed, completed_world-Settled,
  completed_world-calm,
}

-- What an action ends with: the value, no refusals, and an operation settled by `outcome`.
pub record Ends {A : Type 0} (words : Wording) (c : Certificate) (at : Time)
    (outcome : Result Issued) (db : Database) (a : A) (r : Result A × World) : Type 0 where
  pub value : r.0 ≡ ok a
  pub calm : NoFaults r.1
  pub settled : Settled words c at outcome db r.1.db

pub report-ok :
    (uc : AcmeUseCase) (words : Wording) (c : Certificate) (job_id : ℕ) (status : JobStatus)
    (message : Text) (w : World)
    → (report uc words c job_id status message w).0 ≡ ok tt
unfolding report
report-ok uc words c job_id status message w = notify_job_result-ok _ _ w

module _ (uc : AcmeUseCase) (words : Wording) (c : Certificate) (at : Time) (db : Database)
    (below : IdsBelow db.last_job db.jobs) (w : World) (start : Started words c at db w) where
  abbrev last : ℕ
  last = suc db.last_job

  module _ (issued : Issued) where
    abbrev issue_it : Certificate → Certificate
    issue_it = set_issued issued.cert_path issued.key_path issued.expires_at w

    abbrev after_success : World
    after_success =
        completed_world uc words c at db below issue_it (λ x. refl) w start
          (success_input words c last issued) success

    succeed_lem :
        succeed uc words c last issued w ≡ report uc words c last success words.done after_success
    unfolding succeed changed_world
    succeed_lem =
        rw
          (mark_issued_lem c.id issued.cert_path issued.key_path issued.expires_at c w start.calm
            start.found)
          (rw (
            complete_changed uc words c at db below issue_it (λ x. refl) w start
              (success_input words c last issued) success refl refl refl))

    -- `report` adds nothing to the database.
    succeed-Ends : Ends words c at (ok issued) db tt (succeed uc words c last issued w)
    succeed-Ends =
        let kept = (Keeps-report uc words c last success words.done).at after_success in
        rw succeed_lem (record {
          value = report-ok uc words c last success words.done after_success;
          calm = kept.calm (
              completed_world-calm uc words c at db below issue_it (λ x. refl) w start
                (success_input words c last issued) success);
          settled = rw kept.db (
              completed_world-Settled uc words c at db below issue_it (λ x. refl) w start
                (success_input words c last issued) (ok issued) refl refl (refl, refl, refl, refl));
        })

  module _ (cause : Error) where
    abbrev mark_it : Certificate → Certificate
    mark_it = set_status CertificateStatus.failed w

    abbrev after_failure : World
    after_failure =
        completed_world uc words c at db below mark_it (λ x. refl) w start
          (failure_input words last cause) JobStatus.failed

    abbrev reported : World
    reported = (report uc words c last JobStatus.failed (error_text cause) after_failure).1

    fail_lem : fail uc words c last cause w ≡ (ok tt, reported)
    unfolding fail changed_world
    fail_lem = rw (update_status_lem c.id CertificateStatus.failed c w start.calm start.found) (
        rw
          (complete_changed uc words c at db below mark_it (λ x. refl) w start
            (failure_input words last cause) JobStatus.failed refl refl refl)
          (ground
            (arith, report-ok uc words c last JobStatus.failed (error_text cause) after_failure)))

    fail-Ends : Ends words c at (err cause) db tt (fail uc words c last cause w)
    fail-Ends =
        let kept =
          (Keeps-report uc words c last JobStatus.failed (error_text cause)).at after_failure in
        rw fail_lem (record {
          value = refl;
          calm = kept.calm (
              completed_world-calm uc words c at db below mark_it (λ x. refl) w start
                (failure_input words last cause) JobStatus.failed);
          settled = rw kept.db (
              completed_world-Settled uc words c at db below mark_it (λ x. refl) w start
                (failure_input words last cause) (err cause) refl refl (refl, refl, refl, refl));
        })

abbrev pub is_ok : Result Issued → Bool
is_ok (ok issued) = true
is_ok (err e) = false

-- A last step that leaves the world as it is changes the value alone.
pub Ends-proceed :
    {A B : Type 0} (words : Wording) (c : Certificate) (at : Time) (outcome : Result Issued)
    (db : Database) (a : A) (b : B) (f : A → M B) (r : Result A × World)
    → ((v : World) → f a v ≡ (ok b, v))
    → Ends words c at outcome db a r
    → Ends words c at outcome db b (proceed f r)
Ends-proceed words c at outcome db a b f (ok x, v) last h =
    let same : x ≡ a = ground (arith, h.value) in
    rw same (rw (last v) (record { value = refl; calm = h.calm; settled = h.settled }))
Ends-proceed words c at outcome db a b f (err x, v) last h = absurd (ground (arith, h.value))

pub settle-Ends :
    (uc : AcmeUseCase) (words : Wording) (c : Certificate) (at : Time) (db : Database)
    (below : IdsBelow db.last_job db.jobs) (w : World) (start : Started words c at db w)
    (outcome : Result Issued)
    → Ends words c at outcome db (is_ok outcome) (settle uc words c (suc db.last_job) outcome w)
unfolding settle
settle-Ends uc words c at db below w start (ok issued) =
    Ends-proceed words c at (ok issued) db tt true (λ _. pure true) _ (λ v. refl)
      (succeed-Ends uc words c at db below w start issued)
settle-Ends uc words c at db below w start (err cause) =
    Ends-proceed words c at (err cause) db tt false (λ _. pure false) _ (λ v. refl)
      (fail-Ends uc words c at db below w start cause)
