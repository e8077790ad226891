-- ===== src/Acme/Issue.antt =====
-- The theorems on `IssueCertificate` and `RenewCertificate`.
use kong_gateway_cert_lite.Prelude.{
  ℕ, ◌+◌, ◌≤◌, List, [], ◌∷◌, ◌++◌, true, false, Bool, none, some, ◌≡◌, ◌≢◌, ◌⊎◌, inl, inr, refl,
  sym, ◌∙◌, ap, arith, In, find_first, find_first-some, ==_iff, subst, ◌-◌, ◌==◌, eq_ℕ,
}
use kong_gateway_cert_lite.Text.{Text}
use kong_gateway_cert_lite.Domain
use kong_gateway_cert_lite.Domain.{
  Time, Certificate, blocked, JobStatus, issue, renew, running, second,
}
use kong_gateway_cert_lite.World.{World, Database, Result, ok, err, pure, statement}
use kong_gateway_cert_lite.World.Faults.{NoFaults}
use kong_gateway_cert_lite.World.Clock.{ticked}
use kong_gateway_cert_lite.Sqlite.Certificates
use kong_gateway_cert_lite.Sqlite.Columns.{to_column}
use kong_gateway_cert_lite.Acme.{AcmeUseCase, acme_retry_cooldown}
use kong_gateway_cert_lite.Acme.Gate.{Blocks, ensure-refuses}
use kong_gateway_cert_lite.Acme.Operations.{
  Issued, issue_words, renew_words, obtain, obtain_again, run_operation, issue_certificate,
  renew_certificate, sync_after,
}
use kong_gateway_cert_lite.Acme.Keeps.{Keeps-obtain, Keeps-obtain_again}
use kong_gateway_cert_lite.Acme.Outcome.{final_status}
use kong_gateway_cert_lite.Acme.Settle.{Ends, Ends-proceed, is_ok}
use kong_gateway_cert_lite.Acme.Run.{MayStart, started, run_operation-Ends}

-- What the client's part of an issue comes to.
unfoldable pub issue_outcome : AcmeUseCase → Certificate → World → Result Issued
issue_outcome uc c w = (obtain uc c (started uc issue_words c w)).0

unfoldable pub renew_outcome : AcmeUseCase → Certificate → World → Result Issued
renew_outcome uc c w = (obtain_again uc c (started uc renew_words c w)).0

pub issue-settles :
    (uc : AcmeUseCase) (c : Certificate) (w : World)
    → MayStart c w
    → Ends issue_words c
        (to_column (ticked w).clock)
        (issue_outcome uc c w)
        w.db
        tt
        (issue_certificate uc c.id w)
unfolding issue_certificate issue_outcome
issue-settles uc c w may =
    Ends-proceed issue_words c (to_column (ticked w).clock) _ w.db _ tt (λ _. pure tt) _ (λ v. refl)
      (run_operation-Ends uc issue_words c w refl may (obtain uc) (Keeps-obtain uc c))

sync_after-alone :
    (uc : AcmeUseCase) (c : Certificate) (done : Bool)
    → (done ≡ false) ⊎ (uc.kong_sync ≡ none)
    → (v : World) → sync_after uc (c, done) v ≡ (ok tt, v)
unfolding sync_after
sync_after-alone uc c true alone v = ground arith
sync_after-alone uc c false alone v = refl

pub renew-settles :
    (uc : AcmeUseCase) (c : Certificate) (w : World)
    → MayStart c w
    → (is_ok (renew_outcome uc c w) ≡ false) ⊎ (uc.kong_sync ≡ none)
    → Ends renew_words c
        (to_column (ticked w).clock)
        (renew_outcome uc c w)
        w.db
        tt
        (renew_certificate uc c.id w)
unfolding renew_certificate renew_outcome
renew-settles uc c w may alone =
    Ends-proceed renew_words c (to_column (ticked w).clock) _ w.db _ tt (sync_after uc) _
      (sync_after-alone uc c (is_ok (renew_outcome uc c w)) alone)
      (run_operation-Ends uc renew_words c w refl may (obtain_again uc) (Keeps-obtain_again uc c))

-- With nothing refused by the system, a job that stands in the way of certificate `c`, which is in
-- the table and whose id is not 0, stops an issue before anything is done: it returns a blocked
-- error and only the clock has moved, so that no job is added and the certificate authority is not
-- called.
pub issue-blocked :
    (uc : AcmeUseCase) (c : Certificate) (w : World) (j : Domain.Job)
    → NoFaults w
    → c.id ≢ 0
    → find_first (λ x. x.id == c.id) w.db.certificates ≡ some c
    → In j w.db.jobs
    → Blocks c.id (ticked w).clock j
    → (reason : Text) × (issue_certificate uc c.id w ≡ (err (blocked reason), ticked w))
unfolding issue_certificate run_operation Certificates.get statement
issue-blocked uc c w j calm pos found listed blocks =
    let (reason, refused) = ensure-refuses c.id w calm pos j listed blocks in
    (reason, ground (arith, refused))

final_status_of_err :
    (outcome : Result Issued) → is_ok outcome ≡ false → final_status outcome ≡ JobStatus.failed
final_status_of_err (ok issued) h = cc
final_status_of_err (err e) h = refl

cooldown_covers :
    (now start : Time)
    → now ≤ start + acme_retry_cooldown
    → to_column (now - acme_retry_cooldown) ≤ start
cooldown_covers now start h = omega arith

In-last : (js : List Domain.Job) (j : Domain.Job) → In j (js ++ j ∷ [])
In-last [] j = inl refl
In-last (x ∷ js) j = inr (In-last js j)

-- After an issue that could start and failed, an issue of the same certificate that starts from
-- the database so left, with nothing refused by the system, and whose check is made within the
-- cooldown after the failed job's start, is refused, and nothing is done.
pub issue-cools_down :
    (uc : AcmeUseCase) (c : Certificate) (w : World)
    → MayStart c w
    → is_ok (issue_outcome uc c w) ≡ false
    → (v : World) → NoFaults v
    → v.db ≡ (issue_certificate uc c.id w).1.db
    → (ticked v).clock ≤ to_column (ticked w).clock + acme_retry_cooldown
    → (reason : Text) × (issue_certificate uc c.id v ≡ (err (blocked reason), ticked v))
issue-cools_down uc c w may failed v calm same soon =
    let ended = (issue-settles uc c w may).settled in
    let found : find_first (λ x. x.id == c.id) v.db.certificates ≡ some ended.certificate =
      ap (λ (d : Database). find_first (λ x. x.id == c.id) d.certificates) same ∙ ended.found in
    let (hit, _, _) =
      find_first-some (λ x. x.id == c.id) v.db.certificates ended.certificate found in
    let same_id : ended.certificate.id ≡ c.id = (==_iff ended.certificate.id c.id).0 hit in
    let listed : In ended.job v.db.jobs =
      subst (In ended.job) (sym (ap (λ (d : Database). d.jobs) same ∙ ended.jobs))
        (In-last w.db.jobs ended.job) in
    let status : ended.job.status ≡ JobStatus.failed =
      ended.job_status ∙ final_status_of_err (issue_outcome uc c w) failed in
    let blocks : Blocks c.id (ticked v).clock ended.job = (
      ended.job_certificate,
      inl ended.job_type,
      inr (status, rw ended.job_started (cooldown_covers _ _ soon)),
    ) in
    subst
      (λ (k : ℕ). (reason : Text) × (issue_certificate uc k v ≡ (err (blocked reason), ticked v)))
      same_id
      (issue-blocked uc ended.certificate v ended.job calm (rw same_id may.positive)
        (rw same_id found) listed (rw same_id blocks))
