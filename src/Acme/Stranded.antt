-- ===== src/Acme/Stranded.antt =====
-- What refusals by the database do to an operation's job: where it still ends, and where it is left
-- running.
use kong_gateway_cert_lite.Prelude.{
  suc, List, [], ◌∷◌, ◌++◌, Option, none, some, ◌≡◌, ◌≢◌, ◌⊎◌, inl, refl, sym, ◌∙◌, ap, arith, In,
  find_first, ◌==◌, eq_ℕ, subst,
}
use kong_gateway_cert_lite.Text.{Text, lit, trim_space}
use kong_gateway_cert_lite.Domain
use kong_gateway_cert_lite.Domain.{
  Time, Certificate, CertificateStatus, blocked, Error, error_text, JobStatus, JobType, issue,
  renew, running,
}
use kong_gateway_cert_lite.World.{World, Database, ok, err, statement}
use kong_gateway_cert_lite.World.Faults.{NoFaults}
use kong_gateway_cert_lite.World.Clock.{ticked}
use kong_gateway_cert_lite.Sqlite.Certificates
use kong_gateway_cert_lite.Sqlite.Fresh.{IdsBelow}
use kong_gateway_cert_lite.Sqlite.Jobs.{updated}
use kong_gateway_cert_lite.Job.{completed}
use kong_gateway_cert_lite.Acme.{AcmeUseCase}
use kong_gateway_cert_lite.Acme.Operations.{
  Wording, Issued, settle, succeed, fail, report, failure_input, issue_certificate,
}
use kong_gateway_cert_lite.Acme.Keeps.{Keeps-report}
use kong_gateway_cert_lite.Acme.Outcome.{complete_started}
use kong_gateway_cert_lite.Acme.Issue.{issue-blocked}
use kong_gateway_cert_lite.Acme.Settle.{report-ok}

-- Where the certificate was obtained but the statement that marks it as issued is refused,
-- `settle` returns that error and leaves the database as it was. An issue or renewal job of the
-- certificate that was running there runs on, and so a later issue from that database, with
-- nothing refused by the system, is refused at any time; for a certificate in the table whose id
-- is not 0.
pub settle-strands :
    (uc : AcmeUseCase) (words : Wording) (c : Certificate) (issued : Issued) (w : World)
    (refusal : Text) (fs : List (Option Text)) (job : Domain.Job) (v : World)
    → w.faults ≡ some refusal ∷ fs
    → In job w.db.jobs
    → job.status ≡ running
    → (job.type ≡ issue) ⊎ (job.type ≡ renew)
    → job.certificate_id ≡ some c.id
    → c.id ≢ 0
    → find_first (λ x. x.id == c.id) w.db.certificates ≡ some c
    → NoFaults v
    → v.db ≡ (settle uc words c job.id (ok issued) w).1.db
    → ((settle uc words c job.id (ok issued) w).0
        ≡ err (Error.failed (lit "mark issued certificate" ++ (lit ": " ++ refusal))))
      × ((settle uc words c job.id (ok issued) w).1.db ≡ w.db)
      × ((reason : Text) × (issue_certificate uc c.id v ≡ (err (blocked reason), ticked v)))
unfolding settle succeed Certificates.mark_issued Certificates.change statement
settle-strands uc words c issued w refusal fs job v refused listed runs kind of pos found calm
      same =
    let kept : v.db ≡ w.db = same ∙ ground arith in
    (
      ground arith,
      ground arith,
      issue-blocked uc c v job calm pos
          (ap (λ (d : Database). find_first (λ x. x.id == c.id) d.certificates) kept ∙ found)
          (subst (In job) (sym (ap (λ (d : Database). d.jobs) kept)) listed) (of, kind, inl runs),
    )

-- The world once the refusal has been given.
abbrev calmed : World → World
calmed w = record w { faults = [] }

update_status_refused :
    (c : Certificate) (refusal : Text) (w : World)
    → w.faults ≡ some refusal ∷ []
    → Certificates.update_status c.id CertificateStatus.failed w
      ≡ (err (Error.failed (lit "update certificate status" ++ (lit ": " ++ refusal))), calmed w)
unfolding Certificates.update_status Certificates.change statement
update_status_refused c refusal w refused = ground arith

module _ (uc : AcmeUseCase) (words : Wording) (c : Certificate) (db : Database) (row : Domain.Job)
    (cause : Error) (refusal : Text) (w : World) (below : IdsBelow db.last_job db.jobs)
    (refused : w.faults ≡ some refusal ∷ []) (jobs : w.db.jobs ≡ db.jobs ++ row ∷ [])
    (row_id : row.id ≡ suc db.last_job) where
  abbrev closing : Domain.Job
  closing =
      updated
        (completed (failure_input words row.id cause) row JobStatus.failed
          (ticked (calmed w)).clock)
        row

  abbrev closed : World
  closed = record (ticked (calmed w)) { db = record w.db { jobs = db.jobs ++ closing ∷ [] } }

  fail_refused :
      (fail uc words c row.id cause w ≡ (
        err (Error.failed (lit "update certificate status" ++ (lit ": " ++ refusal))),
        (report uc words c row.id JobStatus.failed (error_text cause) closed).1,
      ))
      × ((report uc words c row.id JobStatus.failed (error_text cause) closed).1.db.jobs
          ≡ db.jobs ++ closing ∷ [])
  unfolding fail
  fail_refused = (
    rw (update_status_refused c refusal w refused) (
        rw
          (complete_started uc words c 0 db below (failure_input words row.id cause)
            JobStatus.failed row (calmed w) refl jobs row_id row_id refl refl)
          (ground (arith, report-ok uc words c row.id JobStatus.failed (error_text cause) closed))),
    ap (λ (d : Database). d.jobs)
        ((Keeps-report uc words c row.id JobStatus.failed (error_text cause)).at closed).db,
  )

-- A failed operation, whose job is the last of the table and has the next id, completes this job
-- also where the statement that marks the certificate is refused, and no other: the job has ended
-- as failed with the cause as its message, and the refusal is returned.
pub fail-completes :
    (uc : AcmeUseCase) (words : Wording) (c : Certificate) (db : Database) (row : Domain.Job)
    (cause : Error) (refusal : Text) (w : World)
    → IdsBelow db.last_job db.jobs
    → w.faults ≡ some refusal ∷ []
    → w.db.jobs ≡ db.jobs ++ row ∷ []
    → row.id ≡ suc db.last_job
    → ((fail uc words c row.id cause w).0
        ≡ err (Error.failed (lit "update certificate status" ++ (lit ": " ++ refusal))))
      × ((job : Domain.Job) × ((fail uc words c row.id cause w).1.db.jobs ≡ db.jobs ++ job ∷ [])
          × (job.id ≡ row.id)
          × (job.status ≡ JobStatus.failed)
          × (job.message ≡ trim_space (error_text cause))
          × (job.finished_at ≢ none))
fail-completes uc words c db row cause refusal w below refused jobs row_id =
    let (equation, kept) =
      fail_refused uc words c db row cause refusal w below refused jobs row_id in
    let end =
      completed (failure_input words row.id cause) row JobStatus.failed (ticked (calmed w)).clock in
    rw equation
      (refl, (updated end row, kept, ground arith, ground arith, ground arith, ground arith))
