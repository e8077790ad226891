-- ===== src/Acme/Tests.antt =====
-- Runs of the ACME use case on small data.
use kong_gateway_cert_lite.Prelude.{
  [], ◌∷◌, ◌++◌, false, Option, none, some, ◌≡◌, ◌≢◌, ◌↔◌, inl, refl, arith, All, eq_ℕ,
}
use kong_gateway_cert_lite.Text.{Text, lit, trim_space}
use kong_gateway_cert_lite.Domain.{Error, error_text, blocked, JobStatus, running, Job, Bytes}
use kong_gateway_cert_lite.World.{World, ok, err}
use kong_gateway_cert_lite.World.Clock.{ticked, clock-ticked_still}
use kong_gateway_cert_lite.Samples.{web, world, tables, job_of_web, refusing, today}
use kong_gateway_cert_lite.Acme.{ensure_acme_operation_allowed, X509, PemBlock}
use kong_gateway_cert_lite.Acme.Gate.{Blocks, ensure-passes_iff}
use kong_gateway_cert_lite.Acme.Operations.{
  Issued, issue_words, issue_certificate, settle, fail, obtain,
}
use kong_gateway_cert_lite.Acme.Settle.{is_ok}
use kong_gateway_cert_lite.Acme.Run.{MayStart}
use kong_gateway_cert_lite.Acme.Issue.{issue_outcome, issue-blocked, issue-cools_down}
use kong_gateway_cert_lite.Acme.Stranded.{settle-strands, fail-completes}

web-MayStart : MayStart web world
web-MayStart = record { calm = refl; below = tt; positive = λ e. cc; found = refl; unblocked = tt }

-- The world with one job of `web`.
abbrev busy : JobStatus → World
busy status = record world { db = record tables { jobs = job_of_web status ∷ []; last_job = 1 } }

ensure-passes_iff_example :
    ((ensure_acme_operation_allowed 7 (busy JobStatus.failed)).0 ≡ ok tt)
    ↔ All
        (λ j. ¬ Blocks 7 (ticked (busy JobStatus.failed)).clock j)
        (job_of_web JobStatus.failed ∷ [])
ensure-passes_iff_example = ensure-passes_iff 7 (busy JobStatus.failed) refl (λ e. cc)

issue-blocked_example :
    (reason : Text) × (issue_certificate refusing 7 (busy running)
      ≡ (err (blocked reason), ticked (busy running)))
issue-blocked_example =
    issue-blocked refusing web (busy running) (job_of_web running) refl (λ e. cc) refl (inl refl)
      (refl, inl refl, inl refl)

refusing-refuses : is_ok (issue_outcome refusing web world) ≡ false
unfolding issue_outcome obtain
refusing-refuses = refl

abbrev after_failure : World
after_failure = (issue_certificate refusing 7 world).1

issue-cools_down_example :
    (reason : Text) × (issue_certificate refusing 7 (record world { db = after_failure.db })
      ≡ (err (blocked reason), ticked (record world { db = after_failure.db })))
issue-cools_down_example =
    issue-cools_down refusing web world web-MayStart refusing-refuses
      (record world { db = after_failure.db }) refl refl
      (rw
        (
          clock-ticked_still world refl,
          clock-ticked_still (record world { db = after_failure.db }) refl,
        )
        (omega arith))

abbrev some_issued : Issued
some_issued = record { cert_path = b'c' ∷ []; key_path = b'k' ∷ []; expires_at = today }

-- The next statement of the database is refused.
abbrev refused_once : World
refused_once = record (busy running) { faults = some (b'z' ∷ []) ∷ [] }

abbrev after_refusal : World
after_refusal = record (busy running) {
  db = (settle refusing issue_words web 1 (ok some_issued) refused_once).1.db;
}

settle-strands_example :
    ((settle refusing issue_words web 1 (ok some_issued) refused_once).0
      ≡ err (Error.failed (lit "mark issued certificate" ++ (lit ": " ++ b'z' ∷ []))))
    × ((settle refusing issue_words web 1 (ok some_issued) refused_once).1.db ≡ refused_once.db)
    × ((reason : Text) × (issue_certificate refusing 7 after_refusal
          ≡ (err (blocked reason), ticked after_refusal)))
settle-strands_example =
    settle-strands refusing issue_words web some_issued refused_once (b'z' ∷ []) []
      (job_of_web running) after_refusal refl (inl refl) refl (inl refl) refl (λ e. cc) refl refl
      refl

abbrev cause : Error
cause = Error.failed (b'x' ∷ [])

fail-completes_example :
    ((fail refusing issue_words web 1 cause refused_once).0
      ≡ err (Error.failed (lit "update certificate status" ++ (lit ": " ++ b'z' ∷ []))))
    × ((job : Job) × ((fail refusing issue_words web 1 cause refused_once).1.db.jobs
          ≡ [] ++ job ∷ [])
        × (job.id ≡ 1)
        × (job.status ≡ JobStatus.failed)
        × (job.message ≡ trim_space (error_text cause))
        × (job.finished_at ≢ none))
fail-completes_example =
    fail-completes refusing issue_words web tables (job_of_web running) cause (b'z' ∷ [])
      refused_once tt refl refl refl

-- A decoder that takes each byte for a block of another type.
abbrev one_block : Bytes → Option (PemBlock × Bytes)
one_block [] = none
one_block (c ∷ rest) = some (record { type = []; bytes = c ∷ [] }, rest)

abbrev byte_blocks : X509
byte_blocks = record { decode = one_block; not_after = λ bytes. ok today }
