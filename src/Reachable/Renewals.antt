-- ===== src/Reachable/Renewals.antt =====
-- internal/usecase/acme.go, scheduler.go: issuing, renewing and a round of the scheduler keep the
-- keys of the tables in order.
use kong_gateway_cert_lite.Prelude.{
  ℕ, List, [], ◌∷◌, Bool, true, false, inl, inr, Option-cases, Bool-cases, contains, eq_List, eq_ℕ,
}
use kong_gateway_cert_lite.Text.{Text}
use kong_gateway_cert_lite.Domain.{Time, Certificate, JobStatus, Error}
use kong_gateway_cert_lite.World.{M, NotificationEvent, Result, ok, err}
use kong_gateway_cert_lite.World.Preserves.{Preserves-pure, Preserves-bind}
use kong_gateway_cert_lite.Notification.{notify, certificate_expiry_notification}
use kong_gateway_cert_lite.Job
use kong_gateway_cert_lite.Acme
use kong_gateway_cert_lite.Acme.{AcmeUseCase}
use kong_gateway_cert_lite.Acme.Operations
use kong_gateway_cert_lite.Acme.Operations.{Wording, Issued, issue_words, renew_words}
use kong_gateway_cert_lite.Acme.Keeps.{Keeps-obtain, Keeps-obtain_again, Keeps-report}
use kong_gateway_cert_lite.Scheduler
use kong_gateway_cert_lite.Sqlite.Jobs
use kong_gateway_cert_lite.Reachable.Sound.{Sound}
use kong_gateway_cert_lite.Reachable.Tables.{
  Safe, Safe-attempt, Safe-get_certificate, Safe-mark_issued, Safe-update_status, Safe-has_running,
  Safe-latest_failed, Safe-list_certificates,
}
use kong_gateway_cert_lite.Reachable.UseCases.{
  Safe-Keeps, safe_rules, Safe-attempted, Safe-tested, Safe-start, Safe-complete,
}
use kong_gateway_cert_lite.Reachable.Syncs.{Safe-sync_certificate}

Safe-operation_state_at : (id : ℕ) (now : Time) → Safe (Acme.acme_operation_state id now)
unfolding Acme.acme_operation_state Job.has_running_certificate_job
    Job.latest_failed_certificate_job_since
Safe-operation_state_at id now =
    Safe-tested (Jobs.has_running_certificate_job id Acme.acme_job_types) _ (Safe-has_running _ _)
      (Preserves-pure Sound _) (search (safe_rules, Safe-latest_failed))

pub Safe-operation_state : (id : ℕ) → Safe (Acme.operation_state id)
unfolding Acme.operation_state
Safe-operation_state id = search (safe_rules, Safe-operation_state_at)

Safe-allowed : (id : ℕ) → Safe (Acme.ensure_acme_operation_allowed id)
unfolding Acme.ensure_acme_operation_allowed
Safe-allowed id = search (safe_rules, Safe-operation_state)

module _ (uc : AcmeUseCase) where
  Safe-report :
      (words : Wording) (c : Certificate) (job_id : ℕ) (status : JobStatus) (message : Text)
      → Safe (Operations.report uc words c job_id status message)
  Safe-report words c job_id status message =
      Safe-Keeps _ (Keeps-report uc words c job_id status message)

  Safe-settle :
      (words : Wording) (c : Certificate) (job_id : ℕ) (outcome : Result Issued)
      → Safe (Operations.settle uc words c job_id outcome)
  unfolding Operations.settle Operations.succeed Operations.fail
  Safe-settle words c job_id (ok issued) =
      search (safe_rules, Safe-mark_issued, Safe-complete, Safe-report) depth 12
  Safe-settle words c job_id (err e) =
      search (safe_rules, Safe-update_status, Safe-complete, Safe-report) depth 12

  Safe-run_operation :
      (words : Wording) (work : Certificate → M Issued)
      → ((c : Certificate) → Safe (work c))
      → (id : ℕ) → Safe (Operations.run_operation uc words work id)
  unfolding Operations.run_operation Operations.start_job
  Safe-run_operation words work works id =
      search (safe_rules, Safe-get_certificate, Safe-allowed, Safe-start, Safe-settle) depth 14

  pub Safe-issue_certificate : (id : ℕ) → Safe (Operations.issue_certificate uc id)
  unfolding Operations.issue_certificate
  Safe-issue_certificate id =
      Preserves-bind Sound _ _
        (Safe-run_operation issue_words _ (λ c. Safe-Keeps _ (Keeps-obtain uc c)) id)
        (λ _. Preserves-pure Sound tt)

  Safe-sync_after : (r : Certificate × Bool) → Safe (Operations.sync_after uc r)
  unfolding Operations.sync_after
  Safe-sync_after (c, false) = Preserves-pure Sound tt
  Safe-sync_after (c, true) = elim (Option-cases uc.kong_sync) [
    | inl q ↦ rw (q, Operations.sync_after) (Preserves-pure Sound tt)
    | inr (sync, q) ↦ rw (q, Operations.sync_after) (Safe-sync_certificate sync.0 sync.1 c.id)
  ]

  pub Safe-renew_certificate : (id : ℕ) → Safe (Operations.renew_certificate uc id)
  unfolding Operations.renew_certificate
  Safe-renew_certificate id =
      Preserves-bind Sound _ _
        (Safe-run_operation renew_words _ (λ c. Safe-Keeps _ (Keeps-obtain_again uc c)) id)
        Safe-sync_after

-- The rounds of the scheduler.
Safe-notify : (event : NotificationEvent) → Safe (notify event)
Safe-notify event = record { at = λ w h. h }

Safe-announce :
    (cs : List Certificate) (now : Time) (keys : List Text) → Safe (Scheduler.announce cs now keys)
unfolding Scheduler.announce
Safe-announce [] now keys = Preserves-pure Sound keys
Safe-announce (c ∷ cs) now keys = elim (Option-cases (certificate_expiry_notification c now)) [
  | inl q ↦ rw (q, Scheduler.announce) (Safe-announce cs now keys)
  | inr (event, q) ↦
      let key = Scheduler.notified_key c event.event now in
      let known = Safe-announce cs now keys in
      let new = Safe-announce cs now (key ∷ keys) in
      rw (q, Scheduler.announce)
        (elim (Bool-cases (contains keys key)) [
          | inl h ↦ rw h known
          | inr h ↦ rw h (Preserves-bind Sound _ _ (Safe-notify event) (λ _. new))
        ])
]

module _ (renew : ℕ → M (Unit {0})) (renews : (id : ℕ) → Safe (renew id)) where
  Safe-renew_all : (cs : List Certificate) (now : Time) → Safe (Scheduler.renew_all renew cs now)
  unfolding Scheduler.renew_all
  Safe-renew_all [] now = Preserves-pure Sound []
  Safe-renew_all (c ∷ cs) now =
      let rest = Safe-renew_all cs now in
      elim (Bool-cases (Scheduler.should_auto_renew c now)) [
        | inl q ↦
            rw (q, Scheduler.renew_all)
              (Preserves-bind Sound _ _ (Safe-attempt _ (renews c.id)) (λ r.
                Preserves-bind Sound _ _ rest
                  (λ errors. Preserves-pure Sound (Scheduler.with_error c.id r errors))))
        | inr q ↦ rw (q, Scheduler.renew_all) rest
      ]

  Safe-announce_all :
      (on : Bool) (now : Time) (keys : List Text) (errors : List Error)
      → Safe (Scheduler.announce_all renew on now keys errors)
  unfolding Scheduler.announce_all
  Safe-announce_all false now keys errors = Preserves-pure Sound _
  Safe-announce_all true now keys errors =
      search (safe_rules, Safe-attempted, Safe-list_certificates, Safe-announce)

  pub Safe-run_once :
      (on : Bool) (now : Time) (keys : List Text) → Safe (Scheduler.run_once renew on now keys)
  unfolding Scheduler.run_once
  Safe-run_once on now keys =
      search (safe_rules, Safe-attempted, Safe-list_certificates, Safe-renew_all, Safe-announce_all)
