-- ===== src/Reachable/UseCases.antt =====
-- internal/usecase: each use case keeps the keys of the tables in order.
use kong_gateway_cert_lite.Prelude.{
  ℕ, List, Bool, true, false, Option, inl, inr, Option-cases, sym, subst,
}
use kong_gateway_cert_lite.Text.{Text, trim_space}
use kong_gateway_cert_lite.Domain.{Error, job_status_of}
use kong_gateway_cert_lite.World.{
  M, NotificationEvent, Result, ok, err, ◌>>=◌, or_not_found, attempt,
}
use kong_gateway_cert_lite.Sqlite.Jobs
use kong_gateway_cert_lite.World.Preserves.{
  Preserves, Preserves-pure, Preserves-raise, Preserves-bind, Preserves-or_not_found,
}
use kong_gateway_cert_lite.World.Keeps.{Keeps}
use kong_gateway_cert_lite.Notification.{Notifier, notify_job_result}
use kong_gateway_cert_lite.KongSync.{ask}
use kong_gateway_cert_lite.Certificate
use kong_gateway_cert_lite.Certificate.{CertificateInput, accept}
use kong_gateway_cert_lite.KongTarget
use kong_gateway_cert_lite.KongTarget.{KongTargetInput, KongAdminClient}
use kong_gateway_cert_lite.Notification.Effects.{Keeps-notify_job_result}
use kong_gateway_cert_lite.Job
use kong_gateway_cert_lite.Job.{JobInput, JobCompleteInput, completion}
use kong_gateway_cert_lite.Reachable.Sound.{Sound}
use kong_gateway_cert_lite.Reachable.Tables.{
  Safe, Safe-if, Safe-attempt, Safe-time_now, Safe-create_job, Safe-update_job, Safe-get_job,
  Safe-create_certificate, Safe-get_certificate, Safe-update_certificate, Safe-delete_certificate,
}
use kong_gateway_cert_lite.Reachable.Targets.{
  Safe-list_for_certificate, Safe-set_linked_targets, Safe-create_target, Safe-get_target,
  Safe-update_target, Safe-delete_target,
}

pub Safe-Keeps : {A : Type 0} (m : M A) → Keeps m → Safe m
Safe-Keeps m k = record { at = λ w h. subst Sound (sym (k.at w).db) h }

pub Safe-lift : {A : Type 0} (r : Result A) → Safe (Job.lift r)
Safe-lift r = record { at = λ w h. h }

-- A bind whose continuation tells an error from a value, or true from false.
pub Safe-attempted :
    {A B : Type 0} (m : M A) (f : Result A → M B)
    → Safe m
    → ((a : A) → Safe (f (ok a)))
    → ((e : Error) → Safe (f (err e)))
    → Safe (attempt m >>= f)
Safe-attempted m f k p q = Preserves-bind Sound _ _ (Safe-attempt m k) either
  where
    either : (r : Result _) → Safe (f r)
    either (ok a) = p a
    either (err e) = q e

pub Safe-tested :
    {B : Type 0} (m : M Bool) (f : Bool → M B)
    → Safe m
    → Safe (f true)
    → Safe (f false)
    → Safe (m >>= f)
Safe-tested m f k p q = Preserves-bind Sound _ _ k either
  where
    either : (b : Bool) → Safe (f b)
    either true = p
    either false = q

pub ruleset safe_rules = (
  Preserves-pure, Preserves-raise, Preserves-bind, Preserves-or_not_found, Safe-if, Safe-attempt,
  Safe-time_now, Safe-lift,
)

pub Safe-start : (input : JobInput) → Safe (Job.create input)
unfolding Job.create
Safe-start input = search (safe_rules, Safe-create_job)

pub Safe-complete : (input : JobCompleteInput) → Safe (Job.complete input)
unfolding Job.complete
Safe-complete input = Safe-if _ _ _ (Preserves-raise Sound _) (
    Preserves-bind Sound (or_not_found (Jobs.get input.id)) _ (search (safe_rules, Safe-get_job))
      (λ e. elim (Option-cases (completion (job_status_of (trim_space input.status)))) [
        | inl q ↦ rw q (Preserves-raise Sound _)
        | inr (s, q) ↦ rw q (search (safe_rules, Safe-update_job))
      ]))

pub Safe-notify_job_result :
    (notifier : Notifier) (event : NotificationEvent) → Safe (notify_job_result notifier event)
Safe-notify_job_result notifier event = Safe-Keeps _ (Keeps-notify_job_result notifier event)

Safe-accept : {A : Type 0} (r : Result A) → Safe (accept r)
Safe-accept (ok a) = Preserves-pure Sound a
Safe-accept (err e) = Preserves-raise Sound e

module _ (parse_address : Text → Bool) where
  pub Safe-create : (input : CertificateInput) → Safe (Certificate.create parse_address input)
  unfolding Certificate.create
  Safe-create input = search (safe_rules, Safe-accept, Safe-create_certificate)

  pub Safe-update :
      (input : CertificateInput) (id : ℕ) → Safe (Certificate.update parse_address input id)
  unfolding Certificate.update
  Safe-update input id =
      search (safe_rules, Safe-accept, Safe-get_certificate, Safe-update_certificate)

pub Safe-delete : (id : ℕ) → Safe (Certificate.delete id)
unfolding Certificate.delete
Safe-delete id = search (safe_rules, Safe-delete_certificate)

pub Safe-update_linked_targets :
    (id : ℕ) (ids : List ℕ) → Safe (Certificate.update_linked_targets id ids)
unfolding Certificate.update_linked_targets
Safe-update_linked_targets id ids =
    search (safe_rules, Safe-get_certificate, Safe-list_for_certificate, Safe-set_linked_targets)

module _ (parse_uri : Text → Option (Text × Text)) where
  pub Safe-create_kong_target : (input : KongTargetInput) → Safe (KongTarget.create parse_uri input)
  unfolding KongTarget.create
  Safe-create_kong_target input = search (safe_rules, Safe-accept, Safe-create_target)

  pub Safe-update_kong_target : (input : KongTargetInput) → Safe (KongTarget.update parse_uri input)
  unfolding KongTarget.update
  Safe-update_kong_target input =
      search (safe_rules, Safe-accept, Safe-get_target, Safe-update_target)

pub Safe-delete_kong_target : (id : ℕ) → Safe (KongTarget.delete id)
unfolding KongTarget.delete
Safe-delete_kong_target id = search (safe_rules, Safe-delete_target)

pub Safe-ask : {A : Type 0} (f : ℕ → A) → Safe (ask f)
Safe-ask f = record { at = λ w h. h }

pub Safe-test_connection :
    (tester : KongAdminClient) (notifier : Notifier) (id : ℕ)
    → Safe (KongTarget.test_connection tester notifier id)
unfolding KongTarget.test_connection KongTarget.report_check
Safe-test_connection tester notifier id =
    search
      (
        safe_rules, Safe-get_target, Safe-start, Safe-ask, Safe-update_target, Safe-complete,
        Safe-notify_job_result,
      )
      depth 14
