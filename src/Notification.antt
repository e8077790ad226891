-- ===== src/Notification.antt =====
-- internal/usecase/notification.go
pub mod Effects
pub mod Expiry
mod Tests
use kong_gateway_cert_lite.Prelude.{
  ◌+◌, ◌-◌, ◌/◌, [], ◌∷◌, ◌++◌, Bool, false, ◌&&◌, not, Option, none, some, if◌then◌else◌, ◌==◌,
  eq_ℕ, leb,
}
use kong_gateway_cert_lite.Prelude.Int.{ℤ, pos, negsuc, sub_ℕ, leb_ℤ}
use kong_gateway_cert_lite.Text.{Text, lit, is_blank}
use kong_gateway_cert_lite.Domain.{Time, day, Certificate, JobStatus, success, is_status}
use kong_gateway_cert_lite.World.{
  M, ok, pure, ◌>>=◌, NotificationEvent, NotificationSeverity, warning, critical, time_now,
}

-- The notifier that a use case was given, or nil, and whether it reports successes too.
pub record Notifier : Type 0 where
  pub configured : Bool
  pub notify_success : Bool

-- `_ = notifier.Notify(ctx, event)`: the call's own result is dropped.
abbrev pub notify : NotificationEvent → M Unit
notify event w = (ok tt, record w { sent = w.sent ++ event ∷ [] })

abbrev pub is_success : Option JobStatus → Bool
is_success none = false
is_success (some s) = is_status s success

unfoldable pub notify_job_result : Notifier → NotificationEvent → M Unit
notify_job_result notifier event =
    if not notifier.configured
    then pure tt
    else if is_success event.job_status && not notifier.notify_success
    then pure tt
    else if event.occurred_at == 0
    then (time_now >>= λ now. notify (record event { occurred_at = now }))
    else notify event

-- `int(math.Ceil(expires.Sub(now).Hours() / 24))`
unfoldable pub remaining_days : Time → Time → ℤ
remaining_days expires now =
    if leb now expires
    then pos ((expires - now + (day - 1)) / day)
    else sub_ℕ 0 ((now - expires) / day)

unfoldable pub expiry_event :
    Certificate → Time → ℤ → NotificationSeverity → Text → NotificationEvent
expiry_event certificate now days severity event = record {
  severity = severity;
  event = event;
  certificate = some certificate;
  kong_target = [];
  environment = [];
  job_id = 0;
  job_type = none;
  job_status = none;
  message = lit "Certificate expiry threshold reached";
  remaining_days = some days;
  occurred_at = now;
}

abbrev within : ℤ → ℤ → ℤ → Bool
within lo hi days = leb_ℤ lo days && leb_ℤ days hi

-- The `switch` on the remaining days.
unfoldable pub expiry_threshold : ℤ → Option (NotificationSeverity × Text)
expiry_threshold days =
    if within (pos 13) (pos 14) days
    then some (warning, lit "certificate_expiring_14_days")
    else if within (pos 6) (pos 7) days
    then some (critical, lit "certificate_expiring_7_days")
    else if within (pos 2) (pos 3) days
    then some (critical, lit "certificate_expiring_3_days")
    else if within (negsuc 0) (pos 0) days
    then some (critical, lit "certificate_expired")
    else none

unfoldable pub certificate_expiry_notification : Certificate → Time → Option NotificationEvent
unfolding expiry_threshold expiry_event remaining_days
certificate_expiry_notification certificate now = elim certificate.expires_at [
  | none ↦ none
  | some expires ↦
      if is_blank certificate.cert_path
      then none
      else elim (expiry_threshold (remaining_days expires now)) [
        | none ↦ none
        | some (severity, event) ↦
            some (expiry_event certificate now (remaining_days expires now) severity event)
      ]
]
