-- ===== src/Scheduler.antt =====
-- internal/usecase/scheduler.go: which certificates are renewed, one round of the scheduler.
pub mod Lifecycle
pub mod Eligible
pub mod Round
pub mod Announce
mod Tests
use kong_gateway_cert_lite.Prelude.{
  ℕ, ◌+◌, ◌-◌, ◌*◌, List, [], ◌∷◌, ◌++◌, Bool, true, false, ◌&&◌, ◌||◌, not, Option, none, some,
  if◌then◌else◌, ◌==◌, eq_ℕ, eq_List, leb, contains,
}
use kong_gateway_cert_lite.Prelude.Int.{ℤ, pos, negsuc}
use kong_gateway_cert_lite.Text.{Text, lit, is_blank}
use kong_gateway_cert_lite.Text.Number.{decimal}
use kong_gateway_cert_lite.Calendar.{format_date}
use kong_gateway_cert_lite.Domain.{
  Time, day, Certificate, CertificateStatus, active, warning, expired, Error, error_text,
}
use kong_gateway_cert_lite.Domain
use kong_gateway_cert_lite.World.{
  World, M, Result, ok, err, pure, ◌>>=◌, attempt, NotificationEvent,
}
use kong_gateway_cert_lite.Sqlite.Certificates
use kong_gateway_cert_lite.Notification.{notify, certificate_expiry_notification}

-- `switch certificate.Status`
abbrev pub is_renewable : CertificateStatus → Bool
is_renewable active = true
is_renewable warning = true
is_renewable expired = true
is_renewable _ = false

-- The renewal window begins `RenewBeforeDays` days before the end of validity; a time before year 1
-- has passed, and so has 0, at which `-` stops.
abbrev pub window_open : Option Time → ℤ → Time → Bool
window_open none days now = false
window_open (some expires) (negsuc n) now = false
window_open (some expires) (pos n) now = not (n == 0) && leb (expires - n * day) now

unfoldable pub should_auto_renew : Certificate → Time → Bool
should_auto_renew certificate now =
    certificate.auto_renew
    && (not (is_blank certificate.cert_path || is_blank certificate.key_path)
        && (is_renewable certificate.status
            && window_open certificate.expires_at certificate.renew_before_days now))

-- The errors of a round, `fmt.Errorf("auto renew certificate %d: %w", …)` added for a refusal.
abbrev pub with_error : ℕ → Result (Unit {0}) → List Error → List Error
with_error id (ok _) errors = errors
with_error id (err e) errors =
    Domain.Error.failed
      (lit "auto renew certificate " ++ (decimal id ++ (lit ": " ++ error_text e)))
    ∷ errors

-- The key under which `expiryNotificationSent` remembers an event.
unfoldable pub notified_key : Certificate → Text → Time → Text
notified_key certificate event now =
    decimal certificate.id ++ (lit ":" ++ (event ++ (lit ":" ++ format_date now)))

-- `errors.Join`
abbrev pub join_all : List Error → Result (Unit {0})
join_all [] = ok tt
join_all (e ∷ []) = err e
join_all (e ∷ es) = elim (join_all es) [ ok _ ↦ err e | err rest ↦ err (Domain.Error.join e rest) ]

-- The second loop of a round: the events of the certificates, each sent unless its key is known.
-- The keys known are the scheduler's state.
unfoldable pub announce : List Certificate → Time → List Text → M (List Text)
announce [] now notified = pure notified
announce (c ∷ cs) now notified = elim (certificate_expiry_notification c now) [
  | none ↦ announce cs now notified
  | some event ↦
      let key = notified_key c event.event now in
      elim (contains notified key) [
        | true ↦ announce cs now notified
        | false ↦ notify event >>= λ _. announce cs now (key ∷ notified)
      ]
]

-- `CertificateRenewer`: a renewal of the certificate with an id.
module _ (renew : ℕ → M (Unit {0})) where
  -- The first loop of a round.
  unfoldable pub renew_all : List Certificate → Time → M (List Error)
  renew_all [] now = pure []
  renew_all (c ∷ cs) now = elim (should_auto_renew c now) [
    | false ↦ renew_all cs now
    | true ↦ do
      result ← attempt (renew c.id)
      errors ← renew_all cs now
      pure (with_error c.id result errors)
  ]

  -- With a notifier, the certificates are listed again; an error of that joins the others.
  unfoldable pub announce_all : Bool → Time → List Text → List Error → M (List Error × List Text)
  announce_all false now notified errors = pure (errors, notified)
  announce_all true now notified errors = do
    listed ← attempt Certificates.list
    elim listed [
      | err e ↦ pure (errors ++ e ∷ [], notified)
      | ok certificates ↦ do known ← announce certificates now notified; pure (errors, known)
    ]

  -- `RunOnce`: the error that it returns, and the keys that the scheduler knows after it.
  unfoldable pub run_once : Bool → Time → List Text → M (Result (Unit {0}) × List Text)
  run_once has_notifier now notified = do
    listed ← attempt Certificates.list
    elim listed [
      | err e ↦ pure (err e, notified)
      | ok certificates ↦ do
        errors ← renew_all certificates now
        after ← announce_all has_notifier now notified errors
        pure (join_all after.0, after.1)
    ]
