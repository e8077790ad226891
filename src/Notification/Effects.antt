-- ===== src/Notification/Effects.antt =====
-- Reporting a job adds nothing to the database, and returns no error.
use kong_gateway_cert_lite.Prelude.{refl, arith, ◌≡◌, eq_ℕ}
use kong_gateway_cert_lite.World.{World, ok, time_now, NotificationEvent}
use kong_gateway_cert_lite.World.Keeps.{Keeps, Keeps-if, keeps_rules}
use kong_gateway_cert_lite.Notification.{Notifier, notify, notify_job_result}

Keeps-notify : (event : NotificationEvent) → Keeps (notify event)
Keeps-notify event = record { at = λ w. record { db = refl; calm = λ h. h } }

pub Keeps-notify_job_result :
    (notifier : Notifier) (event : NotificationEvent) → Keeps (notify_job_result notifier event)
unfolding notify_job_result
Keeps-notify_job_result notifier event = search (keeps_rules, Keeps-if, Keeps-notify)

pub notify_job_result-ok :
    (notifier : Notifier) (event : NotificationEvent) (w : World)
    → (notify_job_result notifier event w).0 ≡ ok tt
unfolding notify_job_result time_now
notify_job_result-ok notifier event w = ground arith
