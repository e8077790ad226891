-- ===== src/Scheduler/Announce.antt =====
-- The second loop of a round: each event is sent once a day.
use kong_gateway_cert_lite.Prelude.{List, true, some, ◌≡◌, contains, All, eq_ℕ, eq_List}
use kong_gateway_cert_lite.Text.{Text}
use kong_gateway_cert_lite.Domain.{Time, Certificate}
use kong_gateway_cert_lite.World.{World, Result, ok, NotificationEvent}
use kong_gateway_cert_lite.Notification.{certificate_expiry_notification}
use kong_gateway_cert_lite.Scheduler.{notified_key}

-- The event of a certificate, if it has one, is known.
abbrev IsKnown : List Text → Time → Certificate → Type 0
IsKnown keys now c =
    (event : NotificationEvent)
    → certificate_expiry_notification c now ≡ some event
    → contains keys (notified_key c event.event now) ≡ true

-- What `announce` comes to: the keys that it returns hold the ones that it began with and those of
-- all the events.
record Announced (cs : List Certificate) (now : Time) (before : List Text)
    (r : Result (List Text) × World) : Type 0 where
  keys : List Text
  value : r.0 ≡ ok keys
  more : (k : Text) → contains before k ≡ true → contains keys k ≡ true
  covers : All (IsKnown keys now) cs

IsKnown-more :
    (before after : List Text) (now : Time) (c : Certificate)
    → ((k : Text) → contains before k ≡ true → contains after k ≡ true)
    → IsKnown before now c
    → IsKnown after now c
IsKnown-more before after now c more known event e = more _ (known event e)
