-- ===== src/Notification/Expiry.antt =====
-- When a certificate's end of validity is announced.
use kong_gateway_cert_lite.Prelude.{
  ℕ, ◌+◌, ◌-◌, ◌*◌, ◌≤◌, ◌<◌, false, Option, none, some, ◌≡◌, ◌≢◌, ◌⊎◌, ◌↔◌, refl, sym, ◌∙◌, subst,
  arith,
}
use kong_gateway_cert_lite.Prelude.Int.{pos}
use kong_gateway_cert_lite.Text.{is_blank}
use kong_gateway_cert_lite.Domain.{Time, day, Certificate}
use kong_gateway_cert_lite.Notification.{
  remaining_days, expiry_threshold, certificate_expiry_notification,
}

-- `remaining_days` is the time left in days, rounded up.
days_ahead :
    (expires now n : ℕ)
    → now ≤ expires
    → (remaining_days expires now ≡ pos n)
      ↔ ((expires - now ≤ n * day) × (n * day < expires - now + day))
unfolding remaining_days
days_ahead expires now n h = ground arith

-- The times at which an event is due: on the 14th and 13th, the 7th and 6th, and the 3rd and 2nd
-- day before the end of validity, counted in days of 24 hours up to it, at the end, and in the two
-- days after it.
abbrev pub IsAnnounced : Time → Time → Type 0
IsAnnounced expires now =
    ((now + 12 * day < expires) × (expires ≤ now + 14 * day))
    ⊎ ((now + 5 * day < expires) × (expires ≤ now + 7 * day))
    ⊎ ((now + 1 * day < expires) × (expires ≤ now + 3 * day))
    ⊎ ((expires ≤ now) × (now < expires + 2 * day))

threshold_iff :
    (expires now : Time)
    → (expiry_threshold (remaining_days expires now) ≢ none) ↔ IsAnnounced expires now
unfolding expiry_threshold remaining_days
threshold_iff expires now = ground arith

-- A certificate has an expiry event at time `now` exactly if it has a certificate path and an end of
-- validity for which an event is due then; in particular none is due in its last 24 hours, nor from
-- two days after the end.
pub expiry-IsAnnounced_iff :
    (c : Certificate) (now : Time)
    → (certificate_expiry_notification c now ≢ none) ↔ (
        (is_blank c.cert_path ≡ false)
        × ((expires : Time) × (c.expires_at ≡ some expires) × IsAnnounced expires now))
unfolding certificate_expiry_notification
expiry-IsAnnounced_iff c now = ends c.expires_at refl
  where
    some_injective : {x y : Time} → some x ≡ some y → x ≡ y
    some_injective e = ground arith

    ends :
        (o : Option Time)
        → c.expires_at ≡ o
        → (certificate_expiry_notification c now ≢ none) ↔ (
            (is_blank c.cert_path ≡ false)
            × ((expires : Time) × (c.expires_at ≡ some expires) × IsAnnounced expires now))
    ends none e = ground arith
    ends (some expires) e = (
      λ h. (ground arith, (expires, e, (threshold_iff expires now).0 (ground arith))),
      λ (p, (t, q, r)).
          let same : t ≡ expires = some_injective (sym q ∙ e) in
          let due = (threshold_iff expires now).1 (subst (λ x. IsAnnounced x now) same r) in
          ground arith,
    )
