-- ===== src/Notification/Tests.antt =====
-- The expiry of a certificate three days ahead.
use kong_gateway_cert_lite.Prelude.{some, none, false, ◌≡◌, ◌≢◌, ◌↔◌}
use kong_gateway_cert_lite.Text.{is_blank}
use kong_gateway_cert_lite.Domain.{Time}
use kong_gateway_cert_lite.Samples.{web, today}
use kong_gateway_cert_lite.Notification.{certificate_expiry_notification}
use kong_gateway_cert_lite.Notification.Expiry.{IsAnnounced, expiry-IsAnnounced_iff}

expiry-IsAnnounced_iff_example : (certificate_expiry_notification web today ≢ none) ↔ (
    (is_blank web.cert_path ≡ false)
    × ((expires : Time) × (web.expires_at ≡ some expires) × IsAnnounced expires today))
expiry-IsAnnounced_iff_example = expiry-IsAnnounced_iff web today
