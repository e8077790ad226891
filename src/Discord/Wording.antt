-- ===== src/Discord/Wording.antt =====
-- internal/adapter/discord/notifier.go: titles, actions, icons and colours of the events.
use kong_gateway_cert_lite.Prelude.{
  ℕ, [], ◌∷◌, ◌++◌, map, ◌||◌, if◌then◌else◌, ◌==◌, eq_ℕ, eq_List, is_empty,
}
use kong_gateway_cert_lite.Text.{Text, lit, trim_space, is_blank, join}
use kong_gateway_cert_lite.Text.Fields.{fields}
use kong_gateway_cert_lite.Text.Case.{replace_all, capitalize}
use kong_gateway_cert_lite.Text.Number.{decimal}
use kong_gateway_cert_lite.World.{
  NotificationEvent, NotificationSeverity, info, warning, critical, success,
}

pub record NotificationPresentation : Type 0 where
  pub title : Text
  pub action : Text

unfoldable pub non_empty : Text → Text → Text
non_empty value fallback = if is_blank value then fallback else value

unfoldable pub job_action : NotificationEvent → Text → Text
job_action event action =
    if event.job_id == 0
    then action
    else action ++ (lit " Job #" ++ (decimal event.job_id ++ lit " has the full log."))

abbrev event_words : Text → Text
event_words value = if is_empty value then lit "notification" else value

unfoldable pub fallback_title : NotificationEvent → Text
fallback_title event =
    join (lit " ")
      (map capitalize (fields (event_words (trim_space (replace_all b'_' b' ' event.event)))))

abbrev present : Text → Text → NotificationPresentation
present title action = record { title = title; action = action }

-- The `switch` on the names of events.
unfoldable pub notification_presentation_for : NotificationEvent → NotificationPresentation
notification_presentation_for e =
    if e.event == lit "issue_succeeded"
    then present (lit "Certificate issued") (
        lit
          "No action required. Verify linked Kong targets if this certificate should be served immediately.")
    else if e.event == lit "issue_failed"
    then present (lit "Certificate issue failed") (
        job_action e (
          lit
            "Review the ACME job log, then check DNS challenge configuration and Cloudflare token permissions."))
    else if e.event == lit "renew_succeeded"
    then present (lit "Certificate renewed")
        (lit "No action required. Linked Kong targets will sync after renew when configured.")
    else if e.event == lit "renew_failed"
    then present (lit "Certificate renew failed") (
        job_action e (
          lit
            "Review the renew job log, then check ACME DNS-01, Cloudflare zone access, and recent retry cooldown."))
    else if e.event == lit "sync_succeeded"
    then present (lit "Kong certificate sync completed") (
        lit
          "No action required. Confirm the target status if traffic still serves the old certificate.")
    else if e.event == lit "sync_failed"
    then present (lit "Kong certificate sync failed") (
        job_action e (
          lit
            "Review the sync job log, then check Kong Admin URL, authentication, network access, and certificate file paths."))
    else if e.event == lit "kong_target_test_succeeded"
    then present (lit "Kong target connectivity passed") (lit "No action required.")
    else if e.event == lit "kong_target_test_failed"
    then present (lit "Kong target connectivity failed") (
        job_action e (
          lit
            "Check the Kong Admin URL, authentication header, DNS/network route, and firewall access."))
    else if e.event == lit "certificate_expiring_14_days"
    then present (lit "Certificate expires in about 14 days") (
        lit
          "Verify auto renew is enabled and the certificate has linked Kong targets if it should be synced after renewal.")
    else if e.event == lit "certificate_expiring_7_days"
    then present (lit "Certificate expires in about 7 days")
        (lit "Prioritize renewal soon. Check recent renew jobs before manually retrying.")
    else if e.event == lit "certificate_expiring_3_days"
    then present (lit "Certificate expires in about 3 days")
        (lit "Renew immediately or verify that auto renew completed successfully.")
    else if e.event == lit "certificate_expired"
    then present (lit "Certificate expired")
        (lit "Renew or replace the certificate immediately, then sync the linked Kong targets.")
    else present (fallback_title e) []

-- Two signs with the selector U+FE0F.
abbrev warning_sign : Text
warning_sign = 0x26A0 ∷ 0xFE0F ∷ []

abbrev information_sign : Text
information_sign = 0x2139 ∷ 0xFE0F ∷ []

unfoldable pub severity_icon : NotificationSeverity → Text
severity_icon success = lit "✅"
severity_icon warning = warning_sign
severity_icon critical = lit "🚨"
severity_icon info = information_sign

unfoldable pub event_icon : NotificationEvent → Text
event_icon e =
    if e.event == lit "issue_succeeded"
    then lit "✅"
    else if e.event == lit "issue_failed"
    then lit "🚨"
    else if e.event == lit "renew_succeeded"
    then lit "✅"
    else if e.event == lit "renew_failed"
    then lit "🚨"
    else if e.event == lit "sync_succeeded"
    then lit "✅"
    else if e.event == lit "sync_failed"
    then lit "🚨"
    else if e.event == lit "kong_target_test_succeeded"
    then lit "✅"
    else if e.event == lit "kong_target_test_failed"
    then warning_sign
    else if e.event == lit "certificate_expiring_14_days"
    then warning_sign
    else if e.event == lit "certificate_expiring_7_days"
        || e.event == lit "certificate_expiring_3_days"
    then lit "🚨"
    else if e.event == lit "certificate_expired"
    then lit "🛑"
    else severity_icon e.severity

unfoldable pub severity_label : NotificationSeverity → Text
severity_label success = lit "Success"
severity_label warning = lit "Warning"
severity_label critical = lit "Critical"
severity_label info = lit "Info"

unfoldable pub color_for_severity : NotificationSeverity → ℕ
color_for_severity success = 0x1DB954
color_for_severity warning = 0xF59F00
color_for_severity critical = 0xD63939
color_for_severity info = 0x6B7280
