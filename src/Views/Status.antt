-- ===== src/Views/Status.antt =====
-- internal/usecase: the words of the statuses, their labels and the tone that a page gives them.
use kong_gateway_cert_lite.Prelude.{◌||◌, if◌then◌else◌, ◌==◌, eq_ℕ, eq_List}
use kong_gateway_cert_lite.Text.{Text, lit, trim_space}
use kong_gateway_cert_lite.Text.Case.{Unicode, to_lower, title_words}
use kong_gateway_cert_lite.Domain.{
  CertificateStatus, SyncStatus, KongTargetStatus, KongTargetAuthType, custom_header,
}

-- `string(status)`
unfoldable pub certificate_status_text : CertificateStatus → Text
certificate_status_text CertificateStatus.pending = lit "pending"
certificate_status_text CertificateStatus.active = lit "active"
certificate_status_text CertificateStatus.warning = lit "warning"
certificate_status_text CertificateStatus.expired = lit "expired"
certificate_status_text CertificateStatus.failed = lit "failed"

unfoldable pub sync_status_text : SyncStatus → Text
sync_status_text SyncStatus.pending = lit "pending"
sync_status_text SyncStatus.synced = lit "synced"
sync_status_text SyncStatus.failed = lit "failed"
sync_status_text SyncStatus.not_synced = lit "not_synced"

unfoldable pub kong_target_status_text : KongTargetStatus → Text
kong_target_status_text KongTargetStatus.online = lit "online"
kong_target_status_text KongTargetStatus.offline = lit "offline"
kong_target_status_text KongTargetStatus.unknown = lit "unknown"

unfoldable pub auth_type_text : KongTargetAuthType → Text
auth_type_text KongTargetAuthType.none = lit "none"
auth_type_text custom_header = lit "custom-header"
auth_type_text (KongTargetAuthType.other s) = s

-- `statusLabelForValue`
unfoldable pub status_label_for_value : Text → Text
status_label_for_value value = title_words value

-- `statusLabel`, the same code on a certificate's status
unfoldable pub status_label : CertificateStatus → Text
status_label status = title_words (certificate_status_text status)

-- The `switch` of `statusClassForValue`.
unfoldable pub tone_of : Text → Text
tone_of s =
    if s == lit "active" || (s == lit "synced" || (s == lit "online" || s == lit "success"))
    then lit "success"
    else if s == lit "warning" || s == lit "running"
    then lit "warning"
    else if s == lit "expired" || (s == lit "failed" || s == lit "offline")
    then lit "danger"
    else lit "secondary"

unfoldable pub status_class_for_value : Unicode → Text → Text
status_class_for_value u value = tone_of (to_lower u (trim_space value))
