-- ===== src/Web/Actions.antt =====
-- internal/web/handler.go: issuing, renewing and syncing by hand.
use kong_gateway_cert_lite.Prelude.{
  ℕ, Bool, true, false, ◌&&◌, Option, none, some, if◌then◌else◌, ◌==◌, eq_ℕ, eq_List, any_row,
  find_first,
}
use kong_gateway_cert_lite.Text.{Text, lit}
use kong_gateway_cert_lite.Domain.{CertificateStatus, Error, is_not_found}
use kong_gateway_cert_lite.World.{M, Result, ok, err, pure, ◌>>=◌, attempt}
use kong_gateway_cert_lite.KongSync
use kong_gateway_cert_lite.Acme.Operations
use kong_gateway_cert_lite.Views.Certificate as CertificateViews
use kong_gateway_cert_lite.Views.Certificate.{CertificateView, CertificateTargetLinkView}
use kong_gateway_cert_lite.Web.Answer.{
  Handler, Request, Answer, server_error, as_blocked, not_found_or_error, err_not_found, handle,
  with_id, certificate_path,
}
use kong_gateway_cert_lite.Web.Flash.{redirect_with_flash}

abbrev pub has_failed : CertificateTargetLinkView → Bool
has_failed target = target.is_linked && target.sync_status_tone == lit "danger"

unfoldable pub certificate_has_failed_sync : CertificateView → Bool
certificate_has_failed_sync view = any_row has_failed view.linked_targets

abbrev pub failed_target : Option CertificateTargetLinkView → Bool
failed_target none = false
failed_target (some target) = has_failed target

unfoldable pub certificate_target_has_failed_sync : CertificateView → ℕ → Bool
certificate_target_has_failed_sync view target_id =
    failed_target
      (find_first (λ (t : CertificateTargetLinkView). t.target.id == target_id) view.linked_targets)

abbrev pub is_failed_status : CertificateStatus → Bool
is_failed_status CertificateStatus.failed = true
is_failed_status _ = false

-- A tone and a message.
abbrev pub Verdict : Type 0
Verdict = Text × Text

-- Where the certificate cannot be read again, the verdict is that of a success.
abbrev pub judge : (CertificateView → Verdict) → Verdict → Result CertificateView → Verdict
judge verdict otherwise (ok view) = verdict view
judge verdict otherwise (err e) = otherwise

abbrev pub issued_well : Verdict
issued_well = (lit "success", lit "Certificate issued successfully.")

abbrev pub issue_failed : Verdict
issue_failed =
    (lit "danger", lit "Certificate issue failed. Review certificate state and job logs.")

unfoldable pub issue_verdict : CertificateView → Verdict
issue_verdict view = if is_failed_status view.certificate.status then issue_failed else issued_well

abbrev pub renewed_well : Verdict
renewed_well = (lit "success", lit "Certificate renewed successfully.")

unfoldable pub renew_verdict : CertificateView → Verdict
renew_verdict view =
    if is_failed_status view.certificate.status
    then (lit "danger", lit "Certificate renew failed. Review certificate state and job logs.")
    else if certificate_has_failed_sync view
    then (lit "warning", lit "Certificate renewed, but Kong sync finished with failures.")
    else renewed_well

abbrev pub synced_well : Verdict
synced_well = (lit "success", lit "Kong sync completed.")

unfoldable pub sync_verdict : CertificateView → Verdict
sync_verdict view =
    if certificate_has_failed_sync view
    then (lit "danger", lit "Kong sync finished with failures. Review linked target status below.")
    else synced_well

abbrev pub target_synced_well : Verdict
target_synced_well = (lit "success", lit "Kong target sync completed.")

unfoldable pub sync_target_verdict : ℕ → CertificateView → Verdict
sync_target_verdict target_id view =
    if certificate_target_has_failed_sync view target_id
    then (lit "danger", lit "Kong target sync failed. Review linked target status below.")
    else target_synced_well

module _ (h : Handler) where
  abbrev pub to_certificate : ℕ → Verdict → Answer
  to_certificate id verdict = redirect_with_flash h (certificate_path id) verdict.0 verdict.1

  -- The certificate is read again, and the answer says what has become of it.
  abbrev pub conclude : ℕ → (CertificateView → Verdict) → Verdict → M Answer
  conclude id verdict otherwise = do
    view ← attempt (CertificateViews.get h.unicode id)
    pure (to_certificate id (judge verdict otherwise view))

  -- The errors of an operation that another job may stand in the way of.
  abbrev pub operation_refused : ℕ → Error → Answer
  operation_refused id e = if is_not_found e then err_not_found else elim (as_blocked e) [
    | some reason ↦ to_certificate id (lit "warning", reason)
    | none ↦ server_error e
  ]

  unfoldable pub issue_certificate : Request → M Answer
  issue_certificate req = with_id (req.params (lit "id")) λ id.
      handle (Operations.issue_certificate h.acme id) (operation_refused id)
        λ _. conclude id issue_verdict issued_well

  unfoldable pub renew_certificate : Request → M Answer
  renew_certificate req = with_id (req.params (lit "id")) λ id.
      handle (Operations.renew_certificate h.acme id) (operation_refused id)
        λ _. conclude id renew_verdict renewed_well

  unfoldable pub sync_certificate : Request → M Answer
  sync_certificate req = with_id (req.params (lit "id")) λ id.
      handle (KongSync.sync_certificate h.kong_client h.notifier id) not_found_or_error
        λ _. conclude id sync_verdict synced_well

  unfoldable pub sync_certificate_target : Request → M Answer
  sync_certificate_target req = with_id (req.params (lit "id")) λ id.
      with_id (req.params (lit "target_id")) λ target_id.
        handle (KongSync.sync_certificate_target h.kong_client h.notifier id target_id)
          not_found_or_error λ _. conclude id (sync_target_verdict target_id) target_synced_well
