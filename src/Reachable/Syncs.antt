-- ===== src/Reachable/Syncs.antt =====
-- internal/usecase/kong_sync.go: a sync keeps the keys of the tables in order.
use kong_gateway_cert_lite.Prelude.{
  ℕ, List, [], ◌∷◌, inl, inr, Option-cases, find_first, ◌==◌, eq_ℕ,
}
use kong_gateway_cert_lite.Domain.{Bytes, Certificate, KongTarget, CertificateKongTarget}
use kong_gateway_cert_lite.World.{Result}
use kong_gateway_cert_lite.World.Preserves.{Preserves-pure, Preserves-raise, Preserves-bind}
use kong_gateway_cert_lite.Notification.{Notifier}
use kong_gateway_cert_lite.Files.{read_certificate_files}
use kong_gateway_cert_lite.Acme.Keeps.{Keeps-read_certificate_files}
use kong_gateway_cert_lite.KongSync
use kong_gateway_cert_lite.KongSync.{KongCertificateSyncClient}
use kong_gateway_cert_lite.KongSync.Push.{Keeps-push}
use kong_gateway_cert_lite.Text.{Text}
use kong_gateway_cert_lite.Reachable.Sound.{Sound}
use kong_gateway_cert_lite.Reachable.Tables.{Safe, Safe-get_certificate}
use kong_gateway_cert_lite.Reachable.Targets.{Safe-list_sync_targets, Safe-upsert, Safe-get_target}
use kong_gateway_cert_lite.Reachable.UseCases.{
  Safe-Keeps, safe_rules, Safe-attempted, Safe-start, Safe-complete, Safe-notify_job_result,
}

pub Safe-read_files :
    (word cert_path key_path : Text) → Safe (read_certificate_files word cert_path key_path)
Safe-read_files word cert_path key_path =
    Safe-Keeps _ (Keeps-read_certificate_files word cert_path key_path)

module _ (client : KongCertificateSyncClient) (notifier : Notifier) where
  Safe-push :
      (c : Certificate) (t : KongTarget) (m : CertificateKongTarget)
      (files : Result (Bytes × Bytes))
      → Safe (KongSync.push_certificate client notifier c t m files)
  Safe-push c t m files = Safe-Keeps _ (Keeps-push client notifier c t m files)

  Safe-sync_target :
      (c : Certificate) (t : KongTarget) (m : CertificateKongTarget)
      (files : Result (Bytes × Bytes))
      → Safe (KongSync.sync_target client notifier c t m files)
  unfolding KongSync.sync_target KongSync.report_sync
  Safe-sync_target c t m files =
      search (safe_rules, Safe-start, Safe-push, Safe-upsert, Safe-complete, Safe-notify_job_result)
        depth 12

  Safe-sync_inputs : (id : ℕ) → Safe (KongSync.sync_inputs client notifier id)
  unfolding KongSync.sync_inputs
  Safe-sync_inputs id = search (safe_rules, Safe-get_certificate, Safe-list_sync_targets)

  Safe-sync_link :
      (c : Certificate) (files : Result (Bytes × Bytes)) (m : CertificateKongTarget)
      → Safe (KongSync.sync_link client notifier c files m)
  unfolding KongSync.sync_link
  Safe-sync_link c files m = search (safe_rules, Safe-attempted, Safe-get_target, Safe-sync_target)

  Safe-sync_links :
      (c : Certificate) (files : Result (Bytes × Bytes)) (links : List CertificateKongTarget)
      → Safe (KongSync.sync_links client notifier c files links)
  unfolding KongSync.sync_links
  Safe-sync_links c files [] = Preserves-pure Sound tt
  Safe-sync_links c files (m ∷ ms) =
      Preserves-bind Sound _ _ (Safe-sync_link c files m) (λ _. Safe-sync_links c files ms)

  pub Safe-sync_certificate : (id : ℕ) → Safe (KongSync.sync_certificate client notifier id)
  unfolding KongSync.sync_certificate
  Safe-sync_certificate id =
      search (safe_rules, Safe-sync_inputs, Safe-read_files, Safe-sync_links) depth 10

  pub Safe-sync_certificate_target :
      (id target_id : ℕ) → Safe (KongSync.sync_certificate_target client notifier id target_id)
  unfolding KongSync.sync_certificate_target
  Safe-sync_certificate_target id target_id =
      Preserves-bind Sound (KongSync.sync_inputs client notifier id) _ (Safe-sync_inputs id)
        (λ inputs. elim (Option-cases (find_first (λ m. m.kong_target_id == target_id) inputs.1)) [
          | inl q ↦ rw q (Preserves-raise Sound _)
          | inr (m, q) ↦
              rw q (search (safe_rules, Safe-get_target, Safe-read_files, Safe-sync_target))
        ])
