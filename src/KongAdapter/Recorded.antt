-- ===== src/KongAdapter/Recorded.antt =====
-- internal/adapter/kong/admin_client.go and internal/usecase/kong_sync.go: what a sync that ends
-- well records.
use kong_gateway_cert_lite.Prelude.{ℕ, [], none, ◌≡◌, ◌≢◌, ◌∙◌, arith}
use kong_gateway_cert_lite.Domain.{
  Bytes, Certificate, KongTarget, CertificateKongTarget, success, synced,
}
use kong_gateway_cert_lite.World.{World, ok, time_now}
use kong_gateway_cert_lite.Notification.{Notifier}
use kong_gateway_cert_lite.KongSync.{
  SyncOutcome, SyncReply, push_certificate, refused, accepted, kong_certificate_tags, sync_target,
}
use kong_gateway_cert_lite.KongSync.Synced.{MaySync, Synced, created, sync_target-Synced}
use kong_gateway_cert_lite.KongAdapter.{Http, sync_client, sync_certificate}
use kong_gateway_cert_lite.KongAdapter.Replies.{Accepted, sync_certificate-Accepted}

-- The client's reply to the call that a sync makes.
abbrev pub reply_at :
    Http → Certificate → KongTarget → CertificateKongTarget → Bytes → Bytes → ℕ → SyncReply
reply_at http c t m cert key n =
    sync_certificate http n t m.kong_certificate_id cert key c.snis (kong_certificate_tags c)

module _ (http : Http) (notifier : Notifier) (c : Certificate) (t : KongTarget)
    (m : CertificateKongTarget) (cert key : Bytes) where
  push-success :
      (w : World) (o : SyncOutcome)
      → (push_certificate (sync_client http) notifier c t m (ok (cert, key)) w).0 ≡ ok o
      → o.status ≡ success
      → ((reply_at http c t m cert key w.calls).error ≡ none)
        × (o.mapping.kong_certificate_id
            ≡ (reply_at http c t m cert key w.calls).kong_certificate_id)
        × (o.mapping.sync_status ≡ synced)
  unfolding push_certificate refused accepted time_now
  push-success w o e good = ground arith

-- Under the conditions of the sync of a link, with the client that calls Kong's Admin API and files
-- that could be read, a sync whose outcome is a success has sent one request and was answered with
-- a status from 200 to 299; the link is then stored as synced, with an id that is not empty, and
-- the job and the other rows are as the sync leaves them.
pub sync_target-Accepted :
    (http : Http) (notifier : Notifier) (c : Certificate) (t : KongTarget)
    (m : CertificateKongTarget) (cert key : Bytes) (w : World)
    → MaySync c t m w
    → (o : SyncOutcome)
    → (push_certificate (sync_client http) notifier c t m (ok (cert, key)) (created c t w)).0 ≡ ok o
    → o.status ≡ success
    → (s : Synced c t o w.db
        (sync_target (sync_client http) notifier c t m (ok (cert, key)) w).1.db)
      × (s.link.sync_status ≡ synced)
      × (s.link.kong_certificate_id ≢ [])
      × Accepted http w.calls t m.kong_certificate_id cert key c.snis
          (kong_certificate_tags c)
          (reply_at http c t m cert key w.calls)
unfolding created
sync_target-Accepted http notifier c t m cert key w may o pushes good =
    let s =
      (sync_target-Synced (sync_client http) notifier c t m (ok (cert, key)) w may o pushes).1 in
    let (fine, same, status) =
      push-success http notifier c t m cert key (created c t w) o pushes good in
    let accepted_reply =
      sync_certificate-Accepted http w.calls t m.kong_certificate_id cert key c.snis
        (kong_certificate_tags c) fine in
    (s, s.sync_status ∙ status, rw (s.kong_certificate_id ∙ same) accepted_reply.id, accepted_reply)
