-- ===== src/KongSync/Push.antt =====
-- What the client's part of a sync comes to, and that it leaves the database alone.
use kong_gateway_cert_lite.Prelude.{suc, Option-cases, some, ◌≡◌, ◌∙◌, inl, inr, refl, arith}
use kong_gateway_cert_lite.Domain.{Bytes, Certificate, KongTarget, CertificateKongTarget}
use kong_gateway_cert_lite.World.{World, Result, ok, err, time_now}
use kong_gateway_cert_lite.World.Keeps.{Keeps, SameDb, SameDb-refl}
use kong_gateway_cert_lite.World.Clock.{time_now_lem, ticked-db, ticked-faults}
use kong_gateway_cert_lite.Notification.{Notifier}
use kong_gateway_cert_lite.Job
use kong_gateway_cert_lite.KongSync.{
  KongCertificateSyncClient, SyncOutcome, unreadable, refused, accepted, push_certificate,
  kong_certificate_tags,
}

-- The outcome concerns the same pair of certificate and target, and has a status that ends a job.
pub record Concerns (m : CertificateKongTarget) (o : SyncOutcome) : Type 0 where
  pub certificate_id : o.mapping.certificate_id ≡ m.certificate_id
  pub kong_target_id : o.mapping.kong_target_id ≡ m.kong_target_id
  pub ends : Job.completion o.status ≡ some o.status

module _ (client : KongCertificateSyncClient) (notifier : Notifier) (c : Certificate)
    (t : KongTarget) (m : CertificateKongTarget) where
  pub push-Concerns :
      (files : Result (Bytes × Bytes)) (o : SyncOutcome) (v : World)
      → (push_certificate client notifier c t m files v).0 ≡ ok o
      → Concerns m o
  unfolding push_certificate unreadable refused accepted time_now
  push-Concerns (err e) o v h = record {
    certificate_id = ground arith;
    kong_target_id = ground arith;
    ends = ground arith;
  }
  push-Concerns (ok (cert, key)) o v h = record {
    certificate_id = ground arith;
    kong_target_id = ground arith;
    ends = ground arith;
  }

  pub Keeps-push :
      (files : Result (Bytes × Bytes)) → Keeps (push_certificate client notifier c t m files)
  unfolding push_certificate
  Keeps-push (err e) = record { at = λ v. SameDb-refl v }
  Keeps-push (ok (cert, key)) = record { at = λ v. pushed v }
    where
      pushed : (v : World) → SameDb v (push_certificate client notifier c t m (ok (cert, key)) v).1
      pushed v =
          let reply =
            client.sync_certificate v.calls t m.kong_certificate_id cert key c.snis
              (kong_certificate_tags c) in
          elim (Option-cases reply.error) [
            | inl e ↦
                let asked = record v { calls = suc v.calls } in
                rw (e, push_certificate)
                  (rw (time_now_lem asked)
                    (record { db = ticked-db asked; calm = λ h. ticked-faults asked ∙ h }))
            | inr (e, q) ↦ rw (q, push_certificate) (record { db = refl; calm = λ h. h })
          ]
