-- ===== src/KongAdapter/Tests.antt =====
-- A sync with an Admin API that answers everything alike.
use kong_gateway_cert_lite.Prelude.{[], ◌∷◌, none, ◌≡◌, ◌≢◌, refl}
use kong_gateway_cert_lite.Text.{Text}
use kong_gateway_cert_lite.Domain.{synced, success}
use kong_gateway_cert_lite.World.{ok, time_now}
use kong_gateway_cert_lite.Samples.{web, gateway, link, tables, world, silent}
use kong_gateway_cert_lite.HttpClient.{HttpResponse, bytes, response}
use kong_gateway_cert_lite.KongSync.{
  SyncOutcome, push_certificate, accepted, kong_certificate_tags, sync_target,
}
use kong_gateway_cert_lite.KongSync.Synced.{MaySync, Synced, created}
use kong_gateway_cert_lite.KongAdapter.{
  Http, decoded_id, sync_client, sync_certificate, sync_sent, read_id,
}
use kong_gateway_cert_lite.KongAdapter.Replies.{Accepted}
use kong_gateway_cert_lite.KongAdapter.Recorded.{reply_at, sync_target-Accepted}

abbrev created_answer : HttpResponse
created_answer = record { status_code = 201; status = []; read = λ n. bytes [] }

abbrev willing : Http
willing = record {
  refuses = λ method url. none;
  send = λ n req. response created_answer;
  marshal = λ p. [];
  decode = λ r. decoded_id (b'i' ∷ []);
}

link-MaySync : MaySync web gateway link world
link-MaySync = record {
  calm = refl;
  below = tt;
  ends = refl;
  of_certificate = refl;
  of_target = refl;
  listed = refl;
}

abbrev cert : Text
cert = b'c' ∷ []

abbrev outcome : SyncOutcome
outcome = accepted gateway link (reply_at willing web gateway link cert cert 0) world.clock

pushes :
    (push_certificate
      (sync_client willing)
      silent
      web
      gateway
      link
      (ok (cert, cert))
      (created web gateway world)).0
    ≡ ok outcome
unfolding push_certificate accepted created time_now sync_certificate sync_sent read_id
pushes = refl

good : outcome.status ≡ success
unfolding accepted
good = refl

sync_target-Accepted_example :
    (s : Synced web gateway outcome tables
      (sync_target (sync_client willing) silent web gateway link (ok (cert, cert)) world).1.db)
    × (s.link.sync_status ≡ synced)
    × (s.link.kong_certificate_id ≢ [])
    × Accepted willing 0 gateway [] cert cert web.snis
        (kong_certificate_tags web)
        (reply_at willing web gateway link cert cert 0)
sync_target-Accepted_example =
    sync_target-Accepted willing silent web gateway link cert cert world link-MaySync outcome pushes
      good
