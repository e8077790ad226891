-- ===== src/KongSync/Tests.antt =====
-- The sync of a link that Kong accepts.
use kong_gateway_cert_lite.Prelude.{[], ◌∷◌, none}
use kong_gateway_cert_lite.Domain.{Bytes}
use kong_gateway_cert_lite.World.{Result, ok}
use kong_gateway_cert_lite.KongSync.{KongCertificateSyncClient, SyncReply}
use kong_gateway_cert_lite.KongSync.Synced.{Synced}

abbrev reply : SyncReply
reply = record { kong_certificate_id = b'i' ∷ []; detail = []; error = none }

abbrev accepting : KongCertificateSyncClient
accepting = record { sync_certificate = λ n target id cert key snis tags. reply }

abbrev files : Result (Bytes × Bytes)
files = ok (b'c' ∷ [], b'k' ∷ [])
