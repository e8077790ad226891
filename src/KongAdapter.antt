-- ===== src/KongAdapter.antt =====
-- internal/adapter/kong/admin_client.go: the calls of Kong's Admin API.
pub mod Replies
pub mod Recorded
mod Tests
use kong_gateway_cert_lite.Prelude.{
  ℕ, List, [], ◌∷◌, ◌++◌, map, Bool, ◌&&◌, ◌||◌, not, Option, none, some, if◌then◌else◌, ◌==◌, eq_ℕ,
  eq_List, is_empty, keep, leb, ltb,
}
use kong_gateway_cert_lite.Text.{Text, lit, trim_space, is_blank}
use kong_gateway_cert_lite.Text.Case.{trim_end}
use kong_gateway_cert_lite.Domain.{Bytes, KongTarget, custom_header, Error, failed}
use kong_gateway_cert_lite.HttpClient.{
  HttpRequest, HttpResponse, BodyRead, bytes, broken, Sent, response, unsent, set_header,
}
use kong_gateway_cert_lite.KongSync.{SyncReply, KongCertificateSyncClient}
use kong_gateway_cert_lite.KongTarget.{CheckReply, KongAdminClient}

pub record CertificatePayload : Type 0 where
  pub cert : Text
  pub key : Text
  pub snis : List Text
  pub tags : List Text

-- Decoding the response to a sync: an id, the end of the input, or another error.
pub data Decoded : Type 0 where
  decoded_id : Text → Decoded
  end_of_file : Decoded
  malformed : Text → Decoded

-- net/http and encoding/json: whether a request can be built for a method and a URL, the answer to
-- the n-th call, the text of a payload, and what is decoded from a response.
pub record Http : Type 0 where
  pub refuses : Text → Text → Option Text
  pub send : ℕ → HttpRequest → Sent
  pub marshal : CertificatePayload → Text
  pub decode : HttpResponse → Decoded

unfoldable pub apply_auth_header : HttpRequest → KongTarget → HttpRequest
apply_auth_header req target = elim target.auth_type [
  | custom_header ↦
      if not (is_empty target.auth_header_name)
      then set_header target.auth_header_name target.auth_header_value req
      else req
  | _ ↦ req
]

abbrev spaced : Text → Text → Text
spaced a b = a ++ (lit " " ++ b)

unfoldable pub check_request : KongTarget → HttpRequest
check_request target =
    apply_auth_header
      (record { method = lit "GET"; url = target.admin_url; header = []; body = [] }) target

abbrev check_detail : KongTarget → HttpResponse → Text → Text
check_detail target r body =
    lit "GET "
    ++ (target.admin_url
        ++ (lit " -> "
            ++ (r.status ++ (if is_blank body then [] else lit "\n" ++ trim_space body))))

-- What a response to the check comes to; of its body at most 1024 bytes are read.
unfoldable pub checked : KongTarget → HttpResponse → BodyRead → CheckReply
checked target r (broken e) = record {
  detail = [];
  error = some (failed (lit "read Kong Admin API response: " ++ e));
}
checked target r (bytes body) = record {
  detail = check_detail target r body;
  error =
      if ltb r.status_code 200 || leb 400 r.status_code
      then some (failed (lit "Kong Admin API returned " ++ r.status))
      else none;
}

abbrev check_sent : KongTarget → Sent → CheckReply
check_sent target (unsent e) = record {
  detail = lit "GET " ++ (target.admin_url ++ (lit " failed: " ++ e));
  error = some (failed (lit "Kong Admin API unreachable: " ++ e));
}
check_sent target (response r) = checked target r (r.read 1024)

unfoldable pub endpoint : KongTarget → Text → Text
endpoint target existing =
    trim_end b'/' target.admin_url
    ++ (lit "/certificates" ++ (if is_blank existing then [] else lit "/" ++ existing))

unfoldable pub sync_method : Text → Text
sync_method existing = if is_blank existing then lit "POST" else lit "PATCH"

-- The id of a response, or else the one that was known.
abbrev pub id_or : Text → Text → Text
id_or id existing = if is_empty id then existing else id

abbrev pub id_reply : Text → Text → SyncReply
id_reply detail [] = record {
  kong_certificate_id = [];
  detail = detail;
  error = some (failed (lit "Kong sync response missing certificate id"));
}
id_reply detail (c ∷ id) = record { kong_certificate_id = c ∷ id; detail = detail; error = none }

unfoldable pub read_id : Text → Text → Decoded → SyncReply
read_id existing detail (decoded_id id) = id_reply detail (id_or id existing)
read_id existing detail end_of_file = record {
  kong_certificate_id = existing;
  detail = detail;
  error =
      if not (is_blank existing) then none else some (failed (lit "parse Kong sync response: EOF"));
}
read_id existing detail (malformed e) = record {
  kong_certificate_id = existing;
  detail = detail;
  error = some (failed (lit "parse Kong sync response: " ++ e));
}

-- `resp.StatusCode < http.StatusOK || resp.StatusCode >= http.StatusMultipleChoices`
abbrev pub is_refusal : HttpResponse → Bool
is_refusal r = ltb r.status_code 200 || leb 300 r.status_code

-- A request that cannot be built is not sent.
abbrev pub unless_refused : Option Text → SyncReply → SyncReply
unless_refused (some e) reply = record {
  kong_certificate_id = [];
  detail = [];
  error = some (failed (lit "build Kong sync request: " ++ e));
}
unless_refused none reply = reply

module _ (http : Http) where
  unfoldable pub check_connection : ℕ → KongTarget → CheckReply
  check_connection n target = elim (http.refuses (lit "GET") target.admin_url) [
    | some e ↦ record {
      detail = [];
      error = some (failed (lit "build Kong Admin API request: " ++ e));
    }
    | none ↦ check_sent target (http.send n (check_request target))
  ]

  unfoldable pub sync_request :
      KongTarget → Text → Text → Text → List Text → List Text → HttpRequest
  sync_request target existing cert key snis tags =
      apply_auth_header
        (set_header (lit "Content-Type") (lit "application/json") (record {
          method = sync_method existing;
          url = endpoint target existing;
          header = [];
          body = http.marshal (record { cert = cert; key = key; snis = snis; tags = tags });
        }))
        target

  abbrev sync_detail : KongTarget → Text → Text → Text
  sync_detail target existing end = spaced (sync_method existing) (endpoint target existing) ++ end

  unfoldable pub sync_sent : KongTarget → Text → Sent → SyncReply
  sync_sent target existing (unsent e) = record {
    kong_certificate_id = existing;
    detail = sync_detail target existing (lit " failed: " ++ e);
    error = some (failed (lit "Kong certificate sync failed: " ++ e));
  }
  sync_sent target existing (response r) =
      if is_refusal r
      then record {
        kong_certificate_id = existing;
        detail = sync_detail target existing (lit " -> " ++ r.status);
        error = some (failed (lit "Kong certificate sync returned " ++ r.status));
      }
      else read_id existing (sync_detail target existing (lit " -> " ++ r.status)) (http.decode r)

  unfoldable pub sync_certificate :
      ℕ → KongTarget → Text → Text → Text → List Text → List Text → SyncReply
  sync_certificate n target existing cert key snis tags =
      unless_refused (http.refuses (sync_method existing) (endpoint target existing))
        (sync_sent target existing (http.send n (sync_request target existing cert key snis tags)))

  -- The client as the use cases see it.
  abbrev pub sync_client : KongCertificateSyncClient
  sync_client = record { sync_certificate = sync_certificate }

  abbrev pub admin_client : KongAdminClient
  admin_client = record { check_connection = check_connection }
