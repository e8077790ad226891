-- ===== src/KongAdapter/Replies.antt =====
-- internal/adapter/kong/admin_client.go: which responses are taken as a success.
use kong_gateway_cert_lite.Prelude.{
  ℕ, ◌≤◌, ◌<◌, List, [], ◌∷◌, Bool, true, false, Option, none, some, ◌≡◌, ◌≢◌, refl, arith,
  if◌then◌else◌,
}
use kong_gateway_cert_lite.Text.{Text, is_blank, trim_space}
use kong_gateway_cert_lite.Domain.{KongTarget}
use kong_gateway_cert_lite.KongSync.{SyncReply}
use kong_gateway_cert_lite.HttpClient.{HttpRequest, HttpResponse, Sent, response, unsent}
use kong_gateway_cert_lite.KongAdapter.{
  Http, Decoded, decoded_id, end_of_file, malformed, id_or, id_reply, is_refusal, unless_refused,
  sync_method, endpoint, sync_request, sync_sent, sync_certificate, read_id,
}

blank-nil : (s : Text) → is_blank s ≡ false → s ≢ []
unfolding trim_space
blank-nil [] h = cc
blank-nil (c ∷ s) h = λ e. cc (e)

id_reply-gives :
    (detail id : Text)
    → (id_reply detail id).error ≡ none
    → (id_reply detail id).kong_certificate_id ≢ []
id_reply-gives detail [] e = cc
id_reply-gives detail (c ∷ id) e = λ h. cc (h)

-- A response without error gives an id.
read_id-gives :
    (existing detail : Text) (d : Decoded)
    → (read_id existing detail d).error ≡ none
    → (read_id existing detail d).kong_certificate_id ≢ []
unfolding read_id
read_id-gives existing detail (decoded_id id) e = id_reply-gives detail (id_or id existing) e
read_id-gives existing detail end_of_file e = ground (arith, blank-nil existing)
read_id-gives existing detail (malformed x) e = cc

-- What a sync that reports no error rests on: a response with a status from 200 to 299 to the one
-- request that was sent, and an id.
pub record Accepted (http : Http) (n : ℕ) (target : KongTarget) (existing cert key : Text)
    (snis tags : List Text) (reply : SyncReply) : Type 0 where
  pub answer : HttpResponse
  pub sent : http.send n (sync_request http target existing cert key snis tags) ≡ response answer
  pub from : 200 ≤ answer.status_code
  pub below : answer.status_code < 300
  pub id : reply.kong_certificate_id ≢ []

module _ (http : Http) (n : ℕ) (target : KongTarget) (existing cert key : Text)
    (snis tags : List Text) where
  abbrev request : HttpRequest
  request = sync_request http target existing cert key snis tags

  answered-Accepted :
      (r : HttpResponse) (refusal : Bool) (bad good : SyncReply)
      → http.send n request ≡ response r
      → is_refusal r ≡ refusal
      → (bad.error ≢ none)
      → (good.error ≡ none → good.kong_certificate_id ≢ [])
      → (if refusal then bad else good).error ≡ none
      → Accepted http n target existing cert key snis tags (if refusal then bad else good)
  answered-Accepted r true bad good e range never gives fine = absurd (never fine)
  answered-Accepted r false bad good e range never gives fine = record {
    answer = r;
    sent = e;
    from = ground arith;
    below = ground arith;
    id = gives fine;
  }

  sync_sent-Accepted :
      (s : Sent)
      → http.send n request ≡ s
      → (sync_sent http target existing s).error ≡ none
      → Accepted http n target existing cert key snis tags (sync_sent http target existing s)
  unfolding sync_sent
  sync_sent-Accepted (unsent x) e fine = cc
  sync_sent-Accepted (response r) e fine =
      answered-Accepted r (is_refusal r) _ _ e refl (λ h. cc (h))
        (read_id-gives existing _ (http.decode r)) fine

  -- A sync that reports no error has sent its request, was answered with a status from 200 to 299,
  -- and gives an id.
  pub sync_certificate-Accepted :
      (sync_certificate http n target existing cert key snis tags).error ≡ none
      → Accepted http n target existing cert key snis tags
          (sync_certificate http n target existing cert key snis tags)
  unfolding sync_certificate
  sync_certificate-Accepted fine =
      built (http.refuses (sync_method existing) (endpoint target existing)) fine
    where
      built :
          (o : Option Text)
          → (unless_refused o (sync_sent http target existing (http.send n request))).error ≡ none
          → Accepted http n target existing cert key snis tags
              (unless_refused o (sync_sent http target existing (http.send n request)))
      built none e = sync_sent-Accepted (http.send n request) refl e
      built (some x) e = cc
