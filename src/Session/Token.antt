-- ===== src/Session/Token.antt =====
-- Which tokens are valid.
use kong_gateway_cert_lite.Prelude.{
  ◌*◌, ◌/◌, ◌<◌, ◌≤◌, [], ◌∷◌, ◌++◌, true, false, Option, none, some, ◌≡◌, ◌↔◌, refl, arith, ◌==◌,
  ==_iff, ==_self, eq_ℕ, eq_List, is_empty,
}
use kong_gateway_cert_lite.Text.{Text}
use kong_gateway_cert_lite.Text.Split.{Free}
use kong_gateway_cert_lite.Domain.{Time, second}
use kong_gateway_cert_lite.Session.{
  BasicAuthConfig, SessionPayload, SessionCodec, enabled, normalized_username, signing_key,
  unix_epoch, to_unix, from_unix, cut_dot, create_session_token, valid_payload, valid_parts,
  valid_session_cookie,
}

-- What the encoders promise: a payload can be read back, and a URL-safe text holds no dot and is not
-- empty.
pub record Faithful (codec : SessionCodec) : Type 0 where
  pub decode-encode : (p : SessionPayload) → codec.decode (codec.encode p) ≡ some p
  pub no_dot : (p : SessionPayload) → Free b'.' (codec.encode p)
  pub full : (p : SessionPayload) → is_empty (codec.encode p) ≡ false
  pub signed : (key text : Text) → is_empty (codec.sign key text) ≡ false

cut_dot-append : (a b : Text) → Free b'.' a → cut_dot (a ++ b'.' ∷ b) ≡ some (a, b)
unfolding cut_dot
cut_dot-append [] b h = refl
cut_dot-append (c ∷ a) b h = ground (arith, cut_dot-append a b h.1)

token_full : (a b : Text) → is_empty (a ++ b'.' ∷ b) ≡ false
token_full [] b = refl
token_full (c ∷ a) b = refl

seconds_kept : (t : Time) → unix_epoch * second ≤ t → from_unix (to_unix t) ≡ t / second * second
seconds_kept t h = ground arith

-- Where the encodings can be undone and give texts that are not empty and hold no dot, a token
-- that is created for an enabled configuration, with an expiry from 1970 on, is valid for it
-- before the second of its expiry and not from then on.
pub create_session_token-valid_iff :
    (codec : SessionCodec) (cfg : BasicAuthConfig) (expires now : Time)
    → Faithful codec
    → enabled cfg ≡ true
    → unix_epoch * second ≤ expires
    → (valid_session_cookie codec cfg (create_session_token codec cfg expires) now ≡ true)
      ↔ (now < expires / second * second)
unfolding valid_session_cookie create_session_token valid_parts valid_payload
create_session_token-valid_iff codec cfg expires now faithful on late =
    let p : SessionPayload = record {
      username = normalized_username cfg;
      expires_at = to_unix expires;
    } in
    let payload = codec.encode p in
    let signature = codec.sign (signing_key cfg) payload in
    rw (token_full payload signature, cut_dot-append payload signature (faithful.no_dot p))
      (rw
        (
          on,
          faithful.full p,
          faithful.signed (signing_key cfg) payload,
          ==_self signature,
          faithful.decode-encode p,
        )
        (rw (==_self (normalized_username cfg), seconds_kept expires late) (ground arith)))

-- A token under the signature of its payload, whose payload names the configuration's user and a
-- time of expiry that has not come.
pub record Signed (codec : SessionCodec) (cfg : BasicAuthConfig) (token : Text) (now : Time)
    : Type 0 where
  pub payload : Text
  pub signature : Text
  pub session : SessionPayload
  pub cut : cut_dot token ≡ some (payload, signature)
  pub signs : signature ≡ codec.sign (signing_key cfg) payload
  pub decoded : codec.decode payload ≡ some session
  pub user : session.username ≡ normalized_username cfg
  pub fresh : now < from_unix session.expires_at

module _ (codec : SessionCodec) (cfg : BasicAuthConfig) (token : Text) (now : Time) where
  payload-Signed :
      (payload signature : Text) (o : Option SessionPayload)
      → cut_dot token ≡ some (payload, signature)
      → (signature == codec.sign (signing_key cfg) payload) ≡ true
      → codec.decode payload ≡ o
      → valid_payload codec cfg now o ≡ true
      → Signed codec cfg token now
  unfolding valid_payload
  payload-Signed payload signature none cut signs e h = cc
  payload-Signed payload signature (some session) cut signs e h = record {
    payload = payload;
    signature = signature;
    session = session;
    cut = cut;
    signs = (==_iff signature (codec.sign (signing_key cfg) payload)).0 signs;
    decoded = e;
    user = (==_iff session.username (normalized_username cfg)).0 (ground arith);
    fresh = ground arith;
  }

  parts-Signed :
      (o : Option (Text × Text))
      → cut_dot token ≡ o
      → valid_parts codec cfg now o ≡ true
      → Signed codec cfg token now
  unfolding valid_parts
  parts-Signed none cut h = cc
  parts-Signed (some (payload, signature)) cut h =
      payload-Signed payload signature (codec.decode payload) cut (ground arith) refl (ground arith)

-- A token that a configuration finds valid carries the signature of its payload under the key of the
-- configuration, which is enabled, and its payload names the configuration's user and a time of
-- expiry that has not come.
pub valid-Signed :
    (codec : SessionCodec) (cfg : BasicAuthConfig) (token : Text) (now : Time)
    → valid_session_cookie codec cfg token now ≡ true
    → (enabled cfg ≡ true) × Signed codec cfg token now
unfolding valid_session_cookie
valid-Signed codec cfg token now h =
    (ground arith, parts-Signed codec cfg token now (cut_dot token) refl (ground arith))
