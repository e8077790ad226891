-- ===== src/Session.antt =====
-- internal/web/auth.go: the session token, and where a login leads to.
pub mod Token
pub mod ReturnTo
pub mod Login
pub mod Access
mod Tests
use kong_gateway_cert_lite.Prelude.{
  ℕ, suc, ◌+◌, ◌-◌, ◌*◌, ◌/◌, List, [], ◌∷◌, ◌++◌, Bool, true, false, ◌&&◌, ◌||◌, not, Option, none,
  some, if◌then◌else◌, ◌==◌, eq_ℕ, eq_List, ltb, is_empty,
}
use kong_gateway_cert_lite.Prelude.Int.{ℤ, pos, negsuc, sub_ℕ}
use kong_gateway_cert_lite.Text.{Text, lit, trim_space, is_blank, has_prefix}
use kong_gateway_cert_lite.Domain.{Time, second}

pub record BasicAuthConfig : Type 0 where
  pub username : Text
  pub password : Text

pub record SessionPayload : Type 0 where
  pub username : Text
  pub expires_at : ℤ

-- encoding/json and encoding/base64 on a payload, and the signature of a text under a key, that is
-- crypto/hmac and crypto/sha256 with encoding/base64.
pub record SessionCodec : Type 0 where
  pub encode : SessionPayload → Text
  pub decode : Text → Option SessionPayload
  pub sign : Text → Text → Text

unfoldable pub enabled : BasicAuthConfig → Bool
enabled cfg = not (is_blank cfg.username) && not (is_empty cfg.password)

abbrev pub normalized_username : BasicAuthConfig → Text
normalized_username cfg = trim_space cfg.username

-- What `signingKey` hashes; the hash is part of `sign`.
abbrev pub signing_key : BasicAuthConfig → Text
signing_key cfg = normalized_username cfg ++ 0 ∷ cfg.password

-- Seconds from the start of year 1 to that of 1970.
abbrev pub unix_epoch : ℕ
unix_epoch = 62135596800

-- `t.Unix()` and `time.Unix(s, 0)`; a time before year 1 becomes its start, which has passed as well.
abbrev pub to_unix : Time → ℤ
to_unix t = sub_ℕ (t / second) unix_epoch

abbrev pub from_unix : ℤ → Time
from_unix (pos s) = (unix_epoch + s) * second
from_unix (negsuc s) = (unix_epoch - suc s) * second

-- strings.Cut at the first dot
unfoldable pub cut_dot : Text → Option (Text × Text)
cut_dot [] = none
cut_dot (c ∷ s) =
    let rest = cut_dot s in
    if c == b'.' then some ([], s) else elim rest [ none ↦ none | some (a, b) ↦ some (c ∷ a, b) ]

module _ (codec : SessionCodec) (cfg : BasicAuthConfig) where
  unfoldable pub create_session_token : Time → Text
  create_session_token expires =
      let payload =
        codec.encode
          (record { username = normalized_username cfg; expires_at = to_unix expires }) in
      payload ++ b'.' ∷ codec.sign (signing_key cfg) payload

  -- The tests of a payload that was signed.
  unfoldable pub valid_payload : Time → Option SessionPayload → Bool
  valid_payload now none = false
  valid_payload now (some session) =
      ltb now (from_unix session.expires_at) && session.username == normalized_username cfg

  unfoldable pub valid_parts : Time → Option (Text × Text) → Bool
  valid_parts now none = false
  valid_parts now (some (payload, signature)) =
      not (is_empty payload || is_empty signature)
      && (signature == codec.sign (signing_key cfg) payload
          && valid_payload now (codec.decode payload))

  unfoldable pub valid_session_cookie : Text → Time → Bool
  valid_session_cookie token now =
      enabled cfg && (not (is_empty token) && valid_parts now (cut_dot token))

unfoldable pub safe_return_to : Text → Text
safe_return_to value =
    let path = trim_space value in
    if is_empty path
      || (not (has_prefix (lit "/") path)
          || (has_prefix (lit "//") path || has_prefix (lit "/login") path))
    then lit "/certificates"
    else path
