-- ===== src/Session/Tests.antt =====
-- A token of a toy codec, and paths after a login.
use kong_gateway_cert_lite.Prelude.{
  ◌+◌, ◌-◌, ◌*◌, ◌/◌, ◌<◌, ◌≤◌, list_eq, eq_List, [], ◌∷◌, true, false, Option, none, some, ◌≡◌,
  ◌↔◌, refl, arith, is_empty, ◌==◌, eq_ℕ, if◌then◌else◌,
}
use kong_gateway_cert_lite.Prelude.Int.{ℤ, pos, negsuc}
use kong_gateway_cert_lite.Text.{Text, lit, trim_space, is_space}
use kong_gateway_cert_lite.Text.Split.{Free}
use kong_gateway_cert_lite.Domain.{second, day}
use kong_gateway_cert_lite.Session.{
  BasicAuthConfig, SessionPayload, SessionCodec, enabled, create_session_token,
  valid_session_cookie, normalized_username, unix_epoch,
}
use kong_gateway_cert_lite.Session.Token.{
  Faithful, Signed, create_session_token-valid_iff, valid-Signed,
}
use kong_gateway_cert_lite.World.{ok}
use kong_gateway_cert_lite.World.Clock.{ticked, clock-ticked_still}
use kong_gateway_cert_lite.Samples.{world}
use kong_gateway_cert_lite.Session.Login.{
  LoginRequest, LoginAnswer, set, pass, auth_session_ttl, session_auth, login_post_handler,
}
use kong_gateway_cert_lite.Session.Access.{login_token, login-lets_in}

-- A codec that keeps each number above the code of a dot.
abbrev shift : Text → Text
shift [] = []
shift (c ∷ s) = (c + 47) ∷ shift s

abbrev unshift : Text → Text
unshift [] = []
unshift (c ∷ s) = (c - 47) ∷ unshift s

abbrev encode_toy : SessionPayload → Text
encode_toy p = elim p.expires_at [
  | pos n ↦ 47 ∷ shift (n ∷ p.username)
  | negsuc n ↦ 48 ∷ shift (n ∷ p.username)
]

abbrev decode_toy : Text → Option SessionPayload
decode_toy (t ∷ n ∷ s) = some (record {
  username = unshift s;
  expires_at = if t == 47 then pos (n - 47) else negsuc (n - 47);
})
decode_toy _ = none

abbrev toy : SessionCodec
toy = record { encode = encode_toy; decode = decode_toy; sign = λ key text. 1 ∷ [] }

unshift-shift : (s : Text) → unshift (shift s) ≡ s
unshift-shift [] = refl
unshift-shift (c ∷ s) = ground (arith, unshift-shift s)

shift-Free : (s : Text) → Free b'.' (shift s)
shift-Free [] = tt
shift-Free (c ∷ s) = (ground arith, shift-Free s)

decode_toy-encode_toy :
    (u : Text) (z : ℤ)
    → decode_toy (encode_toy (record { username = u; expires_at = z }))
      ≡ some (record { username = u; expires_at = z })
decode_toy-encode_toy u (pos n) = ground (arith, unshift-shift u)
decode_toy-encode_toy u (negsuc n) = ground (arith, unshift-shift u)

encode_toy-Free :
    (u : Text) (z : ℤ) → Free b'.' (encode_toy (record { username = u; expires_at = z }))
encode_toy-Free u (pos n) = (ground arith, (ground arith, shift-Free u))
encode_toy-Free u (negsuc n) = (ground arith, (ground arith, shift-Free u))

encode_toy_full :
    (u : Text) (z : ℤ) → is_empty (encode_toy (record { username = u; expires_at = z })) ≡ false
encode_toy_full u (pos n) = refl
encode_toy_full u (negsuc n) = refl

toy-Faithful : Faithful toy
toy-Faithful = record {
  decode-encode = λ p. decode_toy-encode_toy p.username p.expires_at;
  no_dot = λ p. encode_toy-Free p.username p.expires_at;
  full = λ p. encode_toy_full p.username p.expires_at;
  signed = λ key text. refl;
}

abbrev operator : BasicAuthConfig
operator = record { username = b'o' ∷ []; password = b'p' ∷ [] }

operator-enabled : enabled operator ≡ true
unfolding enabled trim_space is_space
operator-enabled = refl

create_session_token-valid_iff_example :
    (valid_session_cookie toy operator
        (create_session_token toy operator (740000 * day))
        (739999 * day)
      ≡ true)
    ↔ (739999 * day < 740000 * day / second * second)
create_session_token-valid_iff_example =
    create_session_token-valid_iff toy operator (740000 * day) (739999 * day) toy-Faithful
      operator-enabled (omega arith)

unexpired : 739999 * day < 740000 * day / second * second
unexpired = omega arith

still_valid :
    valid_session_cookie toy operator
      (create_session_token toy operator (740000 * day))
      (739999 * day)
    ≡ true
still_valid =
    (create_session_token-valid_iff toy operator (740000 * day) (739999 * day) toy-Faithful
        operator-enabled (omega arith)).1
      unexpired

valid-Signed_example :
    (enabled operator ≡ true)
    × Signed toy operator (create_session_token toy operator (740000 * day)) (739999 * day)
valid-Signed_example =
    valid-Signed toy operator (create_session_token toy operator (740000 * day)) (739999 * day)
      (still_valid)

-- A login with the right words, and a request with the cookie that it set.
abbrev with_cookie : Text → LoginRequest
with_cookie cookie = record {
  session_cookie = cookie;
  accept = [];
  original_url = [];
  query = λ name. [];
  form_value = λ name. if name == lit "username" then b'o' ∷ [] else b'p' ∷ [];
  is_https = true;
}

abbrev came : LoginRequest
came = with_cookie (login_token toy operator (ticked world).clock)

given_username : trim_space (came.form_value (lit "username")) ≡ normalized_username operator
unfolding lit trim_space is_space list_eq
given_username = refl

given_password : came.form_value (lit "password") ≡ operator.password
unfolding lit list_eq
given_password = refl

login_late : unix_epoch * second ≤ (ticked world).clock
login_late = rw (clock-ticked_still world refl) (omega arith)

login_soon : (ticked world).clock < ((ticked world).clock + auth_session_ttl) / second * second
login_soon = rw (clock-ticked_still world refl) (omega arith)

login-lets_in_example :
    (a : LoginAnswer) × (login_post_handler toy operator (λ s. s) came world ≡ (ok a, ticked world))
    × (a.cookie
        ≡ set
            (login_token toy operator (ticked world).clock)
            ((ticked world).clock + auth_session_ttl)
            true)
    × (session_auth toy operator came world ≡ (ok pass, ticked world))
login-lets_in_example =
    login-lets_in toy operator (λ s. s) came came world world toy-Faithful operator-enabled
      login_late given_username given_password refl login_soon
