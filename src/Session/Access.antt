-- ===== src/Session/Access.antt =====
-- internal/web/auth.go: what a login lets pass.
use kong_gateway_cert_lite.Prelude.{
  ◌+◌, ◌*◌, ◌/◌, ◌<◌, ◌≤◌, Bool-cases, true, false, ◌≡◌, inl, inr, refl, arith, ==_self, eq_ℕ,
  eq_List, if◌then◌else◌,
}
use kong_gateway_cert_lite.Text.{Text, lit, trim_space}
use kong_gateway_cert_lite.Domain.{Time, second}
use kong_gateway_cert_lite.World.{World, ok}
use kong_gateway_cert_lite.World.Clock.{ticked, time_now_lem}
use kong_gateway_cert_lite.Session.{
  BasicAuthConfig, SessionCodec, enabled, normalized_username, unix_epoch, create_session_token,
  valid_session_cookie, safe_return_to,
}
use kong_gateway_cert_lite.Session.Token.{Faithful, create_session_token-valid_iff}
use kong_gateway_cert_lite.Session.Login.{
  LoginRequest, LoginAnswer, set, pass, stopped, turned_away, auth_session_ttl, session_auth,
  set_session_cookie, to_return, credentials_match, login_post_handler,
}

module _ (codec : SessionCodec) (cfg : BasicAuthConfig) (on : enabled cfg ≡ true) where
  -- With a login asked for, the middleware lets a request pass by its cookie alone.
  pub session_auth_lem :
      (req : LoginRequest) (w : World)
      → session_auth codec cfg req w ≡ (
        ok (
            if valid_session_cookie codec cfg req.session_cookie (ticked w).clock
            then pass
            else stopped (turned_away req)),
        ticked w,
      )
  unfolding session_auth
  session_auth_lem req w = rw on (
      rw (time_now_lem w)
        (elim (Bool-cases (valid_session_cookie codec cfg req.session_cookie (ticked w).clock)) [
          | inl e ↦ rw e refl
          | inr e ↦ rw e refl
        ]))

  -- With a login asked for and a cookie that is not valid, a request is stopped.
  pub session_auth-stops :
      (req : LoginRequest) (w : World)
      → valid_session_cookie codec cfg req.session_cookie (ticked w).clock ≡ false
      → session_auth codec cfg req w ≡ (ok (stopped (turned_away req)), ticked w)
  session_auth-stops req w invalid = rw (session_auth_lem req w) (rw invalid refl)

-- The token that a login at a time gives.
abbrev pub login_token : SessionCodec → BasicAuthConfig → Time → Text
login_token codec cfg now = create_session_token codec cfg (now + auth_session_ttl)

-- Where a login is asked for, the encodings can be undone and give texts that are not empty and
-- hold no dot, a login from 1970 on with the username, but for white space at its ends, and the
-- password of the configuration sets a cookie with a token for twelve hours; and the middleware
-- lets every request with that token pass which it sees before the second in which the twelve
-- hours end.
pub login-lets_in :
    (codec : SessionCodec) (cfg : BasicAuthConfig) (hash : Text → Text) (req next : LoginRequest)
    (w v : World)
    → Faithful codec
    → enabled cfg ≡ true
    → unix_epoch * second ≤ (ticked w).clock
    → trim_space (req.form_value (lit "username")) ≡ normalized_username cfg
    → req.form_value (lit "password") ≡ cfg.password
    → next.session_cookie ≡ login_token codec cfg (ticked w).clock
    → (ticked v).clock < ((ticked w).clock + auth_session_ttl) / second * second
    → (a : LoginAnswer) × (login_post_handler codec cfg hash req w ≡ (ok a, ticked w))
      × (a.cookie
          ≡ set
              (login_token codec cfg (ticked w).clock)
              ((ticked w).clock + auth_session_ttl)
              req.is_https)
      × (session_auth codec cfg next v ≡ (ok pass, ticked v))
unfolding login_post_handler credentials_match set_session_cookie
login-lets_in codec cfg hash req next w v faithful on late user password carries soon =
    let valid : valid_session_cookie codec cfg next.session_cookie (ticked v).clock ≡ true =
      rw carries (
        (create_session_token-valid_iff codec cfg ((ticked w).clock + auth_session_ttl)
            (ticked v).clock faithful on (omega arith)).1
          soon) in
    (
      to_return codec cfg (safe_return_to (req.form_value (lit "return_to")))
          (set_session_cookie codec cfg req (ticked w).clock),
      rw on (
          rw (time_now_lem w) (
            rw (user, password)
              (rw (==_self (hash (normalized_username cfg)), ==_self (hash cfg.password)) refl))),
      refl,
      rw (session_auth_lem codec cfg on next v) (rw valid refl),
    )
