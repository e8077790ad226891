-- ===== src/Session/Login.antt =====
-- internal/web/auth.go: the middleware, and the handlers of login and logout.
use kong_gateway_cert_lite.Prelude.{
  ℕ, ◌+◌, ◌*◌, [], ◌++◌, Bool, true, ◌&&◌, ◌||◌, not, if◌then◌else◌, ◌==◌, eq_ℕ, eq_List, is_empty,
}
use kong_gateway_cert_lite.Text.{Text, lit, trim_space, has_prefix}
use kong_gateway_cert_lite.Text.Case.{contains_text}
use kong_gateway_cert_lite.Text.Query.{query_escape}
use kong_gateway_cert_lite.Text.Number.{two_digits}
use kong_gateway_cert_lite.Calendar.{hour_of, minute_of}
use kong_gateway_cert_lite.Domain.{Time, second}
use kong_gateway_cert_lite.World.{M, pure, ◌>>=◌, time_now}
use kong_gateway_cert_lite.Session.{
  BasicAuthConfig, SessionCodec, enabled, normalized_username, create_session_token,
  valid_session_cookie, safe_return_to,
}

abbrev pub auth_session_ttl : Time
auth_session_ttl = 43_200 * second

-- What the handlers read of a request.
pub record LoginRequest : Type 0 where
  pub session_cookie : Text
  pub accept : Text
  pub original_url : Text
  pub query : Text → Text
  pub form_value : Text → Text
  pub is_https : Bool

pub record LoginPage : Type 0 where
  pub title : Text
  pub return_to : Text
  pub error : Text
  pub has_auth : Bool
  pub username : Text
  pub current_utc : Text

-- The session cookie of an answer: left alone, set until a time, or made to expire.
pub data SessionCookie : Type 0 where
  kept : SessionCookie
  set : Text → Time → Bool → SessionCookie
  cleared : Bool → SessionCookie

pub data LoginBody : Type 0 where
  redirected : ℕ → Text → LoginBody
  login_form : ℕ → LoginPage → LoginBody
  status_only : ℕ → LoginBody

pub record LoginAnswer : Type 0 where
  pub body : LoginBody
  pub cookie : SessionCookie

-- `c.Next()`, or an answer.
pub data Passage : Type 0 where
  pass : Passage
  stopped : LoginAnswer → Passage

unfoldable pub wants_html : LoginRequest → Bool
wants_html req =
    is_empty req.accept
    || (contains_text req.accept (lit "text/html") || contains_text req.accept (lit "*/*"))

abbrev return_url : Text → Text
return_url url =
    if is_empty url || (url == lit "/" || has_prefix (lit "/login") url)
    then lit "/certificates"
    else url

-- The answer to a request without a valid session.
unfoldable pub turned_away : LoginRequest → LoginAnswer
turned_away req =
    if wants_html req
    then record {
      body = redirected 303 (lit "/login?return_to=" ++ query_escape (return_url req.original_url));
      cookie = kept;
    }
    else record { body = status_only 401; cookie = kept }

-- Format("15:04 UTC")
abbrev clock_text : Time → Text
clock_text t = two_digits (hour_of t) ++ (lit ":" ++ (two_digits (minute_of t) ++ lit " UTC"))

unfoldable pub logout : LoginRequest → LoginAnswer
logout req = record { body = redirected 303 (lit "/login"); cookie = cleared req.is_https }

module _ (codec : SessionCodec) (cfg : BasicAuthConfig) where
  -- The middleware reads the clock where a login is asked for.
  unfoldable pub session_auth : LoginRequest → M Passage
  session_auth req = if not (enabled cfg) then pure pass else do
    now ← time_now
    (if valid_session_cookie codec cfg req.session_cookie now
        then pure pass
        else pure (stopped (turned_away req)))

  abbrev login_page_at : LoginRequest → Time → LoginAnswer
  login_page_at req now = record {
    body = login_form 200 (record {
      title = lit "Login";
      return_to = safe_return_to (req.query (lit "return_to"));
      error = [];
      has_auth = enabled cfg;
      username = [];
      current_utc = clock_text now;
    });
    cookie = kept;
  }

  abbrev pub to_return : Text → SessionCookie → LoginAnswer
  to_return path cookie = record { body = redirected 303 path; cookie = cookie }

  abbrev show_login : LoginRequest → M LoginAnswer
  show_login req = do now ← time_now; pure (login_page_at req now)

  unfoldable pub login_page_handler : LoginRequest → M LoginAnswer
  login_page_handler req = if not (enabled cfg) then show_login req else do
    now ← time_now
    (if valid_session_cookie codec cfg req.session_cookie now
        then pure (to_return (safe_return_to (req.query (lit "return_to"))) kept)
        else show_login req)

  unfoldable pub set_session_cookie : LoginRequest → Time → SessionCookie
  set_session_cookie req now =
      set (create_session_token codec cfg (now + auth_session_ttl)) (now + auth_session_ttl)
        req.is_https

  abbrev wrong_login : LoginRequest → Time → LoginAnswer
  wrong_login req now = record {
    body = login_form 401 (record {
      title = lit "Login";
      return_to = safe_return_to (req.form_value (lit "return_to"));
      error = lit "Username or password is incorrect.";
      has_auth = true;
      username = trim_space (req.form_value (lit "username"));
      current_utc = clock_text now;
    });
    cookie = kept;
  }

  -- `sha256.Sum256`
  module _ (hash : Text → Text) where
    unfoldable pub credentials_match : Text → Text → Bool
    credentials_match username password =
        hash username == hash (normalized_username cfg) && hash password == hash cfg.password

    unfoldable pub login_post_handler : LoginRequest → M LoginAnswer
    login_post_handler req =
        let return_to = safe_return_to (req.form_value (lit "return_to")) in
        if not (enabled cfg) then pure (to_return return_to kept) else do
          now ← time_now
          pure (
              if credentials_match (trim_space (req.form_value (lit "username")))
                (req.form_value (lit "password"))
              then to_return return_to (set_session_cookie req now)
              else wrong_login req now)
