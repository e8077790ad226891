-- ===== src/Web/Guarded.antt =====
-- internal/web/routes.go: what a request without a valid session can reach.
use kong_gateway_cert_lite.Prelude.{
  List, [], ◌∷◌, ◌++◌, true, false, Option-cases, ◌≡◌, ◌≢◌, All, inl, inr, refl,
}
use kong_gateway_cert_lite.Text.{Text}
use kong_gateway_cert_lite.World.{World, M, Result, ok, err, pure, proceed}
use kong_gateway_cert_lite.World.Clock.{ticked, ticked-db}
use kong_gateway_cert_lite.World.Quiet.{Quiet, Returned, quiet_rules}
use kong_gateway_cert_lite.Session.{BasicAuthConfig, SessionCodec, enabled, valid_session_cookie}
use kong_gateway_cert_lite.Session.Login.{
  LoginRequest, LoginAnswer, turned_away, login_page_handler, login_post_handler,
}
use kong_gateway_cert_lite.Session.Access.{session_auth-stops}
use kong_gateway_cert_lite.Web.Answer.{Handler}
use kong_gateway_cert_lite.Web.Routes.{
  Incoming, Served, healthy, from_login, answered, static_file, unrouted, Router, Layer, route,
  files, guard, serve, app, public_routes, guarded_routes, through,
}

-- The health check, an answer of the login's handlers, a redirect to the login included, or a
-- static file.
abbrev pub IsPublic : Served → Type 0
IsPublic healthy = Unit
IsPublic (from_login a) = Unit
IsPublic (static_file content) = Unit
IsPublic (answered a) = ⊥
IsPublic unrouted = ⊥

-- What is served is public, and no table has changed.
record Public (w : World) (r : Result Served × World) : Type 0 where
  served : Served
  value : r.0 ≡ ok served
  is_public : IsPublic served
  db : r.1.db ≡ w.db

Public-login :
    (w : World) (r : Result LoginAnswer × World)
    → Returned w r
    → Public w (proceed (λ a. pure (from_login a)) r)
Public-login w (ok a, v) h = record {
  served = from_login a;
  value = refl;
  is_public = tt;
  db = h.db;
}
Public-login w (err e, v) h = cc (h.value)

module _ (codec : SessionCodec) (cfg : BasicAuthConfig) where
  Quiet-login_page : (req : LoginRequest) → Quiet (login_page_handler codec cfg req)
  unfolding login_page_handler
  Quiet-login_page req = search quiet_rules

  Quiet-login_post :
      (hash : Text → Text) (req : LoginRequest) → Quiet (login_post_handler codec cfg hash req)
  unfolding login_post_handler
  Quiet-login_post hash req = search quiet_rules

  -- A layer that serves nothing but public things by itself.
  abbrev Harmless : World → Layer → Type 0
  Harmless w (route method pattern run) = (q : Incoming) → Public w (run q w)
  Harmless w files = Unit
  Harmless w guard = Unit

  module _ (router : Router) (w : World) (req : Incoming) (next : Incoming → M Served)
      (rest : Public w (next req w)) where
    through-Public :
        (layer : Layer)
        → Harmless w layer
        → layer ≢ guard
        → Public w (through router codec cfg layer next req w)
    through-Public (route method pattern run) handler other =
        elim (Option-cases (router.matches method pattern req)) [
          | inl e ↦ rw (e, through) rest
          | inr (params, e) ↦ rw (e, through) (handler _)
        ]
    through-Public files harmless other = elim (Option-cases (router.file req)) [
      | inl e ↦ rw (e, through) rest
      | inr (content, e) ↦
          rw (e, through)
            (record { served = static_file content; value = refl; is_public = tt; db = refl })
    ]
    through-Public guard harmless other = absurd (other refl)

  -- Harmless layers before the middleware, and any behind it.
  serve-Public :
      (router : Router) (w : World) (req : Incoming) (layers hidden : List Layer)
      → enabled cfg ≡ true
      → valid_session_cookie codec cfg req.login.session_cookie (ticked w).clock ≡ false
      → All (λ l. Harmless w l × (l ≢ guard)) layers
      → Public w (serve router codec cfg (layers ++ guard ∷ hidden) req w)
  unfolding serve
  serve-Public router w req [] hidden on invalid all =
      rw (session_auth-stops codec cfg on req.login w invalid) (record {
        served = from_login (turned_away req.login);
        value = refl;
        is_public = tt;
        db = ticked-db w;
      })
  serve-Public router w req (layer ∷ layers) hidden on invalid all =
      through-Public router w req (serve router codec cfg (layers ++ guard ∷ hidden))
        (serve-Public router w req layers hidden on invalid all.1) layer all.0.0 all.0.1

-- Where a login is asked for, a request whose session cookie is not valid at the time when the
-- middleware would read the clock reaches none of the pages and operations, whatever the router
-- matches: what is served is the health check, an answer of the login's handlers or a redirect to
-- the login or a refusal, or a static file, and no table changes.
pub app-guards :
    (router : Router) (codec : SessionCodec) (cfg : BasicAuthConfig) (h : Handler) (req : Incoming)
    (w : World)
    → enabled cfg ≡ true
    → valid_session_cookie codec cfg req.login.session_cookie (ticked w).clock ≡ false
    → (s : Served) × ((app router codec cfg h req w).0 ≡ ok s)
      × IsPublic s
      × ((app router codec cfg h req w).1.db ≡ w.db)
unfolding app
app-guards router codec cfg h req w on invalid =
    let public =
      serve-Public codec cfg router w req (public_routes router codec cfg)
        (guarded_routes router codec cfg h) on invalid
        (
          (λ q. record { served = healthy; value = refl; is_public = tt; db = refl }, λ e. cc (e)),
          (
            (λ q. Public-login w _ ((Quiet-login_page codec cfg q.login).at w), λ e. cc (e)),
            (
              (
                λ q. Public-login w _ ((Quiet-login_post codec cfg router.hash q.login).at w),
                λ e. cc (e),
              ),
              ((tt, λ e. cc (e)), tt),
            ),
          ),
        ) in
    (public.served, public.value, public.is_public, public.db)
