-- ===== src/Web/Routes.antt =====
-- internal/web/routes.go: the routes, in the order in which they are registered.
use kong_gateway_cert_lite.Prelude.{List, [], ◌∷◌, ◌++◌, Option, none, some, String}
use kong_gateway_cert_lite.Text.{Text, lit}
use kong_gateway_cert_lite.World.{M, pure, ◌>>=◌}
use kong_gateway_cert_lite.Session.{BasicAuthConfig, SessionCodec}
use kong_gateway_cert_lite.Session.Login.{
  LoginRequest, LoginAnswer, Passage, pass, stopped, session_auth, login_page_handler,
  login_post_handler, logout,
}
use kong_gateway_cert_lite.Web.Answer.{Handler, Request, Answer}
use kong_gateway_cert_lite.Web.Certificates
use kong_gateway_cert_lite.Web.Actions
use kong_gateway_cert_lite.Web.KongTargets
use kong_gateway_cert_lite.Web.Jobs

-- A request as the router sees it, with what the handlers read of it.
pub record Incoming : Type 0 where
  pub method : Text
  pub path : Text
  pub request : Request
  pub login : LoginRequest

-- What is served: `{"status":"ok"}`, an answer of the login's handlers or of the others, a static
-- file, or the router's own error.
pub data Served : Type 0 where
  healthy : Served
  from_login : LoginAnswer → Served
  answered : Answer → Served
  static_file : Text → Served
  unrouted : Served

-- Fiber's router, which says with which parameters a pattern of a method matches; its file system
-- middleware, which passes a request on where there is no file; and crypto/sha256.
pub record Router : Type 0 where
  pub matches : Text → Text → Incoming → Option (Text → Text)
  pub file : Incoming → Option Text
  pub hash : Text → Text

-- `app.Get` and `app.Post`; `app.Use` for the static files and for the middleware.
pub data Layer : Type 0 where
  route : Text → Text → (Incoming → M Served) → Layer
  files : Layer
  guard : Layer

abbrev with_params : (Text → Text) → Incoming → Incoming
with_params params req = record req { request = record req.request { params = params } }

abbrev serving : M Answer → M Served
serving m = do a ← m; pure (answered a)

abbrev serving_login : M LoginAnswer → M Served
serving_login m = do a ← m; pure (from_login a)

abbrev by : (Request → M Answer) → Incoming → M Served
by run req = serving (run req.request)

abbrev get : String → (Incoming → M Served) → Layer
get pattern run = route (lit "GET") (lit pattern) run

abbrev post : String → (Incoming → M Served) → Layer
post pattern run = route (lit "POST") (lit pattern) run

module _ (router : Router) (codec : SessionCodec) (cfg : BasicAuthConfig) where
  abbrev pub passing : (Incoming → M Served) → Incoming → Passage → M Served
  passing next req pass = next req
  passing next req (stopped answer) = pure (from_login answer)

  -- One layer, with what comes after it.
  abbrev pub through : Layer → (Incoming → M Served) → Incoming → M Served
  through (route method pattern run) next req = elim (router.matches method pattern req) [
    | some params ↦ run (with_params params req)
    | none ↦ next req
  ]
  through files next req = elim (router.file req) [
    | some content ↦ pure (static_file content)
    | none ↦ next req
  ]
  through guard next req = session_auth codec cfg req.login >>= passing next req

  unfoldable pub serve : List Layer → Incoming → M Served
  serve [] req = pure unrouted
  serve (layer ∷ layers) req = through layer (serve layers) req

  -- What `NewApp` registers before the middleware and after it.
  abbrev pub public_routes : List Layer
  public_routes =
      get "/healthz" (λ req. pure healthy)
      ∷ get "/login" (λ req. serving_login (login_page_handler codec cfg req.login))
      ∷ post "/login" (λ req. serving_login (login_post_handler codec cfg router.hash req.login))
      ∷ files
      ∷ []

  module _ (h : Handler) where
    unfoldable pub guarded_routes : List Layer
    guarded_routes =
        get "/" (λ req. pure (answered Certificates.home))
        ∷ post "/logout" (λ req. pure (from_login (logout req.login)))
        ∷ get "/certificates" (by (Certificates.certificates h))
        ∷ get "/certificates/new" (by (Certificates.new_certificate h))
        ∷ post "/certificates" (by (Certificates.create_certificate h))
        ∷ get "/certificates/:id/edit" (by (Certificates.edit_certificate h))
        ∷ get "/certificates/:id" (by (Certificates.certificate_detail_page h))
        ∷ post "/certificates/:id" (by (Certificates.update_certificate h))
        ∷ post "/certificates/:id/issue" (by (Actions.issue_certificate h))
        ∷ post "/certificates/:id/renew" (by (Actions.renew_certificate h))
        ∷ post "/certificates/:id/delete" (by (Certificates.delete_certificate h))
        ∷ post "/certificates/:id/targets" (by (Certificates.update_certificate_targets h))
        ∷ post "/certificates/:id/sync" (by (Actions.sync_certificate h))
        ∷ post "/certificates/:id/targets/:target_id/sync" (by (Actions.sync_certificate_target h))
        ∷ get "/kong-targets" (by (KongTargets.kong_targets h))
        ∷ get "/kong-targets/new" (by (KongTargets.new_kong_target h))
        ∷ post "/kong-targets" (by (KongTargets.create_kong_target h))
        ∷ get "/kong-targets/:id/edit" (by (KongTargets.edit_kong_target h))
        ∷ post "/kong-targets/:id" (by (KongTargets.update_kong_target h))
        ∷ post "/kong-targets/:id/delete" (by (KongTargets.delete_kong_target h))
        ∷ post "/kong-targets/:id/test" (by (KongTargets.test_kong_target h))
        ∷ get "/jobs" (by (Jobs.jobs h))
        ∷ post "/jobs/clear" (by (Jobs.clear_jobs h))
        ∷ get "/jobs/:id" (by (Jobs.job_detail_page h))
        ∷ []

    -- `NewApp`
    unfoldable pub app : Incoming → M Served
    unfolding guarded_routes
    app = serve (public_routes ++ guard ∷ guarded_routes)
