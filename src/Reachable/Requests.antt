-- ===== src/Reachable/Requests.antt =====
-- internal/web/routes.go, internal/usecase/scheduler.go: the worlds that the program comes to.
use kong_gateway_cert_lite.Prelude.{
  List, [], ◌∷◌, Bool, ◌≡◌, inl, inr, sym, subst, All, All-append, Option-cases,
}
use kong_gateway_cert_lite.Text.{Text}
use kong_gateway_cert_lite.Domain.{Time}
use kong_gateway_cert_lite.World.{World, Database, M, pure, ◌>>=◌}
use kong_gateway_cert_lite.World.Preserves.{Preserves-pure, Preserves-bind}
use kong_gateway_cert_lite.Session.{BasicAuthConfig, SessionCodec}
use kong_gateway_cert_lite.Session.Login
use kong_gateway_cert_lite.Session.Login.{LoginRequest, Passage, pass, stopped}
use kong_gateway_cert_lite.Acme.Operations
use kong_gateway_cert_lite.Scheduler
use kong_gateway_cert_lite.Web.Answer.{Handler, Answer}
use kong_gateway_cert_lite.Web.Routes.{
  Incoming, Served, Router, Layer, route, files, guard, passing, through, serve, public_routes,
  guarded_routes, app, answered, from_login,
}
use kong_gateway_cert_lite.Reachable.Sound.{Sound}
use kong_gateway_cert_lite.Reachable.Tables.{Safe}
use kong_gateway_cert_lite.Reachable.UseCases.{safe_rules}
use kong_gateway_cert_lite.Reachable.Renewals.{Safe-renew_certificate, Safe-run_once}
use kong_gateway_cert_lite.Reachable.Handlers.{
  Safe-certificates, Safe-clear_jobs, Safe-create_certificate_form, Safe-create_kong_target_form,
  Safe-delete_certificate_form, Safe-delete_kong_target_form, Safe-detail_page,
  Safe-edit_certificate, Safe-edit_kong_target, Safe-issue, Safe-job_detail_page, Safe-jobs,
  Safe-kong_targets, Safe-new_certificate, Safe-new_kong_target, Safe-renew, Safe-sync,
  Safe-sync_one, Safe-targets_form, Safe-test_kong_target, Safe-update_certificate_form,
  Safe-update_kong_target_form,
}

-- A route whose handler keeps the keys in order.
abbrev SafeLayer : Layer → Type 0
SafeLayer (route method pattern run) = (q : Incoming) → Safe (run q)
SafeLayer files = Unit
SafeLayer guard = Unit

infixr 4 ◌▸◌
◌▸◌ : {A B : Type 0} → A → B → A × B
a ▸ b = (a, b)

Safe-serving : (m : M Answer) → Safe m → Safe (m >>= λ a. pure (answered a))
Safe-serving m k = Preserves-bind Sound m _ k (λ a. Preserves-pure Sound (answered a))

module _ (codec : SessionCodec) (cfg : BasicAuthConfig) where
  Safe-login_page : (req : LoginRequest) → Safe (Login.login_page_handler codec cfg req)
  unfolding Login.login_page_handler
  Safe-login_page req = search safe_rules

  Safe-login_post :
      (hash : Text → Text) (req : LoginRequest) → Safe (Login.login_post_handler codec cfg hash req)
  unfolding Login.login_post_handler
  Safe-login_post hash req = search safe_rules

  Safe-session_auth : (req : LoginRequest) → Safe (Login.session_auth codec cfg req)
  unfolding Login.session_auth
  Safe-session_auth req = search safe_rules

  module _ (router : Router) where
    Safe-passing :
        (next : Incoming → M Served) (req : Incoming) (p : Passage)
        → Safe (next req)
        → Safe (passing router codec cfg next req p)
    Safe-passing next req pass k = k
    Safe-passing next req (stopped a) k = Preserves-pure Sound (from_login a)

    Safe-through :
        (layer : Layer) (next : Incoming → M Served) (req : Incoming)
        → SafeLayer layer
        → Safe (next req)
        → Safe (through router codec cfg layer next req)
    Safe-through (route method pattern run) next req handler k =
        elim (Option-cases (router.matches method pattern req)) [
          | inl e ↦ rw (e, through) k
          | inr (params, e) ↦ rw (e, through) (handler _)
        ]
    Safe-through files next req handler k = elim (Option-cases (router.file req)) [
      | inl e ↦ rw (e, through) k
      | inr (content, e) ↦ rw (e, through) (Preserves-pure Sound _)
    ]
    Safe-through guard next req handler k =
        Preserves-bind Sound _ _ (Safe-session_auth req.login) (λ p. Safe-passing next req p k)

    Safe-serve :
        (layers : List Layer)
        → All SafeLayer layers
        → (req : Incoming) → Safe (serve router codec cfg layers req)
    unfolding serve
    Safe-serve [] all req = Preserves-pure Sound _
    Safe-serve (layer ∷ layers) all req =
        Safe-through layer (serve router codec cfg layers) req all.0 (Safe-serve layers all.1 req)

    Safe-public : All SafeLayer (public_routes router codec cfg)
    Safe-public =
        (λ q. Preserves-pure Sound _)
        ▸ (λ q.
            Preserves-bind Sound _ _ (Safe-login_page q.login)
              (λ a. Preserves-pure Sound (from_login a)))
        ▸ (λ q.
            Preserves-bind Sound _ _ (Safe-login_post router.hash q.login)
              (λ a. Preserves-pure Sound (from_login a)))
        ▸ tt
        ▸ tt

    Safe-guarded : (h : Handler) → All SafeLayer (guarded_routes router codec cfg h)
    unfolding guarded_routes
    Safe-guarded h =
        (λ q. Preserves-pure Sound _)
        ▸ (λ q. Preserves-pure Sound _)
        ▸ (λ q. Safe-serving _ (Safe-certificates h q.request))
        ▸ (λ q. Safe-serving _ (Safe-new_certificate h q.request))
        ▸ (λ q. Safe-serving _ (Safe-create_certificate_form h q.request))
        ▸ (λ q. Safe-serving _ (Safe-edit_certificate h q.request))
        ▸ (λ q. Safe-serving _ (Safe-detail_page h q.request))
        ▸ (λ q. Safe-serving _ (Safe-update_certificate_form h q.request))
        ▸ (λ q. Safe-serving _ (Safe-issue h q.request))
        ▸ (λ q. Safe-serving _ (Safe-renew h q.request))
        ▸ (λ q. Safe-serving _ (Safe-delete_certificate_form h q.request))
        ▸ (λ q. Safe-serving _ (Safe-targets_form h q.request))
        ▸ (λ q. Safe-serving _ (Safe-sync h q.request))
        ▸ (λ q. Safe-serving _ (Safe-sync_one h q.request))
        ▸ (λ q. Safe-serving _ (Safe-kong_targets h q.request))
        ▸ (λ q. Safe-serving _ (Safe-new_kong_target h q.request))
        ▸ (λ q. Safe-serving _ (Safe-create_kong_target_form h q.request))
        ▸ (λ q. Safe-serving _ (Safe-edit_kong_target h q.request))
        ▸ (λ q. Safe-serving _ (Safe-update_kong_target_form h q.request))
        ▸ (λ q. Safe-serving _ (Safe-delete_kong_target_form h q.request))
        ▸ (λ q. Safe-serving _ (Safe-test_kong_target h q.request))
        ▸ (λ q. Safe-serving _ (Safe-jobs h q.request))
        ▸ (λ q. Safe-serving _ (Safe-clear_jobs h q.request))
        ▸ (λ q. Safe-serving _ (Safe-job_detail_page h q.request))
        ▸ tt

    pub Safe-app : (h : Handler) (req : Incoming) → Safe (app router codec cfg h req)
    unfolding app
    Safe-app h req =
        Safe-serve _
          (All-append SafeLayer (public_routes router codec cfg)
            (guard ∷ guarded_routes router codec cfg h) Safe-public (tt, Safe-guarded h))
          req

-- A new database: migrations/001_initial.sql creates the tables without rows.
abbrev pub empty_database : Database
empty_database = record {
  certificates = [];
  kong_targets = [];
  links = [];
  jobs = [];
  last_certificate = 0;
  last_kong_target = 0;
  last_link = 0;
  last_job = 0;
}

empty-Sound : Sound empty_database
empty-Sound = record {
  certificates = tt;
  kong_targets = tt;
  links = tt;
  jobs = tt;
  link_ends = tt;
  job_ends = tt;
}

module _ (router : Router) (codec : SessionCodec) (cfg : BasicAuthConfig) (h : Handler) where
  -- The worlds that the program comes to, one request or round of the scheduler after another,
  -- from a new database, while all else (the time, the files, what the system refuses) is free.
  pub data Reached : World → Type 0 where
    opened : (w : World) → w.db ≡ empty_database → Reached w
    served : (w : World) (req : Incoming) → Reached w → Reached (app router codec cfg h req w).1
    round :
        (w : World) (has_notifier : Bool) (now : Time) (notified : List Text)
        → Reached w
        → Reached
            (Scheduler.run_once (Operations.renew_certificate h.acme) has_notifier now notified w).1
    elsewhere : (w v : World) → v.db ≡ w.db → Reached w → Reached v

  -- In every world that the program comes to from a new database, by requests and rounds of the
  -- scheduler one after another, whatever the requests hold, however the other systems answer and
  -- whatever the system refuses: the ids of each table's rows are different and were given out,
  -- each link is between a certificate and a Kong target of the tables, and a job names no
  -- certificate and no target that is not there.
  pub Reached-Sound : (w : World) → Reached w → Sound w.db
  Reached-Sound w (opened v e) = subst Sound (sym e) empty-Sound
  Reached-Sound w (served v req r) = (Safe-app codec cfg router h req).at v (Reached-Sound v r)
  Reached-Sound w (round v on now keys r) =
      let kept : Safe (Scheduler.run_once (Operations.renew_certificate h.acme) on now keys) =
        Safe-run_once _ (Safe-renew_certificate h.acme) on now keys in
      kept.at v (Reached-Sound v r)
  Reached-Sound w (elsewhere u v e r) = subst Sound (sym e) (Reached-Sound u r)
