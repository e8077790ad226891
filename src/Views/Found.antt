-- ===== src/Views/Found.antt =====
-- Reading a certificate of the table for a page, with nothing refused by the system.
use kong_gateway_cert_lite.Prelude.{
  ℕ, List, Option, none, some, ◌≡◌, ◌∙◌, refl, arith, find_first, keep, sort_by, length, ◌==◌, eq_ℕ,
}
use kong_gateway_cert_lite.Text.Case.{Unicode}
use kong_gateway_cert_lite.Domain.{Time, Certificate, CertificateKongTarget}
use kong_gateway_cert_lite.World.{World, Result, ok, err, pure, proceed, ◌>>=◌, statement}
use kong_gateway_cert_lite.World.Faults.{NoFaults}
use kong_gateway_cert_lite.World.Clock.{ticked-db, time_now_lem}
use kong_gateway_cert_lite.Sqlite.Certificates
use kong_gateway_cert_lite.Sqlite.KongTargets
use kong_gateway_cert_lite.Sqlite.Links
use kong_gateway_cert_lite.Views.Certificate.{
  CertificateView, view_until, build_certificate_view, build_certificate_target_link_views,
  apply_sync_workflow_state, get,
}

-- The links of a certificate, in the order of the statement.
abbrev pub links_of : ℕ → World → List CertificateKongTarget
links_of id w = sort_by Links.is_before (keep (Links.is_of id) w.db.links)

-- The view of a certificate and of its links, and the world after it is built.
record Built (c : Certificate) (w : World) (r : Result CertificateView × World) : Type 0 where
  view : CertificateView
  value : r.0 ≡ ok view
  certificate : view.certificate ≡ c
  db : r.1.db ≡ w.db

view_until-Built : (c : Certificate) (e : Option Time) (w : World) → Built c w (view_until c e w)
unfolding view_until
view_until-Built c none w = record { view = _; value = refl; certificate = refl; db = refl }
view_until-Built c (some t) w =
    rw (time_now_lem w) (record { view = _; value = refl; certificate = refl; db = ticked-db w })

pub record Found (u : Unicode) (c : Certificate) (w : World) (r : Result CertificateView × World)
    : Type 0 where
  pub view : CertificateView
  pub value : r.0 ≡ ok view
  pub certificate : view.certificate ≡ c
  pub linked_targets :
      view.linked_targets
      ≡ build_certificate_target_link_views u
          (sort_by KongTargets.is_before w.db.kong_targets)
          (links_of c.id w)
  pub db : r.1.db ≡ w.db

apply-certificate :
    (links : List CertificateKongTarget) (v : CertificateView)
    → ((apply_sync_workflow_state links v).certificate ≡ v.certificate)
      × ((apply_sync_workflow_state links v).linked_targets ≡ v.linked_targets)
unfolding apply_sync_workflow_state
apply-certificate links v = (ground arith, ground arith)

module _ (u : Unicode) (c : Certificate) (w : World) where
  -- The view with its links.
  abbrev linked : CertificateView → CertificateView
  linked view = apply_sync_workflow_state (links_of c.id w) (record view {
    linked_target_count = length (links_of c.id w);
    linked_targets =
        build_certificate_target_link_views u (sort_by KongTargets.is_before w.db.kong_targets)
          (links_of c.id w);
  })

  linked-Found :
      (r : Result CertificateView × World)
      → Built c w r
      → Found u c w (proceed (λ view. pure (linked view)) r)
  linked-Found (ok v, v') b =
      let same = apply-certificate (links_of c.id w) (record v {
        linked_target_count = length (links_of c.id w);
        linked_targets =
            build_certificate_target_link_views u (sort_by KongTargets.is_before w.db.kong_targets)
              (links_of c.id w);
      }) in
      let this : v.certificate ≡ c = cc (b.value, b.certificate) in
      record {
        view = linked v;
        value = refl;
        certificate = same.0 ∙ this;
        linked_targets = same.1;
        db = b.db;
      }
  linked-Found (err e, v') b = cc (b.value)

  module _ (calm : NoFaults w)
      (found : find_first (λ x. x.id == c.id) w.db.certificates ≡ some c) where
    get_lem : get u c.id w ≡ (build_certificate_view c >>= λ view. pure (linked view)) w
    unfolding get Certificates.get KongTargets.list_for_certificate Links.list_sync_targets
        statement
    get_lem = ground arith

    -- A certificate that is in the table is found, with the views of its links, and reading it
    -- changes no table.
    pub get-Found : Found u c w (get u c.id w)
    unfolding build_certificate_view
    get-Found = rw get_lem (linked-Found _ (view_until-Built c c.expires_at w))
