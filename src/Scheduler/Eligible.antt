-- ===== src/Scheduler/Eligible.antt =====
-- Which certificates `should_auto_renew` picks, and what a failed renewal does to that.
use kong_gateway_cert_lite.Prelude.{
  ℕ, ◌+◌, ◌*◌, ◌≤◌, ◌<◌, true, false, Option, none, some, ◌≡◌, ◌⊎◌, ◌↔◌, inl, refl, sym, ◌∙◌, arith,
  ◌==◌, eq_ℕ, find_first,
}
use kong_gateway_cert_lite.Prelude.Int.{ℤ, pos, negsuc}
use kong_gateway_cert_lite.Text.{is_blank}
use kong_gateway_cert_lite.Domain.{
  Time, day, Certificate, CertificateStatus, active, warning, expired,
}
use kong_gateway_cert_lite.World.{World, Result, ok, err}
use kong_gateway_cert_lite.Acme.{AcmeUseCase}
use kong_gateway_cert_lite.Acme.Operations.{Issued, renew_certificate}
use kong_gateway_cert_lite.Acme.Outcome.{Reflects}
use kong_gateway_cert_lite.Acme.Settle.{is_ok}
use kong_gateway_cert_lite.Acme.Run.{MayStart}
use kong_gateway_cert_lite.Acme.Issue.{renew_outcome, renew-settles}
use kong_gateway_cert_lite.Scheduler.{is_renewable, should_auto_renew}

-- What makes a certificate due, apart from how the program tests it.
pub record IsDue (c : Certificate) (now : Time) : Type 0 where
  pub wanted : c.auto_renew ≡ true
  pub has_cert : is_blank c.cert_path ≡ false
  pub has_key : is_blank c.key_path ≡ false
  pub usable : (c.status ≡ active) ⊎ ((c.status ≡ warning) ⊎ (c.status ≡ expired))
  pub end_of_validity : Time
  pub days : ℕ
  pub ends : c.expires_at ≡ some end_of_validity
  pub some_days : 0 < days
  pub before : c.renew_before_days ≡ pos days
  pub reached : end_of_validity ≤ now + days * day

is_renewable_iff :
    (s : CertificateStatus)
    → (is_renewable s ≡ true) ↔ ((s ≡ active) ⊎ ((s ≡ warning) ⊎ (s ≡ expired)))
is_renewable_iff s = ground arith

-- A certificate is renewed by a round at time `now` exactly if automatic renewal is wanted for it,
-- it has both paths, its status is active, warning or expired, it has an end of validity and a
-- positive number of days, and no more than these days are left.
should_auto_renew_iff :
    (c : Certificate) (now : Time) → (should_auto_renew c now ≡ true) ↔ IsDue c now
unfolding should_auto_renew
should_auto_renew_iff c now = (to c.expires_at c.renew_before_days refl refl, from)
  where
    to :
        (o : Option Time) (z : ℤ)
        → c.expires_at ≡ o
        → c.renew_before_days ≡ z
        → should_auto_renew c now ≡ true
        → IsDue c now
    to none z e f h = absurd (ground arith)
    to (some t) (negsuc n) e f h = absurd (ground arith)
    to (some t) (pos n) e f h = record {
      wanted = ground arith;
      has_cert = ground arith;
      has_key = ground arith;
      usable = (is_renewable_iff c.status).0 (ground arith);
      end_of_validity = t;
      days = n;
      ends = e;
      some_days = ground arith;
      before = f;
      reached = ground arith;
    }

    from : IsDue c now → should_auto_renew c now ≡ true
    from d =
        let renewable = (is_renewable_iff c.status).1 d.usable in
        ground (
          arith, renewable, d.wanted, d.has_cert, d.has_key, d.ends, d.before, d.some_days,
          d.reached,
        )

failed_not_renewable :
    (c : Certificate) (now : Time)
    → c.status ≡ CertificateStatus.failed
    → should_auto_renew c now ≡ false
unfolding should_auto_renew
failed_not_renewable c now h = ground arith

status_of_failure :
    (outcome : Result Issued) (c d : Certificate)
    → is_ok outcome ≡ false
    → Reflects outcome c d
    → d.status ≡ CertificateStatus.failed
status_of_failure (ok issued) c d h r = cc
status_of_failure (err e) c d h r = r.0

-- Once a renewal that could start, with nothing refused by the system, has failed to obtain and
-- store a new certificate, the certificate as it stands afterwards is not picked by a round of the
-- scheduler at any time.
pub failed_renewal-ends_auto_renew :
    (uc : AcmeUseCase) (c : Certificate) (w : World)
    → MayStart c w
    → is_ok (renew_outcome uc c w) ≡ false
    → (after : Certificate)
    → find_first (λ x. x.id == c.id) (renew_certificate uc c.id w).1.db.certificates ≡ some after
    → (now : Time) → should_auto_renew after now ≡ false
failed_renewal-ends_auto_renew uc c w may failed after found now =
    let ended = (renew-settles uc c w may (inl failed)).settled in
    let same : after ≡ ended.certificate = some_injective (sym found ∙ ended.found) in
    rw same (
      failed_not_renewable ended.certificate now
        (status_of_failure (renew_outcome uc c w) c ended.certificate failed ended.reflects))
  where
    some_injective : {x y : Certificate} → some x ≡ some y → x ≡ y
    some_injective e = ground arith
