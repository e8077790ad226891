-- ===== src/Web/Issue.antt =====
-- internal/web/handler.go: what issuing by hand answers.
use kong_gateway_cert_lite.Prelude.{
  ℕ, some, ◌≡◌, ◌≢◌, ◌∙◌, refl, ap, arith, In, find_first, find_first-some, subst, ==_iff, ◌==◌,
  eq_ℕ,
}
use kong_gateway_cert_lite.Text.{Text, lit}
use kong_gateway_cert_lite.Text.Number.{parse_id}
use kong_gateway_cert_lite.Domain.{Certificate, CertificateStatus, blocked, is_not_found}
use kong_gateway_cert_lite.Domain
use kong_gateway_cert_lite.World.{World, Result, ok, err}
use kong_gateway_cert_lite.World.Faults.{NoFaults}
use kong_gateway_cert_lite.World.Clock.{ticked}
use kong_gateway_cert_lite.Sqlite.Columns.{to_column}
use kong_gateway_cert_lite.Acme.Operations
use kong_gateway_cert_lite.Acme.Operations.{Issued, issue_words}
use kong_gateway_cert_lite.Acme.Gate.{Blocks}
use kong_gateway_cert_lite.Acme.Outcome.{Settled, Reflects}
use kong_gateway_cert_lite.Acme.Run.{MayStart}
use kong_gateway_cert_lite.Acme.Issue.{issue_outcome, issue-settles, issue-blocked}
use kong_gateway_cert_lite.Views.Certificate.{CertificateView}
use kong_gateway_cert_lite.Views.Certificate as CertificateViews
use kong_gateway_cert_lite.Views.Found.{Found, get-Found}
use kong_gateway_cert_lite.Web.Answer.{Handler, Request, as_blocked}
use kong_gateway_cert_lite.Web.Actions.{
  Verdict, to_certificate, conclude, issue_certificate, issue_verdict, issued_well, issue_failed,
}

-- The verdict that belongs to the outcome of the client's part.
abbrev pub verdict_of : Result Issued → Verdict
verdict_of (ok issued) = issued_well
verdict_of (err e) = issue_failed

verdict_of-Reflects :
    (outcome : Result Issued) (c c' : Certificate) (view : CertificateView)
    → Reflects outcome c c'
    → view.certificate ≡ c'
    → issue_verdict view ≡ verdict_of outcome
unfolding issue_verdict
verdict_of-Reflects (ok issued) c c' view h e = rw (e, h.0) refl
verdict_of-Reflects (err x) c c' view h e = rw (e, h.0) refl

module _ (h : Handler) where
  -- Where the certificate is found again, the answer is the verdict on it.
  conclude-Found :
      (id : ℕ) (verdict : CertificateView → Verdict) (otherwise : Verdict) (w : World)
      (view : CertificateView)
      → (CertificateViews.get h.unicode id w).0 ≡ ok view
      → ((conclude h id verdict otherwise w).0 ≡ ok (to_certificate h id (verdict view)))
        × ((conclude h id verdict otherwise w).1 ≡ (CertificateViews.get h.unicode id w).1)
  conclude-Found id verdict otherwise w view e = (rw e refl, refl)

  issue_lem :
      (req : Request) (id : ℕ) (w : World)
      → parse_id (req.params (lit "id")) ≡ some id
      → (Operations.issue_certificate h.acme id w).0 ≡ ok tt
      → issue_certificate h req w
        ≡ conclude h id issue_verdict issued_well (Operations.issue_certificate h.acme id w).1
  unfolding issue_certificate
  issue_lem req id w parsed done = rw parsed (ground arith)

-- With nothing refused by the system, a request to issue a certificate of the table whose id is
-- not 0 and which no job stands in the way of, where no job has an id above the last one given
-- out, is answered by a redirect to the certificate's page, with the message of a success exactly
-- where the certificate was obtained and stored and that of a failure otherwise; and it leaves
-- the tables as the issue does, with one ended job more and the certificate as the outcome says.
pub issue_certificate-answers :
    (h : Handler) (req : Request) (c : Certificate) (w : World)
    → parse_id (req.params (lit "id")) ≡ some c.id
    → MayStart c w
    → ((issue_certificate h req w).0
        ≡ ok (to_certificate h c.id (verdict_of (issue_outcome h.acme c w))))
      × Settled issue_words c
          (to_column (ticked w).clock)
          (issue_outcome h.acme c w)
          w.db
          (issue_certificate h req w).1.db
issue_certificate-answers h req c w parsed may =
    let ends = issue-settles h.acme c w may in
    let after = (Operations.issue_certificate h.acme c.id w).1 in
    let c' = ends.settled.certificate in
    let (hit, _, _) =
      find_first-some (λ x. x.id == c.id) after.db.certificates c' ends.settled.found in
    let same_id : c'.id ≡ c.id = (==_iff c'.id c.id).0 hit in
    let seen : Found h.unicode c' after (CertificateViews.get h.unicode c'.id after) =
      get-Found h.unicode c' after ends.calm (rw same_id ends.settled.found) in
    let read : (CertificateViews.get h.unicode c.id after).0 ≡ ok seen.view =
      subst (λ (k : ℕ). (CertificateViews.get h.unicode k after).0 ≡ ok seen.view) same_id
        seen.value in
    let kept : (CertificateViews.get h.unicode c.id after).1.db ≡ after.db =
      subst (λ (k : ℕ). (CertificateViews.get h.unicode k after).1.db ≡ after.db) same_id seen.db in
    let (answer, stays) = conclude-Found h c.id issue_verdict issued_well after seen.view read in
    rw (issue_lem h req c.id w parsed ends.value) (
      answer
          ∙ ap (λ (v : Verdict). ok (to_certificate h c.id v))
              (verdict_of-Reflects (issue_outcome h.acme c w) c c' seen.view ends.settled.reflects
                seen.certificate),
      rw (stays, kept) ends.settled,
    )

-- With nothing refused by the system, a request to issue a certificate of the table whose id is
-- not 0, while a job stands in its way, is answered by a redirect to the certificate's page with a
-- warning that gives the reason; no table changes and the certificate authority is not called.
issue_certificate-warns :
    (h : Handler) (req : Request) (c : Certificate) (w : World) (j : Domain.Job)
    → parse_id (req.params (lit "id")) ≡ some c.id
    → NoFaults w
    → c.id ≢ 0
    → find_first (λ x. x.id == c.id) w.db.certificates ≡ some c
    → In j w.db.jobs
    → Blocks c.id (ticked w).clock j
    → (reason : Text) × (issue_certificate h req w
        ≡ (ok (to_certificate h c.id (lit "warning", reason)), ticked w))
unfolding issue_certificate as_blocked is_not_found
issue_certificate-warns h req c w j parsed calm pos found listed blocks =
    let (reason, refused) = issue-blocked h.acme c w j calm pos found listed blocks in
    (reason, rw parsed (rw refused refl))
