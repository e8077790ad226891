-- ===== src/Reachable/Issue.antt =====
-- internal/web/handler.go: issuing by hand, in the worlds that the program comes to.
use kong_gateway_cert_lite.Prelude.{
  ℕ, ◌<◌, List, [], ◌∷◌, some, ◌≡◌, ◌≢◌, inl, inr, refl, arith, All, In, find_first, ◌==◌, eq_ℕ,
  ==_self,
}
use kong_gateway_cert_lite.Text.{lit}
use kong_gateway_cert_lite.Text.Number.{parse_id}
use kong_gateway_cert_lite.Domain.{Certificate}
use kong_gateway_cert_lite.World.{World, ok}
use kong_gateway_cert_lite.World.Faults.{NoFaults}
use kong_gateway_cert_lite.World.Clock.{ticked}
use kong_gateway_cert_lite.Session.{BasicAuthConfig, SessionCodec}
use kong_gateway_cert_lite.Sqlite.Columns.{to_column}
use kong_gateway_cert_lite.Acme.Operations.{issue_words}
use kong_gateway_cert_lite.Acme.Gate.{Blocks}
use kong_gateway_cert_lite.Acme.Outcome.{Settled}
use kong_gateway_cert_lite.Acme.Run.{MayStart}
use kong_gateway_cert_lite.Acme.Issue.{issue_outcome}
use kong_gateway_cert_lite.Web.Answer.{Handler, Request}
use kong_gateway_cert_lite.Web.Actions.{to_certificate, issue_certificate}
use kong_gateway_cert_lite.Web.Issue.{verdict_of, issue_certificate-answers}
use kong_gateway_cert_lite.Web.Routes.{Router}
use kong_gateway_cert_lite.Reachable.Sound.{Numbered, Numbered-below, of_certificate}
use kong_gateway_cert_lite.Reachable.Requests.{Reached, Reached-Sound}

module _ {A : Type 0} (id : A → ℕ) where
  Numbered-positive :
      (last : ℕ) (rows : List A) (a : A) → Numbered id last rows → In a rows → id a ≢ 0
  Numbered-positive last [] a h i = absurd i
  Numbered-positive last (x ∷ xs) a h (inl e) = rw e (λ z. omega (arith, z, h.0.0))
  Numbered-positive last (x ∷ xs) a h (inr i) = Numbered-positive last xs a h.2 i

  above-In : (n : ℕ) (rows : List A) (a : A) → All (λ b. n < id b) rows → In a rows → n < id a
  above-In n [] a h i = absurd i
  above-In n (x ∷ xs) a h (inl e) = rw e h.0
  above-In n (x ∷ xs) a h (inr i) = above-In n xs a h.1 i

  -- A row of a table is the one that is found under its id.
  Numbered-found :
      (last : ℕ) (rows : List A) (a : A)
      → Numbered id last rows
      → In a rows
      → find_first (λ x. id x == id a) rows ≡ some a
  Numbered-found last [] a h i = absurd i
  Numbered-found last (x ∷ xs) a h (inl e) = rw e (rw (==_self (id x)) refl)
  Numbered-found last (x ∷ xs) a h (inr i) =
      ground (arith, above-In (id x) xs a h.1 i, Numbered-found last xs a h.2 i)

module _ (router : Router) (codec : SessionCodec) (cfg : BasicAuthConfig) (h : Handler) where
  MayStart-Reached :
      (c : Certificate) (w : World)
      → Reached router codec cfg h w
      → NoFaults w
      → In c w.db.certificates
      → All (λ j. ¬ Blocks c.id (ticked w).clock j) w.db.jobs
      → MayStart c w
  MayStart-Reached c w reached calm listed unblocked =
      let sound = Reached-Sound router codec cfg h w reached in
      record {
        calm = calm;
        below = Numbered-below _ w.db.last_job w.db.jobs sound.jobs;
        positive = Numbered-positive of_certificate _ _ c sound.certificates listed;
        found = Numbered-found of_certificate _ _ c sound.certificates listed;
        unblocked = unblocked;
      }

  -- In a world that the program comes to from a new database, and with nothing refused by the
  -- system from then on, a request to issue a certificate of the table that no job stands in the
  -- way of is answered by a redirect to the certificate's page, with the message of a success
  -- exactly where the certificate was obtained and stored and that of a failure otherwise; and it
  -- leaves the tables as the issue does, with one ended job more and the certificate as the
  -- outcome says.
  pub Reached-issue :
      (req : Request) (c : Certificate) (w : World)
      → Reached router codec cfg h w
      → NoFaults w
      → In c w.db.certificates
      → All (λ j. ¬ Blocks c.id (ticked w).clock j) w.db.jobs
      → parse_id (req.params (lit "id")) ≡ some c.id
      → ((issue_certificate h req w).0
          ≡ ok (to_certificate h c.id (verdict_of (issue_outcome h.acme c w))))
        × Settled issue_words c
            (to_column (ticked w).clock)
            (issue_outcome h.acme c w)
            w.db
            (issue_certificate h req w).1.db
  Reached-issue req c w reached calm listed unblocked parsed =
      issue_certificate-answers h req c w parsed
        (MayStart-Reached c w reached calm listed unblocked)
