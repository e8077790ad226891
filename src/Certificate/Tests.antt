-- ===== src/Certificate/Tests.antt =====
-- Runs of the certificates' use case on small data.
use kong_gateway_cert_lite.Prelude.{
  [], ◌∷◌, true, some, none, ◌≡◌, refl, find_first, ◌==◌, eq_ℕ, arith, ◌++◌, list_eq,
}
use kong_gateway_cert_lite.Prelude.Int.{pos}
use kong_gateway_cert_lite.Text.{lit, join, trim_space, is_space, split_on}
use kong_gateway_cert_lite.Domain.{Certificate, Error}
use kong_gateway_cert_lite.World.{World, ok, err, statement}
use kong_gateway_cert_lite.Sqlite.Links
use kong_gateway_cert_lite.Sqlite.Certificates
use kong_gateway_cert_lite.Prelude.Unique.{unique, unique_from}
use kong_gateway_cert_lite.Sqlite.Replaced.{Replaced, set_linked_targets-Replaced}
use kong_gateway_cert_lite.Samples.{web, world, tables}
use kong_gateway_cert_lite.Certificate.{
  CertificateInput, split_lines, create, update, delete, unique_sorted_ids, update_linked_targets,
  validate_certificate_input, refused_fields, described, kept_names, is_issued_certificate,
}
use kong_gateway_cert_lite.Certificate.Lines.{IsLines}
use kong_gateway_cert_lite.Certificate.Valid.{IsValid, Valid, forms-Valid}
use kong_gateway_cert_lite.Certificate.Names.{Renamed, update-keeps_issued}
use kong_gateway_cert_lite.Certificate.Targets.{update_linked_targets-chooses}

web-IsLines : IsLines web.domains
unfolding trim_space is_space
web-IsLines = (
  (((λ e. cc, tt), refl, refl), (((λ e. cc, tt), refl, refl), tt)),
  (λ i. ground arith, (λ n. n, tt)),
)

snis-IsLines : IsLines web.snis
unfolding trim_space is_space
snis-IsLines = ((((λ e. cc, tt), refl, refl), tt), (λ n. n, tt))

abbrev form : CertificateInput
form = record {
  name = lit " w ";
  email = b'm' ∷ [];
  domains_text = lit "z";
  snis_text = lit "z";
  auto_renew = true;
  renew_before_days = pos 30;
}

web-IsValid : IsValid web
unfolding trim_space is_space
web-IsValid = (
  (refl, refl),
  (refl, refl),
  (web-IsLines, refl),
  (snis-IsLines, refl),
  refl,
  (omega arith, omega arith),
)

forms-Valid_example :
    Valid (create (λ text. true) form world).1.db
    × Valid (update (λ text. true) form 7 world).1.db
    × Valid (delete 7 world).1.db
forms-Valid_example = forms-Valid (λ text. true) form 7 world (web-IsValid, tt)

set_linked_targets-Replaced_example :
    ((Links.set_linked_targets 7 (4 ∷ []) world).0 ≡ ok tt)
    × Replaced 7 (4 ∷ []) tables (Links.set_linked_targets 7 (4 ∷ []) world).1.db
set_linked_targets-Replaced_example = set_linked_targets-Replaced 7 (4 ∷ []) world refl (refl, tt)

-- The second statement is refused.
abbrev refusing_world : World
refusing_world = record world { faults = none ∷ some (b'z' ∷ []) ∷ [] }

abbrev refusal : Error
refusal = Error.failed (lit "delete unlinked kong targets" ++ (lit ": " ++ b'z' ∷ []))

refused : (Links.set_linked_targets 7 (4 ∷ []) refusing_world).0 ≡ err refusal
unfolding Links.set_linked_targets Links.delete_unlinked statement
refused = refl

update_linked_targets-chooses_example :
    ((update_linked_targets 7 (4 ∷ 3 ∷ 4 ∷ []) world).0 ≡ ok tt)
    × Replaced 7
        (unique_sorted_ids (4 ∷ 3 ∷ 4 ∷ []))
        tables
        (update_linked_targets 7 (4 ∷ 3 ∷ 4 ∷ []) world).1.db
update_linked_targets-chooses_example =
    update_linked_targets-chooses 7 (4 ∷ 3 ∷ 4 ∷ []) web world refl refl (λ a i pos. ground arith)

issued : is_issued_certificate web ≡ true
unfolding is_issued_certificate trim_space is_space
issued = refl

updated : (update (λ text. true) form 7 world).0 ≡ ok tt
unfolding update Certificates.get Certificates.update Certificates.change statement
    validate_certificate_input refused_fields described kept_names is_issued_certificate split_lines
    unique unique_from split_on join trim_space is_space lit list_eq
updated = refl

update-keeps_issued_example :
    (d : Certificate) × (find_first
        (λ x. x.id == 7)
        (update (λ text. true) form 7 world).1.db.certificates
      ≡ some d)
    × Renamed form web d
update-keeps_issued_example =
    update-keeps_issued (λ text. true) form web world refl refl issued web-IsLines snis-IsLines
      updated
