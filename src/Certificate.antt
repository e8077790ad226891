-- ===== src/Certificate.antt =====
-- internal/usecase/certificate.go: the certificates' use case.
pub mod Lines
pub mod Valid
pub mod Names
pub mod Ids
pub mod Targets
mod Tests
use kong_gateway_cert_lite.Prelude.{
  ℕ, List, [], ◌∷◌, ◌++◌, map, Bool, true, false, ◌&&◌, ◌||◌, not, String, Option, none, some,
  if◌then◌else◌, ◌==◌, eq_ℕ, eq_List, leb, ltb, contains, is_empty, head?, sort_by, any_row,
}
use kong_gateway_cert_lite.Prelude.Unique.{unique}
use kong_gateway_cert_lite.Prelude.Int.{ℤ, pos, ltb_ℤ}
use kong_gateway_cert_lite.Text.{Text, lit, trim_space, is_blank, split_on, join}
use kong_gateway_cert_lite.Domain.{
  Time, Certificate, CertificateStatus, KongTarget, Error, not_found, validation,
}
use kong_gateway_cert_lite.World.{M, Result, ok, err, pure, raise, ◌>>=◌, ◌>>◌, or_not_found}
use kong_gateway_cert_lite.Sqlite.Certificates
use kong_gateway_cert_lite.Sqlite.KongTargets
use kong_gateway_cert_lite.Sqlite.Links

pub record CertificateInput : Type 0 where
  pub name : Text
  pub email : Text
  pub domains_text : Text
  pub snis_text : Text
  pub auto_renew : Bool
  pub renew_before_days : ℤ

abbrev pub min_renew_before_days : ℤ
min_renew_before_days = pos 1

abbrev pub max_renew_before_days : ℤ
max_renew_before_days = pos 90

-- The loop trims each line, and keeps those that are not empty and not seen before.
unfoldable pub split_lines : Text → List Text
split_lines value = unique is_empty (map trim_space (split_on b'\n' value))

abbrev first_or_empty : List Text → Text
first_or_empty [] = []
first_or_empty (d ∷ ds) = d

-- The certificate that the input describes, before it is validated.
unfoldable pub described : CertificateInput → Certificate
described input = record {
  id = 0;
  name = trim_space input.name;
  primary_domain = first_or_empty (split_lines input.domains_text);
  domains = split_lines input.domains_text;
  email = trim_space input.email;
  snis = split_lines input.snis_text;
  cert_path = [];
  key_path = [];
  expires_at = none;
  auto_renew = input.auto_renew;
  renew_before_days = input.renew_before_days;
  status = CertificateStatus.pending;
  created_at = 0;
  updated_at = 0;
}

abbrev pub note : Bool → String → String → List (String × String) → List (String × String)
note bad field message fields = if bad then (field, message) ∷ fields else fields

-- `return …, err` for the result of a validation
abbrev pub accept : {A : Type 0} → Result A → M A
accept (ok a) = pure a
accept (err e) = raise e

abbrev pub has_end : Option Time → Bool
has_end none = false
has_end (some t) = true

unfoldable pub is_issued_certificate : Certificate → Bool
is_issued_certificate c =
    not (is_blank c.cert_path) || (not (is_blank c.key_path) || has_end c.expires_at)

-- An issued certificate keeps its domains and names, whatever the input holds.
unfoldable pub kept_names : Certificate → CertificateInput → CertificateInput
kept_names existing input =
    if is_issued_certificate existing
    then record input {
      domains_text = join (b'\n' ∷ []) existing.domains;
      snis_text = join (b'\n' ∷ []) existing.snis;
    }
    else input

module _ (parse_address : Text → Bool) where
  -- The fields that are refused; mail.ParseAddress says whether it reads a text.
  unfoldable pub refused_fields : Certificate → List (String × String)
  refused_fields c = note (is_empty c.name) "name" "Certificate name is required." (
      note (is_empty c.email || not (parse_address c.email)) "email"
        "A valid email address is required."
        (note (is_empty c.domains) "domains" "Add at least one domain." (
          note (is_empty c.snis) "snis" "Add at least one SNI value." (
            note
              (ltb_ℤ c.renew_before_days min_renew_before_days
                || ltb_ℤ max_renew_before_days c.renew_before_days)
              "renew_before_days" "Renew before days must be between 1 and 90." []))))

  unfoldable pub validate_certificate_input : CertificateInput → Result Certificate
  validate_certificate_input input = elim (refused_fields (described input)) [
    | [] ↦ ok (described input)
    | f ∷ fs ↦ err (validation (f ∷ fs))
  ]

  unfoldable pub create : CertificateInput → M ℕ
  create input = accept (validate_certificate_input input) >>= Certificates.create

  unfoldable pub update : CertificateInput → ℕ → M Unit
  update input id = do
    existing ← or_not_found (Certificates.get id)
    certificate ← accept (validate_certificate_input (kept_names existing input))
    Certificates.update (record certificate { id = existing.id })

unfoldable pub delete : ℕ → M Unit
delete id = or_not_found (Certificates.delete id)

-- An id of the model is not negative, so that `id <= 0` is a test for 0.
unfoldable pub unique_sorted_ids : List ℕ → List ℕ
unique_sorted_ids ids = sort_by leb (unique (λ id. id == 0) ids)

abbrev pub is_allowed : List KongTarget → ℕ → Bool
is_allowed targets id = any_row (λ (t : KongTarget). t.id == id) targets

unfoldable pub update_linked_targets : ℕ → List ℕ → M Unit
update_linked_targets certificate_id target_ids = do
  existing ← or_not_found (Certificates.get certificate_id)
  targets ← KongTargets.list_for_certificate
  (if any_row (λ id. not (is_allowed targets id)) (unique_sorted_ids target_ids)
      then raise (validation (("kong_target_ids", "Select valid Kong targets.") ∷ []))
      else Links.set_linked_targets certificate_id (unique_sorted_ids target_ids))
