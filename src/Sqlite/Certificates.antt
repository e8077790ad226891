-- ===== src/Sqlite/Certificates.antt =====
-- internal/adapter/sqlite/certificate_repository.go: the table of certificates.
use kong_gateway_cert_lite.Prelude.{
  ℕ, suc, List, [], ◌∷◌, ◌++◌, map, Bool, ◌&&◌, ◌||◌, not, none, some, if◌then◌else◌, ◌==◌, eq_ℕ,
  leb, ltb, keep, find_first, any_row, sort_by,
}
use kong_gateway_cert_lite.Prelude.Int.{pos, ltb_ℤ}
use kong_gateway_cert_lite.Text.{Text, lit}
use kong_gateway_cert_lite.Domain.{
  Time, Certificate, CertificateStatus, active, Job, not_found, failed,
}
use kong_gateway_cert_lite.Sqlite.Columns.{to_column}
use kong_gateway_cert_lite.World.{World, M, ok, err, statement}

-- ORDER BY created_at DESC, id DESC
abbrev pub is_newer : Certificate → Certificate → Bool
is_newer a b = ltb b.created_at a.created_at || (a.created_at == b.created_at && leb b.id a.id)

unfoldable pub list : M (List Certificate)
list = statement (lit "list certificates") λ w. (ok (sort_by is_newer w.db.certificates), w)

unfoldable pub get : ℕ → M Certificate
get id = statement (lit "get certificate") λ w.
    elim (find_first (λ c. c.id == id) w.db.certificates) [
      | none ↦ (err not_found, w)
      | some c ↦ (ok c, w)
    ]

abbrev pub new_row : Certificate → World → Certificate
new_row certificate w = record certificate {
  id = suc w.db.last_certificate;
  cert_path = [];
  key_path = [];
  expires_at = none;
  created_at = to_column w.clock;
  updated_at = to_column w.clock;
}

-- CHECK (renew_before_days > 0)
unfoldable pub create : Certificate → M ℕ
create certificate = statement (lit "create certificate") λ w.
    if ltb_ℤ (pos 0) certificate.renew_before_days
    then (
      ok (suc w.db.last_certificate),
      record w {
        db = record w.db {
          certificates = w.db.certificates ++ new_row certificate w ∷ [];
          last_certificate = suc w.db.last_certificate;
        };
      },
    )
    else (err (failed (lit "create certificate: CHECK constraint failed")), w)

-- An UPDATE … WHERE id = ?, that counts the rows it has changed.
unfoldable pub change : Text → ℕ → (World → Certificate → Certificate) → M Unit
change what id f = statement what λ w.
    if any_row (λ c. c.id == id) w.db.certificates
    then (
      ok tt,
      record w {
        db = record w.db {
          certificates = map (λ c. if c.id == id then f w c else c) w.db.certificates;
        };
      },
    )
    else (err not_found, w)

abbrev pub set_columns : Certificate → World → Certificate → Certificate
set_columns certificate w c = record c {
  name = certificate.name;
  primary_domain = certificate.primary_domain;
  domains = certificate.domains;
  email = certificate.email;
  snis = certificate.snis;
  auto_renew = certificate.auto_renew;
  renew_before_days = certificate.renew_before_days;
  updated_at = to_column w.clock;
}

-- Every caller has checked that `renew_before_days` is positive; the CHECK is written out all the
-- same.
unfoldable pub update : Certificate → M Unit
update certificate =
    if ltb_ℤ (pos 0) certificate.renew_before_days
    then change (lit "update certificate") certificate.id (set_columns certificate)
    else statement (lit "update certificate") λ w.
      if any_row (λ c. c.id == certificate.id) w.db.certificates
      then (err (failed (lit "update certificate: CHECK constraint failed")), w)
      else (err not_found, w)

abbrev pub set_issued : Text → Text → Time → World → Certificate → Certificate
set_issued cert_path key_path expires_at w c = record c {
  cert_path = cert_path;
  key_path = key_path;
  expires_at = some (to_column expires_at);
  status = active;
  updated_at = to_column w.clock;
}

unfoldable pub mark_issued : ℕ → Text → Text → Time → M Unit
mark_issued id cert_path key_path expires_at =
    change (lit "mark issued certificate") id (set_issued cert_path key_path expires_at)

abbrev pub set_status : CertificateStatus → World → Certificate → Certificate
set_status status w c = record c { status = status; updated_at = to_column w.clock }

unfoldable pub update_status : ℕ → CertificateStatus → M Unit
update_status id status = change (lit "update certificate status") id (set_status status)

-- ON DELETE SET NULL
abbrev pub forget_certificate : ℕ → Job → Job
forget_certificate id j = elim j.certificate_id [
  | none ↦ j
  | some k ↦ if k == id then record j { certificate_id = none } else j
]

-- ON DELETE CASCADE for the links
unfoldable pub delete : ℕ → M Unit
delete id = statement (lit "delete certificate") λ w.
    if any_row (λ c. c.id == id) w.db.certificates
    then (
      ok tt,
      record w {
        db = record w.db {
          certificates = keep (λ c. not (c.id == id)) w.db.certificates;
          links = keep (λ l. not (l.certificate_id == id)) w.db.links;
          jobs = map (forget_certificate id) w.db.jobs;
        };
      },
    )
    else (err not_found, w)
