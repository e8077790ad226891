-- ===== src/Certificate/Valid.antt =====
-- What the forms' operations hold the table of certificates to.
use kong_gateway_cert_lite.Prelude.{
  ℕ, List, [], ◌∷◌, map, Bool, true, false, not, ◌≡◌, inl, inr, refl, sym, arith, subst, All,
  All-append, any_row, keep, is_empty, ◌==◌, eq_ℕ, Bool-cases,
}
use kong_gateway_cert_lite.Prelude.Int.{pos, ltb_ℤ, ◌≤ℤ◌}
use kong_gateway_cert_lite.Text.{Text}
use kong_gateway_cert_lite.Text.Trim.{IsTrimmed, trim_space_idempotent}
use kong_gateway_cert_lite.Domain.{Certificate}
use kong_gateway_cert_lite.World.{World, Database, M, Result, ok, err, ◌>>=◌, or_not_found}
use kong_gateway_cert_lite.World.Preserves.{
  Preserves, Preserves-bind, Preserves-or_not_found, Preserves-statement,
}
use kong_gateway_cert_lite.Sqlite.Certificates
use kong_gateway_cert_lite.Sqlite.Changes.{changed}
use kong_gateway_cert_lite.Certificate.{
  CertificateInput, first_or_empty, described, refused_fields, validate_certificate_input, accept,
  create, update, delete, kept_names,
}
use kong_gateway_cert_lite.Certificate.Lines.{IsLines, split_lines-IsLines}

-- A certificate as the forms let it into the table.
abbrev pub IsValid : Certificate → Type 0
IsValid c =
    ((is_empty c.name ≡ false) × IsTrimmed c.name)
    × ((is_empty c.email ≡ false) × IsTrimmed c.email)
    × (IsLines c.domains × (is_empty c.domains ≡ false))
    × (IsLines c.snis × (is_empty c.snis ≡ false))
    × (c.primary_domain ≡ first_or_empty c.domains)
    × ((pos 1 ≤ℤ c.renew_before_days) × (c.renew_before_days ≤ℤ pos 90))

module _ (parse_address : Text → Bool) where
  no_refused :
      (c : Certificate)
      → refused_fields parse_address c ≡ []
      → (is_empty c.name ≡ false)
        × (is_empty c.email ≡ false)
        × (is_empty c.domains ≡ false)
        × (is_empty c.snis ≡ false)
        × (pos 1 ≤ℤ c.renew_before_days)
        × (c.renew_before_days ≤ℤ pos 90)
  unfolding refused_fields
  no_refused c h = ground arith

  pub validate_cases :
      (input : CertificateInput) (c : Certificate)
      → validate_certificate_input parse_address input ≡ ok c
      → (refused_fields parse_address (described input) ≡ []) × (c ≡ described input)
  unfolding validate_certificate_input
  validate_cases input c h = ground arith

  described-IsValid :
      (input : CertificateInput)
      → refused_fields parse_address (described input) ≡ []
      → IsValid (described input)
  unfolding described
  described-IsValid input h =
      let (name, email, domains, snis, least, most) = no_refused (described input) h in
      (
        (name, trim_space_idempotent input.name),
        (email, trim_space_idempotent input.email),
        (split_lines-IsLines input.domains_text, domains),
        (split_lines-IsLines input.snis_text, snis),
        refl,
        (least, most),
      )

  pub validate-IsValid :
      (input : CertificateInput) (c : Certificate)
      → validate_certificate_input parse_address input ≡ ok c
      → IsValid c
  validate-IsValid input c h =
      let (none_refused, same) = validate_cases input c h in
      subst IsValid (sym same) (described-IsValid input none_refused)

abbrev pub Valid : Database → Type 0
Valid db = All IsValid db.certificates

All-changed :
    (id : ℕ) (f : Certificate → Certificate)
    → ((c : Certificate) → IsValid c → IsValid (f c))
    → (cs : List Certificate) → All IsValid cs
    → All IsValid (map (changed id f) cs)
All-changed id f keeps [] h = tt
All-changed id f keeps (c ∷ cs) h = elim (Bool-cases (c.id == id)) [
  | inl this ↦ (rw this (keeps c h.0), All-changed id f keeps cs h.1)
  | inr other ↦ (rw other h.0, All-changed id f keeps cs h.1)
]

-- An UPDATE that keeps a row valid keeps the table valid.
change-Preserves :
    (what : Text) (id : ℕ) (f : World → Certificate → Certificate)
    → ((w : World) (c : Certificate) → IsValid c → IsValid (f w c))
    → Preserves Valid (Certificates.change what id f)
unfolding Certificates.change
change-Preserves what id f keeps = Preserves-statement Valid what _ (record {
  at = λ w h. elim (Bool-cases (any_row (λ c. c.id == id) w.db.certificates)) [
    | inl found ↦ rw found (All-changed id (f w) (keeps w) w.db.certificates h)
    | inr missing ↦ rw missing h
  ];
})

pub positive_days : (c : Certificate) → IsValid c → ltb_ℤ (pos 0) c.renew_before_days ≡ true
positive_days c h = ground (arith, h.5)

update_row-Preserves :
    (certificate : Certificate)
    → IsValid certificate
    → Preserves Valid (Certificates.update certificate)
unfolding Certificates.update
update_row-Preserves certificate valid =
    rw (positive_days certificate valid)
      (change-Preserves _ certificate.id (Certificates.set_columns certificate) (λ w c h. valid))

create_row-Preserves :
    (certificate : Certificate)
    → IsValid certificate
    → Preserves Valid (Certificates.create certificate)
unfolding Certificates.create
create_row-Preserves certificate valid = Preserves-statement Valid _ _ (record {
  at = λ w h.
      rw (positive_days certificate valid) (All-append IsValid w.db.certificates _ h (valid, tt));
})

All-keep :
    (p : Certificate → Bool) (cs : List Certificate) → All IsValid cs → All IsValid (keep p cs)
All-keep p [] h = tt
All-keep p (c ∷ cs) h = elim (Bool-cases (p c)) [
  | inl kept ↦ rw kept (h.0, All-keep p cs h.1)
  | inr dropped ↦ rw dropped (All-keep p cs h.1)
]

delete_row-Preserves : (id : ℕ) → Preserves Valid (Certificates.delete id)
unfolding Certificates.delete
delete_row-Preserves id = Preserves-statement Valid _ _ (record {
  at = λ w h. elim (Bool-cases (any_row (λ c. c.id == id) w.db.certificates)) [
    | inl found ↦ rw found (All-keep (λ c. not (c.id == id)) w.db.certificates h)
    | inr missing ↦ rw missing h
  ];
})

get-Preserves : (id : ℕ) → Preserves Valid (Certificates.get id)
unfolding Certificates.get
get-Preserves id = Preserves-statement Valid _ _ (record { at = λ w h. ground arith })

-- A validated certificate that an action stores.
accepted-Preserves :
    {A : Type 0} (r : Result Certificate) (f : Certificate → M A)
    → ((c : Certificate) → r ≡ ok c → Preserves Valid (f c))
    → Preserves Valid (accept r >>= f)
accepted-Preserves (ok c) f k = record { at = λ w h. (k c refl).at w h }
accepted-Preserves (err e) f k = record { at = λ w h. h }

-- Creating, updating and deleting a certificate, whatever the forms hold and whatever the database
-- refuses, keep a table valid all of whose rows are valid: trimmed, with a name, an address, at
-- least one domain and one name for SNI, no domain or name twice, the first domain as the primary
-- one, and a number of days between 1 and 90.
pub forms-Valid :
    (parse_address : Text → Bool) (input : CertificateInput) (id : ℕ) (w : World)
    → Valid w.db
    → Valid (create parse_address input w).1.db
      × Valid (update parse_address input id w).1.db
      × Valid (delete id w).1.db
unfolding create update delete
forms-Valid parse_address input id w h = (
  (accepted-Preserves _ _
        (λ c e. create_row-Preserves c (validate-IsValid parse_address input c e))).at
      w h,
  (Preserves-bind Valid (or_not_found (Certificates.get id)) _
        (Preserves-or_not_found Valid _ (get-Preserves id))
        (λ existing. accepted-Preserves _ _ (λ c e.
          update_row-Preserves (record c { id = existing.id })
            (validate-IsValid parse_address (kept_names existing input) c e)))).at
      w h,
  (Preserves-or_not_found Valid _ (delete_row-Preserves id)).at w h,
)
