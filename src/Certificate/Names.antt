-- ===== src/Certificate/Names.antt =====
-- An update of a certificate that has been issued.
use kong_gateway_cert_lite.Prelude.{
  Bool, true, some, ◌≡◌, refl, sym, ◌∙◌, ap, subst, arith, find_first, ◌==◌, eq_ℕ,
}
use kong_gateway_cert_lite.Text.{Text, trim_space}
use kong_gateway_cert_lite.Domain.{Certificate}
use kong_gateway_cert_lite.World.{World, Result, ok, err, proceed, ◌>>=◌, or_not_found, statement}
use kong_gateway_cert_lite.World.Faults.{NoFaults}
use kong_gateway_cert_lite.Sqlite.Certificates
use kong_gateway_cert_lite.Sqlite.Changes.{change_lem, find_first-changed_self}
use kong_gateway_cert_lite.Certificate.{
  CertificateInput, described, validate_certificate_input, accept, update, kept_names,
  is_issued_certificate,
}
use kong_gateway_cert_lite.Certificate.Lines.{IsLines, split_lines-join}
use kong_gateway_cert_lite.Certificate.Valid.{
  IsValid, validate_cases, validate-IsValid, positive_days,
}

-- What an update makes of an issued row: the names and what was issued stay.
abbrev pub Renamed : CertificateInput → Certificate → Certificate → Type 0
Renamed input c d =
    (d.domains ≡ c.domains)
    × (d.snis ≡ c.snis)
    × (d.cert_path ≡ c.cert_path)
    × (d.key_path ≡ c.key_path)
    × (d.expires_at ≡ c.expires_at)
    × (d.status ≡ c.status)
    × (d.name ≡ trim_space input.name)
    × (d.email ≡ trim_space input.email)
    × (d.auto_renew ≡ input.auto_renew)
    × (d.renew_before_days ≡ input.renew_before_days)

module _ (parse_address : Text → Bool) (input : CertificateInput) (c : Certificate)
    (w : World) where
  get_lem :
      NoFaults w
      → find_first (λ x. x.id == c.id) w.db.certificates ≡ some c
      → or_not_found (Certificates.get c.id) w ≡ (ok c, w)
  unfolding Certificates.get statement
  get_lem calm found = ground arith

  described-kept :
      is_issued_certificate c ≡ true
      → IsLines c.domains
      → IsLines c.snis
      → Renamed input c (Certificates.set_columns (described (kept_names c input)) w c)
  unfolding described kept_names
  described-kept issued domains snis = rw issued (
    split_lines-join c.domains domains,
    split_lines-join c.snis snis,
    refl,
    refl,
    refl,
    refl,
    refl,
    refl,
    refl,
    refl,
  )

  abbrev store : Certificate → World → Result (Unit {0}) × World
  store v = Certificates.update (record v { id = c.id })

  -- The row after the update.
  Kept : World → Type 0
  Kept w' =
      (d : Certificate) × (find_first (λ x. x.id == c.id) w'.db.certificates ≡ some d)
      × Renamed input c d

  store-Kept :
      (v : Certificate)
      → NoFaults w
      → find_first (λ x. x.id == c.id) w.db.certificates ≡ some c
      → IsValid v
      → Renamed input c (Certificates.set_columns v w c)
      → Kept (store v w).1
  unfolding Certificates.update Kept
  store-Kept v calm found valid renamed =
      let edit = Certificates.set_columns (record v { id = c.id }) w in
      rw (positive_days v valid) (
        rw (change_lem _ c.id (Certificates.set_columns (record v { id = c.id })) c w calm found) (
          edit c,
          find_first-changed_self c.id edit (λ x. refl) w.db.certificates c found,
          renamed,
        ))

  accepted-Kept :
      (r : Result Certificate)
      → validate_certificate_input parse_address (kept_names c input) ≡ r
      → NoFaults w
      → find_first (λ x. x.id == c.id) w.db.certificates ≡ some c
      → is_issued_certificate c ≡ true
      → IsLines c.domains
      → IsLines c.snis
      → ((accept r >>= store) w).0 ≡ ok tt
      → Kept ((accept r >>= store) w).1
  accepted-Kept (err e) same calm found issued domains snis done = absurd (ground arith)
  accepted-Kept (ok v) same calm found issued domains snis done =
      let (_, shape) = validate_cases parse_address (kept_names c input) v same in
      store-Kept v calm found (validate-IsValid parse_address (kept_names c input) v same) (
        subst (λ (x : Certificate). Renamed input c (Certificates.set_columns x w c)) (sym shape)
          (described-kept issued domains snis))

-- With nothing refused by the system, an update of a certificate in the table that has been
-- issued, whose lists hold trimmed lines, none empty and none twice, leaves, if it returns no
-- error, the domains, the names for SNI, the files, the end of validity and the status of the row
-- as they were, whatever domains and names the form holds, and stores the other fields of the
-- form.
pub update-keeps_issued :
    (parse_address : Text → Bool) (input : CertificateInput) (c : Certificate) (w : World)
    → NoFaults w
    → find_first (λ x. x.id == c.id) w.db.certificates ≡ some c
    → is_issued_certificate c ≡ true
    → IsLines c.domains
    → IsLines c.snis
    → (update parse_address input c.id w).0 ≡ ok tt
    → (d : Certificate) × (find_first
          (λ x. x.id == c.id)
          (update parse_address input c.id w).1.db.certificates
        ≡ some d)
      × Renamed input c d
unfolding update Kept
update-keeps_issued parse_address input c w calm found issued domains snis done =
    let got = get_lem parse_address input c w calm found in
    let validated = validate_certificate_input parse_address (kept_names c input) in
    let rest =
      ap
        (proceed (λ existing.
          accept (validate_certificate_input parse_address (kept_names existing input)) >>= λ v.
          Certificates.update (record v { id = existing.id })))
        got in
    rw rest (
      accepted-Kept parse_address input c w validated refl calm found issued domains snis
        (sym (ap (λ (r : Result (Unit {0}) × World). r.0) rest) ∙ done))
