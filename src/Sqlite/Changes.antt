-- ===== src/Sqlite/Changes.antt =====
-- What an UPDATE of one certificate does to the lookups of the table.
use kong_gateway_cert_lite.Prelude.{
  ℕ, List, [], ◌∷◌, map, some, ◌≡◌, ◌≢◌, refl, arith, find_first, ◌==◌, eq_ℕ, if◌then◌else◌,
  find_first-some,
}
use kong_gateway_cert_lite.Text.{Text}
use kong_gateway_cert_lite.Domain.{Certificate, CertificateStatus, Time}
use kong_gateway_cert_lite.World.{World, ok, statement}
use kong_gateway_cert_lite.World.Faults.{NoFaults}
use kong_gateway_cert_lite.Sqlite.Certificates.{
  change, mark_issued, set_issued, update_status, set_status,
}

abbrev pub changed : ℕ → (Certificate → Certificate) → Certificate → Certificate
changed id f c = if c.id == id then f c else c

module _ (id : ℕ) (f : Certificate → Certificate)
    (same_id : (c : Certificate) → (f c).id ≡ c.id) where
  pub find_first-changed_self :
      (rows : List Certificate) (c : Certificate)
      → find_first (λ x. x.id == id) rows ≡ some c
      → find_first (λ x. x.id == id) (map (changed id f) rows) ≡ some (f c)
  find_first-changed_self [] c e = cc
  find_first-changed_self (x ∷ rows) c e = ground (arith, same_id x, find_first-changed_self rows c)

  pub find_first-changed_ne :
      (k : ℕ) (rows : List Certificate)
      → k ≢ id
      → find_first (λ x. x.id == k) (map (changed id f) rows) ≡ find_first (λ x. x.id == k) rows
  find_first-changed_ne k [] ne = refl
  find_first-changed_ne k (x ∷ rows) ne = ground (arith, same_id x, find_first-changed_ne k rows ne)

pub change_lem :
    (what : Text) (id : ℕ) (f : World → Certificate → Certificate) (c : Certificate) (w : World)
    → NoFaults w
    → find_first (λ x. x.id == id) w.db.certificates ≡ some c
    → change what id f w ≡ (
      ok tt,
      record w { db = record w.db { certificates = map (changed id (f w)) w.db.certificates } },
    )
unfolding change statement
change_lem what id f c w h found =
    let (_, present, _) = find_first-some (λ x. x.id == id) w.db.certificates c found in
    ground arith

pub mark_issued_lem :
    (id : ℕ) (cert_path key_path : Text) (expires_at : Time) (c : Certificate) (w : World)
    → NoFaults w
    → find_first (λ x. x.id == id) w.db.certificates ≡ some c
    → mark_issued id cert_path key_path expires_at w ≡ (
      ok tt,
      record w {
        db = record w.db {
          certificates =
              map (changed id (set_issued cert_path key_path expires_at w)) w.db.certificates;
        };
      },
    )
unfolding mark_issued
mark_issued_lem id cert_path key_path expires_at c w h found = change_lem _ id _ c w h found

pub update_status_lem :
    (id : ℕ) (status : CertificateStatus) (c : Certificate) (w : World)
    → NoFaults w
    → find_first (λ x. x.id == id) w.db.certificates ≡ some c
    → update_status id status w ≡ (
      ok tt,
      record w {
        db = record w.db {
          certificates = map (changed id (set_status status w)) w.db.certificates;
        };
      },
    )
unfolding update_status
update_status_lem id status c w h found = change_lem _ id _ c w h found
