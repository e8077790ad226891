-- ===== src/Reachable/Sound.antt =====
-- internal/db/migrations/001_initial.sql: the keys of the four tables, and what keeps them in order.
use kong_gateway_cert_lite.Prelude.{
  ℕ, suc, ◌≤◌, ◌<◌, List, [], ◌∷◌, ◌++◌, map, Bool, true, false, not, Option, none, some, ◌≡◌, refl,
  arith, All, All-append, keep, ◌==◌, eq_ℕ,
}
use kong_gateway_cert_lite.Domain.{Certificate, KongTarget, CertificateKongTarget, Job}
use kong_gateway_cert_lite.World.{Database}
use kong_gateway_cert_lite.Sqlite.Columns.{refers}

-- The ids of a table's rows are above 0, ascending, and not above the last one given out, so that
-- no two rows have the same.
module _ {A : Type 0} (id : A → ℕ) where
  abbrev pub Numbered : ℕ → List A → Type 0
  Numbered last [] = Unit
  Numbered last (a ∷ rows) =
      ((0 < id a) × (id a ≤ last)) × All (λ b. id a < id b) rows × Numbered last rows

  pub Numbered-below : (last : ℕ) (rows : List A) → Numbered last rows → All (λ a. id a ≤ last) rows
  Numbered-below last [] h = tt
  Numbered-below last (a ∷ rows) h = (h.0.1, Numbered-below last rows h.2)

  above_append :
      (n : ℕ) (rows : List A) (a : A)
      → All (λ b. n < id b) rows
      → n < id a
      → All (λ b. n < id b) (rows ++ a ∷ [])
  above_append n rows a h l = All-append (λ b. n < id b) rows (a ∷ []) h (l, tt)

  pub Numbered-append :
      (last : ℕ) (rows : List A) (a : A)
      → Numbered last rows
      → id a ≡ suc last
      → Numbered (suc last) (rows ++ a ∷ [])
  Numbered-append last [] a h e = ((omega (arith, e), omega (arith, e)), tt, tt)
  Numbered-append last (x ∷ xs) a h e = (
    (h.0.0, omega (arith, h.0.1)),
    above_append (id x) xs a h.1 (omega (arith, e, h.0.1)),
    Numbered-append last xs a h.2 e,
  )

  module _ (f : A → A) (same : (a : A) → id (f a) ≡ id a) where
    above_map :
        (n : ℕ) (rows : List A) → All (λ b. n < id b) rows → All (λ b. n < id b) (map f rows)
    above_map n [] h = tt
    above_map n (a ∷ rows) h = (rw (same a) h.0, above_map n rows h.1)

    pub Numbered-map : (last : ℕ) (rows : List A) → Numbered last rows → Numbered last (map f rows)
    Numbered-map last [] h = tt
    Numbered-map last (a ∷ rows) h =
        (rw (same a) h.0, rw (same a) (above_map (id a) rows h.1), Numbered-map last rows h.2)

    pub refers-map : (rows : List A) (k : Option ℕ) → refers id (map f rows) k ≡ refers id rows k
    refers-map rows none = refl
    refers-map [] (some k) = refl
    refers-map (a ∷ rows) (some k) = ground (arith, same a, refers-map rows (some k))

  above_keep :
      (p : A → Bool) (n : ℕ) (rows : List A)
      → All (λ b. n < id b) rows
      → All (λ b. n < id b) (keep p rows)
  above_keep p n [] h = tt
  above_keep p n (a ∷ rows) h = ground (arith, above_keep p n rows h.1)

  pub Numbered-keep :
      (p : A → Bool) (last : ℕ) (rows : List A) → Numbered last rows → Numbered last (keep p rows)
  Numbered-keep p last [] h = tt
  Numbered-keep p last (a ∷ rows) h =
      ground (arith, Numbered-keep p last rows h.2, above_keep p (id a) rows h.1)

  pub refers-append :
      (rows : List A) (a : A) (k : Option ℕ)
      → refers id rows k ≡ true
      → refers id (rows ++ a ∷ []) k ≡ true
  refers-append rows a none h = refl
  refers-append [] a (some k) h = ground arith
  refers-append (x ∷ xs) a (some k) h = ground (arith, refers-append xs a (some k))

  pub refers-keep :
      (gone : ℕ) (rows : List A) (k : ℕ)
      → (k == gone) ≡ false
      → refers id rows (some k) ≡ true
      → refers id (keep (λ a. not (id a == gone)) rows) (some k) ≡ true
  refers-keep gone [] k other h = h
  refers-keep gone (a ∷ rows) k other h = ground (arith, refers-keep gone rows k other)

-- The foreign keys.
abbrev pub HasRow : {A : Type 0} (id : A → ℕ) (rows : List A) → Option ℕ → Type 0
HasRow id rows k = refers id rows k ≡ true

abbrev pub of_certificate : Certificate → ℕ
of_certificate c = c.id

abbrev pub of_target : KongTarget → ℕ
of_target t = t.id

abbrev pub LinkEnds : List Certificate → List KongTarget → CertificateKongTarget → Type 0
LinkEnds cs ts l =
    HasRow of_certificate cs (some l.certificate_id) × HasRow of_target ts (some l.kong_target_id)

abbrev pub JobEnds : List Certificate → List KongTarget → Job → Type 0
JobEnds cs ts j = HasRow of_certificate cs j.certificate_id × HasRow of_target ts j.kong_target_id

-- The keys of the four tables are in order: ids are unique and were given out, and each reference
-- to a certificate or a target is to a row.
pub record Sound (db : Database) : Type 0 where
  pub certificates : Numbered of_certificate db.last_certificate db.certificates
  pub kong_targets : Numbered of_target db.last_kong_target db.kong_targets
  pub links : Numbered (λ (l : CertificateKongTarget). l.id) db.last_link db.links
  pub jobs : Numbered (λ (j : Job). j.id) db.last_job db.jobs
  pub link_ends : All (LinkEnds db.certificates db.kong_targets) db.links
  pub job_ends : All (JobEnds db.certificates db.kong_targets) db.jobs
