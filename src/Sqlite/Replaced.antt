-- ===== src/Sqlite/Replaced.antt =====
-- What the transaction of `set_linked_targets` does to the links.
use kong_gateway_cert_lite.Prelude.{
  ℕ, List, true, ◌≡◌, ◌≢◌, ◌⊎◌, inl, inr, refl, sym, arith, subst, All, In, keep, contains,
  In→contains, eq_ℕ,
}
use kong_gateway_cert_lite.Text.{lit}
use kong_gateway_cert_lite.Domain.{CertificateKongTarget}
use kong_gateway_cert_lite.World.{World, Database, Result, ok, err, pure, proceed, statement}
use kong_gateway_cert_lite.World.Faults.{NoFaults, statement_of_NoFaults}
use kong_gateway_cert_lite.Sqlite.Columns.{roll_back}
use kong_gateway_cert_lite.Sqlite.Links
use kong_gateway_cert_lite.Sqlite.Inserted.{
  is_linked, Inserted, EndsExist, EndsExist-same, insert_all-Inserted, stays, any_row-keep-stays,
  In-keep-stays,
}

-- What replacing the links of certificate `id` by those to the targets `ts` comes to.
pub record Replaced (id : ℕ) (ts : List ℕ) (db db' : Database) : Type 0 where
  pub ours : (t : ℕ) → is_linked db' id t ≡ contains ts t
  pub others : (k t : ℕ) → k ≢ id → is_linked db' k t ≡ is_linked db k t
  pub kept :
      (l : CertificateKongTarget)
      → (l.certificate_id ≢ id) ⊎ In l.kong_target_id ts
      → In l db.links
      → In l db'.links

module _ (id : ℕ) (ts : List ℕ) (w : World) (calm : NoFaults w) where
  abbrev cleared : World
  cleared = Links.with_links w (keep (stays id ts) w.db.links)

  Inserted-Replaced :
      (r : Result (Unit {0}) × World) → Inserted id ts cleared r → Replaced id ts w.db r.1.db
  Inserted-Replaced r made = record {
    ours = λ t. ground (arith, made.pairs id t, any_row-keep-stays id ts id t w.db.links);
    others = λ k t ne. ground (arith, made.pairs k t, any_row-keep-stays id ts k t w.db.links);
    kept = λ l why i. made.kept l (In-keep-stays id ts l w.db.links (staying l why) i);
  }
    where
      staying :
          (l : CertificateKongTarget)
          → (l.certificate_id ≢ id) ⊎ In l.kong_target_id ts
          → stays id ts l ≡ true
      staying l (inl apart) = ground arith
      staying l (inr listed) = ground (arith, In→contains ts l.kong_target_id listed)

  committed :
      (r : Result (Unit {0}) × World)
      → Inserted id ts cleared r
      → ((roll_back w.db (proceed (λ _. statement (lit "commit linked targets") (pure tt)) r)).0
          ≡ ok tt)
        × ((roll_back w.db
              (proceed (λ _. statement (lit "commit linked targets") (pure tt)) r)).1.db
            ≡ r.1.db)
  committed (err e, v) made = absurd (ground (arith, made.value))
  committed (ok a, v) made =
      rw (statement_of_NoFaults (lit "commit linked targets") (pure tt) v made.calm) (refl, refl)

-- With nothing refused by the system, replacing the links of an existing certificate by those to
-- existing targets succeeds: afterwards it is linked to exactly these targets, the other
-- certificates are linked to the same targets as before, and a link of the certificate that was
-- there already keeps its row, with its Kong certificate id and its status.
pub set_linked_targets-Replaced :
    (id : ℕ) (ts : List ℕ) (w : World)
    → NoFaults w
    → All (λ t. Links.has_ends w id t ≡ true) ts
    → ((Links.set_linked_targets id ts w).0 ≡ ok tt)
      × Replaced id ts w.db (Links.set_linked_targets id ts w).1.db
unfolding Links.set_linked_targets Links.delete_unlinked EndsExist
set_linked_targets-Replaced id ts w calm ends =
    let made =
      insert_all-Inserted id ts (cleared id ts w calm) calm
        (EndsExist-same id w (cleared id ts w calm) ts refl refl ends) in
    let (value, db) = committed id ts w calm (Links.insert_all id ts (cleared id ts w calm)) made in
    rw (statement_of_NoFaults _ (pure tt) w calm) (
      rw (statement_of_NoFaults _ _ w calm)
        (value, subst (Replaced id ts w.db) (sym db) (Inserted-Replaced id ts w calm _ made)))
