-- ===== src/Sqlite/Inserted.antt =====
-- What inserting and deleting links does to the table of links.
use kong_gateway_cert_lite.Prelude.{
  ℕ, List, [], ◌∷◌, ◌++◌, Bool, true, ◌&&◌, ◌||◌, not, ◌≡◌, inl, inr, refl, ◌∙◌, ap, arith, subst,
  All, In, any_row, keep, contains, ◌==◌, eq_ℕ, Bool-cases,
}
use kong_gateway_cert_lite.Domain.{CertificateKongTarget}
use kong_gateway_cert_lite.World.{World, Database, Result, ok, err, proceed}
use kong_gateway_cert_lite.World.Faults.{NoFaults, statement_of_NoFaults}
use kong_gateway_cert_lite.Sqlite.Links

any_row-append :
    {A : Type 0} (p : A → Bool) (xs : List A) (y : A)
    → any_row p (xs ++ y ∷ []) ≡ (any_row p xs || p y)
any_row-append p [] y = ground arith
any_row-append p (x ∷ xs) y = ground (arith, any_row-append p xs y)

In-left :
    (l : CertificateKongTarget) (xs ys : List CertificateKongTarget) → In l xs → In l (xs ++ ys)
In-left l [] ys i = elim i [ ]
In-left l (x ∷ xs) ys (inl e) = inl e
In-left l (x ∷ xs) ys (inr i) = inr (In-left l xs ys i)

-- A pair of ids is linked.
abbrev pub is_linked : Database → ℕ → ℕ → Bool
is_linked db certificate_id kong_target_id =
    any_row (Links.joins certificate_id kong_target_id) db.links

-- What inserting links of certificate `id` to the targets `ts` comes to.
pub record Inserted (id : ℕ) (ts : List ℕ) (w : World) (r : Result (Unit {0}) × World)
    : Type 0 where
  pub value : r.0 ≡ ok tt
  pub calm : NoFaults r.1
  pub certificates : r.1.db.certificates ≡ w.db.certificates
  pub kong_targets : r.1.db.kong_targets ≡ w.db.kong_targets
  pub pairs : (k t : ℕ) → is_linked r.1.db k t ≡ (is_linked w.db k t || (k == id && contains ts t))
  pub kept : (l : CertificateKongTarget) → In l w.db.links → In l r.1.db.links

module _ (id : ℕ) where
  insert_or_ignore-Inserted :
      (t : ℕ) (w : World)
      → NoFaults w
      → Links.has_ends w id t ≡ true
      → Inserted id (t ∷ []) w (Links.insert_or_ignore id t w)
  unfolding Links.insert_or_ignore
  insert_or_ignore-Inserted t w calm ends =
      rw (statement_of_NoFaults _ _ w calm)
        (elim (Bool-cases (any_row (Links.joins id t) w.db.links)) [
          | inl old ↦ rw old (record {
            value = refl;
            calm = calm;
            certificates = refl;
            kong_targets = refl;
            pairs = λ k u. elim (Bool-cases (k == id && u == t)) [
              | inl this ↦
                  let same_k : k ≡ id = ground arith in
                  let same_u : u ≡ t = ground arith in rw (same_k, same_u) (ground arith)
              | inr other ↦ ground arith
            ];
            kept = λ l i. i;
          })
          | inr new ↦ rw new (
              rw ends (record {
                value = refl;
                calm = calm;
                certificates = refl;
                kong_targets = refl;
                pairs = λ k u.
                    any_row-append (Links.joins k u) w.db.links (Links.new_link w id t)
                    ∙ ground arith;
                kept = λ l i. In-left l w.db.links _ i;
              }))
        ])

  unfoldable pub EndsExist : World → List ℕ → Type 0
  EndsExist w ts = All (λ t. Links.has_ends w id t ≡ true) ts

  pub EndsExist-same :
      (w v : World) (ts : List ℕ)
      → v.db.certificates ≡ w.db.certificates
      → v.db.kong_targets ≡ w.db.kong_targets
      → EndsExist w ts
      → EndsExist v ts
  unfolding EndsExist
  EndsExist-same w v [] p q h = tt
  EndsExist-same w v (t ∷ ts) p q h = (rw (p, q) h.0, EndsExist-same w v ts p q h.1)

  followed :
      (t : ℕ) (ts : List ℕ) (w : World) (r : Result (Unit {0}) × World)
      → Inserted id (t ∷ []) w r
      → Inserted id ts r.1 (Links.insert_all id ts r.1)
      → Inserted id (t ∷ ts) w (proceed (λ _. Links.insert_all id ts) r)
  followed t ts w (err e, v) first rest = absurd (ground (arith, first.value))
  followed t ts w (ok a, v) first rest = record {
    value = rest.value;
    calm = rest.calm;
    certificates = rest.certificates ∙ first.certificates;
    kong_targets = rest.kong_targets ∙ first.kong_targets;
    pairs = λ k u. ground (arith, rest.pairs k u, first.pairs k u);
    kept = λ l i. rest.kept l (first.kept l i);
  }

  pub insert_all-Inserted :
      (ts : List ℕ) (w : World)
      → NoFaults w
      → EndsExist w ts
      → Inserted id ts w (Links.insert_all id ts w)
  unfolding Links.insert_all EndsExist
  insert_all-Inserted [] w calm ends = record {
    value = refl;
    calm = calm;
    certificates = refl;
    kong_targets = refl;
    pairs = λ k u. ground arith;
    kept = λ l i. i;
  }
  insert_all-Inserted (t ∷ ts) w calm ends =
      let first = insert_or_ignore-Inserted t w calm ends.0 in
      let rest = (Links.insert_or_ignore id t w).1 in
      followed t ts w (Links.insert_or_ignore id t w) first (
        insert_all-Inserted ts rest first.calm
          (EndsExist-same w rest ts first.certificates first.kong_targets ends.1))

  -- The rows that the DELETE leaves.
  abbrev pub stays : List ℕ → CertificateKongTarget → Bool
  stays ts l = not (Links.is_of id l && not (contains ts l.kong_target_id))

  pub any_row-keep-stays :
      (ts : List ℕ) (k u : ℕ) (ls : List CertificateKongTarget)
      → any_row (Links.joins k u) (keep (stays ts) ls)
        ≡ (any_row (Links.joins k u) ls && not (k == id && not (contains ts u)))
  any_row-keep-stays ts k u [] = refl
  any_row-keep-stays ts k u (l ∷ ls) = elim (Bool-cases (Links.joins k u l)) [
    | inl this ↦
        let same_k : l.certificate_id ≡ k = ground arith in
        let same_u : l.kong_target_id ≡ u = ground arith in
        ground (arith, any_row-keep-stays ts k u ls, same_k, ap (contains ts) same_u)
    | inr other ↦ ground (arith, any_row-keep-stays ts k u ls)
  ]

  pub In-keep-stays :
      (ts : List ℕ) (l : CertificateKongTarget) (ls : List CertificateKongTarget)
      → stays ts l ≡ true
      → In l ls
      → In l (keep (stays ts) ls)
  In-keep-stays ts l [] h i = elim i [ ]
  In-keep-stays ts l (x ∷ ls) h (inl e) =
      let same : stays ts x ≡ true = subst (λ y. stays ts y ≡ true) e h in rw same (inl e)
  In-keep-stays ts l (x ∷ ls) h (inr i) = ground (arith, In-keep-stays ts l ls h i)
