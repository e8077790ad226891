-- ===== src/Certificate/Targets.antt =====
-- What `update_linked_targets` lets through to the links.
use kong_gateway_cert_lite.Prelude.{
  ℕ, List, [], ◌∷◌, Bool, true, false, not, some, ◌≡◌, ◌≢◌, inl, inr, refl, arith, All, In, any_row,
  find_first, any_row-found, sort_by, insert_sorted, ◌==◌, eq_ℕ, if◌then◌else◌,
}
use kong_gateway_cert_lite.Domain.{Certificate, KongTarget, validation}
use kong_gateway_cert_lite.World.{World, ok, err, statement}
use kong_gateway_cert_lite.World.Faults.{NoFaults}
use kong_gateway_cert_lite.Sqlite.Certificates
use kong_gateway_cert_lite.Sqlite.KongTargets
use kong_gateway_cert_lite.Sqlite.Links
use kong_gateway_cert_lite.Sqlite.Replaced.{Replaced, set_linked_targets-Replaced}
use kong_gateway_cert_lite.Certificate.{unique_sorted_ids, is_allowed, update_linked_targets}
use kong_gateway_cert_lite.Certificate.Ids.{unique_sorted_ids_lem}

any_row-insert_sorted :
    {A : Type 0} (before : A → A → Bool) (p : A → Bool) (x : A) (ys : List A)
    → any_row p (insert_sorted before x ys) ≡ any_row p (x ∷ ys)
unfolding insert_sorted
any_row-insert_sorted before p x [] = refl
any_row-insert_sorted before p x (y ∷ ys) = ground (arith, any_row-insert_sorted before p x ys)

any_row-sort_by :
    {A : Type 0} (before : A → A → Bool) (p : A → Bool) (xs : List A)
    → any_row p (sort_by before xs) ≡ any_row p xs
unfolding sort_by
any_row-sort_by before p [] = refl
any_row-sort_by before p (x ∷ xs) =
    ground
      (arith, any_row-insert_sorted before p x (sort_by before xs), any_row-sort_by before p xs)

-- The ids that name a target of the table.
abbrev pub names_target : World → ℕ → Bool
names_target w id = is_allowed w.db.kong_targets id

any_row-some : (p : ℕ → Bool) (xs : List ℕ) (a : ℕ) → In a xs → p a ≡ true → any_row p xs ≡ true
any_row-some p [] a i h = elim i [ ]
any_row-some p (x ∷ xs) a (inl e) h = let hit : p x ≡ true = rw (← e) h in rw hit refl
any_row-some p (x ∷ xs) a (inr i) h = ground (arith, any_row-some p xs a i h)

any_row-none :
    (p : ℕ → Bool) (xs : List ℕ) → ((a : ℕ) → In a xs → p a ≡ false) → any_row p xs ≡ false
any_row-none p [] h = refl
any_row-none p (x ∷ xs) h = rw (h x (inl refl)) (any_row-none p xs (λ a i. h a (inr i)))

module _ (id : ℕ) (ids : List ℕ) (c : Certificate) (w : World) (calm : NoFaults w)
    (found : find_first (λ x. x.id == id) w.db.certificates ≡ some c) where
  -- With the readings done, the test of the ids decides.
  update_linked_targets_lem : update_linked_targets id ids w ≡ (
      if any_row
        (λ a. not (is_allowed (sort_by KongTargets.is_before w.db.kong_targets) a))
        (unique_sorted_ids ids)
      then (err (validation (("kong_target_ids", "Select valid Kong targets.") ∷ [])), w)
      else Links.set_linked_targets id (unique_sorted_ids ids) w)
  unfolding update_linked_targets Certificates.get KongTargets.list_for_certificate statement
  update_linked_targets_lem = ground arith

  allowed_iff :
      (a : ℕ) → is_allowed (sort_by KongTargets.is_before w.db.kong_targets) a ≡ names_target w a
  allowed_iff a =
      any_row-sort_by KongTargets.is_before (λ (t : KongTarget). t.id == a) w.db.kong_targets

  allowed_stay :
      ((a : ℕ) → In a ids → a ≢ 0 → names_target w a ≡ true)
      → any_row
          (λ a. not (is_allowed (sort_by KongTargets.is_before w.db.kong_targets) a))
          (unique_sorted_ids ids)
        ≡ false
  allowed_stay known = any_row-none _ (unique_sorted_ids ids) (λ a i.
      let (pos, listed) = ((unique_sorted_ids_lem ids).1 a).0 i in
      rw (allowed_iff a) (rw (known a listed pos) refl))

  ends_exist :
      ((a : ℕ) → In a ids → a ≢ 0 → names_target w a ≡ true)
      → (xs : List ℕ) → ((a : ℕ) → In a xs → (a ≢ 0) × In a ids)
      → All (λ a. Links.has_ends w id a ≡ true) xs
  ends_exist known [] h = tt
  ends_exist known (a ∷ xs) h =
      let (pos, listed) = h a (inl refl) in
      (
        rw (any_row-found (λ (x : Certificate). x.id == id) w.db.certificates c found)
            (known a listed pos),
        ends_exist known xs (λ b i. h b (inr i)),
      )

-- With nothing refused by the system, choosing targets that are all in the table, for a
-- certificate that is in it, returns no error and links the certificate to exactly the chosen
-- ones; the other certificates are linked to the same targets as before, and a link that stays
-- keeps its row.
pub update_linked_targets-chooses :
    (id : ℕ) (ids : List ℕ) (c : Certificate) (w : World)
    → NoFaults w
    → find_first (λ x. x.id == id) w.db.certificates ≡ some c
    → ((a : ℕ) → In a ids → a ≢ 0 → names_target w a ≡ true)
    → ((update_linked_targets id ids w).0 ≡ ok tt)
      × Replaced id (unique_sorted_ids ids) w.db (update_linked_targets id ids w).1.db
update_linked_targets-chooses id ids c w calm found known =
    rw (update_linked_targets_lem id ids c w calm found) (
      rw (allowed_stay id ids c w calm found known) (
        set_linked_targets-Replaced id (unique_sorted_ids ids) w calm (
          ends_exist id ids c w calm found known (unique_sorted_ids ids)
            (λ a i. ((unique_sorted_ids_lem ids).1 a).0 i))))

-- With nothing refused by the system, an id other than 0 that is no target's makes the call for a
-- certificate of the table return a validation error and change nothing, whatever the other ids
-- are.
update_linked_targets-refuses :
    (id : ℕ) (ids : List ℕ) (c : Certificate) (w : World)
    → NoFaults w
    → find_first (λ x. x.id == id) w.db.certificates ≡ some c
    → (a : ℕ) → In a ids
    → a ≢ 0
    → names_target w a ≡ false
    → update_linked_targets id ids w
      ≡ (err (validation (("kong_target_ids", "Select valid Kong targets.") ∷ [])), w)
update_linked_targets-refuses id ids c w calm found a listed pos unknown =
    let refused : not (is_allowed (sort_by KongTargets.is_before w.db.kong_targets) a) ≡ true =
      rw (allowed_iff id ids c w calm found a) (rw unknown refl) in
    rw (update_linked_targets_lem id ids c w calm found) (
      rw
        (any_row-some (λ x. not (is_allowed (sort_by KongTargets.is_before w.db.kong_targets) x))
          (unique_sorted_ids ids) a (((unique_sorted_ids_lem ids).1 a).1 (pos, listed)) refused)
        refl)
