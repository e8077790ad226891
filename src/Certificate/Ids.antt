-- ===== src/Certificate/Ids.antt =====
-- The ids that `unique_sorted_ids` gives.
use kong_gateway_cert_lite.Prelude.{
  ℕ, ◌<◌, List, [], ◌∷◌, ◌≡◌, ◌≢◌, ◌⊎◌, ◌↔◌, inl, inr, arith, leb, ◌==◌, eq_ℕ, In, Distinct, All,
  sort_by, insert_sorted, Bool-cases,
}
use kong_gateway_cert_lite.Prelude.Unique.{unique, In-unique_iff, unique-Distinct}
use kong_gateway_cert_lite.Certificate.{unique_sorted_ids}

In-insert_sorted_iff :
    (x : ℕ) (ys : List ℕ) (a : ℕ) → In a (insert_sorted leb x ys) ↔ ((a ≡ x) ⊎ In a ys)
unfolding insert_sorted
In-insert_sorted_iff x [] a = ground arith
In-insert_sorted_iff x (y ∷ ys) a = ground (arith, In-insert_sorted_iff x ys a)

In-sort_by_iff : (xs : List ℕ) (a : ℕ) → In a (sort_by leb xs) ↔ In a xs
unfolding sort_by
In-sort_by_iff [] a = ground arith
In-sort_by_iff (x ∷ xs) a =
    ground (arith, In-sort_by_iff xs a, In-insert_sorted_iff x (sort_by leb xs) a)

-- Each element lies below all that follow it.
abbrev pub Ascending : List ℕ → Type 0
Ascending [] = Unit
Ascending (x ∷ xs) = All (λ y. x < y) xs × Ascending xs

All-insert_sorted :
    (b x : ℕ) (ys : List ℕ)
    → b < x
    → All (λ y. b < y) ys
    → All (λ y. b < y) (insert_sorted leb x ys)
unfolding insert_sorted
All-insert_sorted b x [] h hs = (h, tt)
All-insert_sorted b x (y ∷ ys) h hs = ground (arith, All-insert_sorted b x ys h hs.1)

All-below : (x y : ℕ) (ys : List ℕ) → x < y → All (λ z. y < z) ys → All (λ z. x < z) ys
All-below x y [] h hs = tt
All-below x y (z ∷ ys) h hs = (omega (arith, hs.0), All-below x y ys h hs.1)

Ascending-insert_sorted :
    (x : ℕ) (ys : List ℕ) → (¬ In x ys) → Ascending ys → Ascending (insert_sorted leb x ys)
unfolding insert_sorted
Ascending-insert_sorted x [] apart h = (tt, tt)
Ascending-insert_sorted x (y ∷ ys) apart h = elim (Bool-cases (leb x y)) [
  | inl before ↦ let less : x < y = ground arith in rw before ((less, All-below x y ys less h.0), h)
  | inr behind ↦
      let less : y < x = ground arith in
      rw behind
        (All-insert_sorted y x ys less h.0, Ascending-insert_sorted x ys (λ i. apart (inr i)) h.1)
]

Ascending-sort_by : (xs : List ℕ) → Distinct xs → Ascending (sort_by leb xs)
unfolding sort_by
Ascending-sort_by [] h = tt
Ascending-sort_by (x ∷ xs) h =
    Ascending-insert_sorted x (sort_by leb xs) (λ i. h.0 ((In-sort_by_iff xs x).0 i))
      (Ascending-sort_by xs h.1)

-- The list of ids that is stored holds the ids of the form that are not 0, and no other, in
-- ascending order and so none of them twice.
pub unique_sorted_ids_lem :
    (ids : List ℕ)
    → Ascending (unique_sorted_ids ids)
      × ((a : ℕ) → In a (unique_sorted_ids ids) ↔ ((a ≢ 0) × In a ids))
unfolding unique_sorted_ids
unique_sorted_ids_lem ids = (
  Ascending-sort_by (unique (λ id. id == 0) ids) (unique-Distinct (λ id. id == 0) ids),
  λ a. ground (
    arith,
    In-sort_by_iff (unique (λ id. id == 0) ids) a,
    In-unique_iff (λ (id : ℕ). id == 0) ids a,
  ),
)
