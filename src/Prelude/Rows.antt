-- ===== src/Prelude/Rows.antt =====
-- Laws of the tests and filters that the SQL statements are made of.
use mathlib.Core.Path.{◌≡◌, sym}
use mathlib.Core.Logic.{◌↔◌, inl, inr, ◌≢◌}
use mathlib.Core.Bool.{Bool, true, false}
use mathlib.Core.Option.{none, some}
use mathlib.Core.List.{List, [], ◌∷◌, head?}
use native.Mathlib.Omega.{arith}
use kong_gateway_cert_lite.Prelude.Tests.{Bool-cases}
use kong_gateway_cert_lite.Prelude.Lists.{All, keep, any_row, find_first, In}
use kong_gateway_cert_lite.Prelude.Sort.{sort_by, insert_sorted}

module _ {A : Type 0} (p : A → Bool) where
  pub any_row-false_iff : (xs : List A) → (any_row p xs ≡ false) ↔ All (λ x. p x ≡ false) xs
  any_row-false_iff [] = ground arith
  any_row-false_iff (x ∷ xs) = ground (arith, any_row-false_iff xs)

  pub keep-empty_iff : (xs : List A) → (keep p xs ≡ []) ↔ All (λ x. p x ≡ false) xs
  keep-empty_iff [] = ground arith
  keep-empty_iff (x ∷ xs) = ground (arith, keep-empty_iff xs)

module _ {A : Type 0} (before : A → A → Bool) where
  insert_sorted-ne-nil : (x : A) (xs : List A) → insert_sorted before x xs ≢ []
  unfolding insert_sorted
  insert_sorted-ne-nil x [] = λ e. cc
  insert_sorted-ne-nil x (y ∷ ys) = ground arith

  -- A sorted list is empty only where the list is.
  pub head?-sort_by-none_iff : (xs : List A) → (head? (sort_by before xs) ≡ none) ↔ (xs ≡ [])
  unfolding sort_by
  head?-sort_by-none_iff [] = ground arith
  head?-sort_by-none_iff (x ∷ xs) = ground (arith, insert_sorted-ne-nil x (sort_by before xs))

module _ {A : Type 0} (p : A → Bool) where
  -- What `find_first` finds passes the test and is a row.
  pub find_first-some :
      (xs : List A) (a : A)
      → find_first p xs ≡ some a
      → (p a ≡ true) × (any_row p xs ≡ true) × In a xs
  find_first-some [] a e = cc
  find_first-some (x ∷ xs) a e = elim (Bool-cases (p x)) [
    | inl hit ↦ let same : x ≡ a = ground arith in (rw (← same) hit, ground arith, inl (sym same))
    | inr miss ↦ let (h, r, i) = find_first-some xs a (ground arith) in (h, ground arith, inr i)
  ]

  pub find_first-any_row :
      (xs : List A) → any_row p xs ≡ true → (a : A) × (find_first p xs ≡ some a)
  find_first-any_row [] e = cc
  find_first-any_row (x ∷ xs) e = elim (Bool-cases (p x)) [
    | inl hit ↦ (x, ground arith)
    | inr miss ↦ let (a, f) = find_first-any_row xs (ground arith) in (a, ground arith)
  ]

  pub any_row-found : (xs : List A) (a : A) → find_first p xs ≡ some a → any_row p xs ≡ true
  any_row-found [] a e = cc
  any_row-found (x ∷ xs) a e = ground (arith, any_row-found xs a)
