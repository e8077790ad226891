-- ===== src/Prelude/Kept.antt =====
-- Lengths and members of lists that are sorted, filtered, mapped and cut.
use Prim.Native.Nat.{ℕ, zero, suc, ◌≤◌}
use mathlib.Core.Path.{◌≡◌, refl, ◌∙◌, ap}
use mathlib.Core.Bool.{Bool, true}
use mathlib.Core.List.{List, [], ◌∷◌, map}
use native.Mathlib.Omega.{arith}
use kong_gateway_cert_lite.Prelude.Lists.{length, In, keep, take}
use kong_gateway_cert_lite.Prelude.Sort.{sort_by, insert_sorted}

module _ {A : Type 0} where
  length-insert_sorted :
      (before : A → A → Bool) (x : A) (ys : List A)
      → length (insert_sorted before x ys) ≡ suc (length ys)
  unfolding insert_sorted
  length-insert_sorted before x [] = refl
  length-insert_sorted before x (y ∷ ys) = ground (arith, length-insert_sorted before x ys)

  pub length-sort_by :
      (before : A → A → Bool) (xs : List A) → length (sort_by before xs) ≡ length xs
  unfolding sort_by
  length-sort_by before [] = refl
  length-sort_by before (x ∷ xs) =
      length-insert_sorted before x (sort_by before xs) ∙ ap suc (length-sort_by before xs)

  In-insert_sorted :
      (before : A → A → Bool) (a x : A) (ys : List A)
      → (In a (x ∷ ys) → In a (insert_sorted before x ys))
        × (In a (insert_sorted before x ys) → In a (x ∷ ys))
  unfolding insert_sorted
  In-insert_sorted before a x [] = (λ i. i, λ i. i)
  In-insert_sorted before a x (y ∷ ys) = ground (arith, In-insert_sorted before a x ys)

  pub In-sort_by :
      (before : A → A → Bool) (a : A) (xs : List A)
      → (In a xs → In a (sort_by before xs)) × (In a (sort_by before xs) → In a xs)
  unfolding sort_by
  In-sort_by before a [] = (λ i. i, λ i. i)
  In-sort_by before a (x ∷ xs) =
      ground (arith, In-insert_sorted before a x (sort_by before xs), In-sort_by before a xs)

  pub In-keep :
      (p : A → Bool) (a : A) (xs : List A)
      → (In a (keep p xs) → In a xs × (p a ≡ true)) × (In a xs → p a ≡ true → In a (keep p xs))
  In-keep p a [] = (λ i. elim i [ ], λ i e. i)
  In-keep p a (x ∷ xs) = ground (arith, In-keep p a xs)

  pub length-take : (n : ℕ) (xs : List A) → length (take n xs) ≤ n
  length-take zero xs = omega arith
  length-take (suc n) [] = omega arith
  length-take (suc n) (x ∷ xs) = omega (arith, length-take n xs)

  pub length-take_full : (n : ℕ) (xs : List A) → n ≤ length xs → length (take n xs) ≡ n
  length-take_full zero xs h = refl
  length-take_full (suc n) [] h = omega arith
  length-take_full (suc n) (x ∷ xs) h = omega (arith, length-take_full n xs)

  pub In-take : (n : ℕ) (a : A) (xs : List A) → In a (take n xs) → In a xs
  In-take zero a xs i = elim i [ ]
  In-take (suc n) a [] i = i
  In-take (suc n) a (x ∷ xs) i = ground (arith, In-take n a xs)

pub length-map : {A B : Type 0} (f : A → B) (xs : List A) → length (map f xs) ≡ length xs
length-map f [] = refl
length-map f (x ∷ xs) = ap suc (length-map f xs)
