-- ===== src/Prelude/Unique.antt =====
-- The loops of Go code that gather values once each, with a map of those seen.
use mathlib.Core.Path.{◌≡◌, refl}
use mathlib.Core.Logic.{inr, ◌↔◌}
use mathlib.Core.Bool.{Bool, false, ◌||◌}
use mathlib.Core.List.{List, [], ◌∷◌}
use native.Mathlib.Omega.{arith}
use kong_gateway_cert_lite.Prelude.Tests.{if◌then◌else◌}
use kong_gateway_cert_lite.Prelude.Equality.{Eq, ==_iff, contains}
use kong_gateway_cert_lite.Prelude.Lists.{All, In, Distinct}

module _ {A : Type 0} ⦃e : Eq A⦄ (drop : A → Bool) where
  unfoldable pub unique_from : List A → List A → List A
  unique_from seen [] = []
  unique_from seen (x ∷ xs) =
      let dropped = drop x || contains seen x in
      let rest = unique_from (if dropped then seen else x ∷ seen) xs in
      if dropped then rest else x ∷ rest

  unfoldable pub unique : List A → List A
  unique xs = unique_from [] xs

  unique_from_iff :
      (seen xs : List A) (a : A)
      → In a (unique_from seen xs) ↔ ((contains seen a ≡ false) × (drop a ≡ false) × In a xs)
  unfolding unique_from
  unique_from_iff seen [] a = ground arith
  unique_from_iff seen (x ∷ xs) a =
      ground (arith, unique_from_iff seen xs a, unique_from_iff (x ∷ seen) xs a, ==_iff a x)

  -- The values gathered are those of the list that are not dropped.
  pub In-unique_iff : (xs : List A) (a : A) → In a (unique xs) ↔ ((drop a ≡ false) × In a xs)
  unfolding unique
  In-unique_iff xs a = ground (arith, unique_from_iff [] xs a)

  unique_from-Distinct : (seen xs : List A) → Distinct (unique_from seen xs)
  unfolding unique_from
  unique_from-Distinct seen [] = tt
  unique_from-Distinct seen (x ∷ xs) = ground (
    arith,
    unique_from-Distinct seen xs,
    unique_from-Distinct (x ∷ seen) xs,
    unique_from_iff (x ∷ seen) xs x,
    ==_iff x x,
  )

  pub unique-Distinct : (xs : List A) → Distinct (unique xs)
  unfolding unique
  unique-Distinct xs = unique_from-Distinct [] xs

  abbrev Unseen : List A → List A → Type 0
  Unseen seen xs = All (λ x. contains seen x ≡ false) xs

  Unseen-∷ : (seen xs : List A) (x : A) → (¬ In x xs) → Unseen seen xs → Unseen (x ∷ seen) xs
  Unseen-∷ seen [] x apart h = tt
  Unseen-∷ seen (y ∷ ys) x apart h =
      (ground (arith, ==_iff y x), Unseen-∷ seen ys x (λ i. apart (inr i)) h.1)

  unique_from_self :
      (seen xs : List A)
      → All (λ x. drop x ≡ false) xs
      → Distinct xs
      → Unseen seen xs
      → unique_from seen xs ≡ xs
  unfolding unique_from
  unique_from_self seen [] full apart h = refl
  unique_from_self seen (x ∷ xs) full apart h = ground (
    arith,
    full.0,
    h.0,
    unique_from_self (x ∷ seen) xs full.1 apart.1 (Unseen-∷ seen xs x apart.0 h.1),
  )

  Unseen-nil : (xs : List A) → Unseen [] xs
  Unseen-nil [] = tt
  Unseen-nil (x ∷ xs) = (refl, Unseen-nil xs)

  -- A list with nothing to drop stays as it is.
  pub unique_self : (xs : List A) → All (λ x. drop x ≡ false) xs → Distinct xs → unique xs ≡ xs
  unfolding unique
  unique_self xs full apart = unique_from_self [] xs full apart (Unseen-nil xs)
