-- ===== src/Prelude/Equality.antt =====
-- Equality tests as an interface, and the tests on lists that need one.
use Prim.Native.Nat.{ℕ}
use mathlib.Core.Path.{◌≡◌, refl}
use mathlib.Core.Logic.{◌↔◌, inl, inr}
use mathlib.Core.Bool.{Bool, true, false, ◌&&◌, ◌||◌}
use mathlib.Core.List.{List, [], ◌∷◌}
use native.Mathlib.Omega.{arith}
use kong_gateway_cert_lite.Prelude.Tests.{nat_eq, nat_eq_iff}
use kong_gateway_cert_lite.Prelude.Lists.{In}

pub record Eq {ℓ} (A : Type ℓ) : Type ℓ where
  pub is_same : A → A → Bool
  pub is_same_iff : (a b : A) → (is_same a b ≡ true) ↔ (a ≡ b)

instance abbrev pub eq_ℕ : Eq ℕ
eq_ℕ = record { is_same = nat_eq; is_same_iff = nat_eq_iff }

module _ {ℓ} {A : Type ℓ} ⦃e : Eq A⦄ where
  -- Go's operator on values that can be compared.
  infix 50 ◌==◌
  abbrev pub ◌==◌ : A → A → Bool
  a == b = e.is_same a b

  -- A lookup in a Go set, `map[A]struct{}`.
  abbrev pub contains : List A → A → Bool
  contains [] a = false
  contains (x ∷ xs) a = (a == x) || contains xs a

  pub ==_iff : (a b : A) → ((a == b) ≡ true) ↔ (a ≡ b)
  ==_iff a b = e.is_same_iff a b

  pub ==_self : (a : A) → (a == a) ≡ true
  ==_self a = (e.is_same_iff a a).1 refl

module _ {A : Type 0} ⦃e : Eq A⦄ where
  pub contains→In : (xs : List A) (a : A) → contains xs a ≡ true → In a xs
  contains→In [] a h = cc
  contains→In (x ∷ xs) a h = ground (arith, e.is_same_iff a x, contains→In xs a)

  pub In→contains : (xs : List A) (a : A) → In a xs → contains xs a ≡ true
  In→contains [] a h = elim h [ ]
  In→contains (x ∷ xs) a (inl p) = ground (arith, e.is_same_iff a x)
  In→contains (x ∷ xs) a (inr q) = ground (arith, In→contains xs a q)

module _ {ℓ} {A : Type ℓ} ⦃e : Eq A⦄ where
  unfoldable pub list_eq : List A → List A → Bool
  list_eq [] [] = true
  list_eq (x ∷ xs) (y ∷ ys) = (x == y) && list_eq xs ys
  list_eq _ _ = false

  pub list_eq_iff : (xs ys : List A) → (list_eq xs ys ≡ true) ↔ (xs ≡ ys)
  unfolding list_eq
  list_eq_iff [] [] = ground arith
  list_eq_iff [] (y ∷ ys) = ground arith
  list_eq_iff (x ∷ xs) [] = ground arith
  list_eq_iff (x ∷ xs) (y ∷ ys) = ground (arith, e.is_same_iff x y, list_eq_iff xs ys)

instance abbrev pub eq_List {ℓ} : {A : Type ℓ} ⦃e : Eq A⦄ → Eq (List A)
eq_List = record { is_same = list_eq; is_same_iff = list_eq_iff }
