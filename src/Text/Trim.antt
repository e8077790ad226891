-- ===== src/Text/Trim.antt =====
-- Laws of `trim_space`.
use kong_gateway_cert_lite.Prelude.{
  false, ℕ, [], ◌∷◌, ◌&&◌, ◌≡◌, refl, ◌∙◌, ap, inl, inr, arith, All, Bool-cases, is_empty,
}
use kong_gateway_cert_lite.Text.{Text, is_space, trim_left, trim_right, trim_space}

-- Go code that has trimmed a text keeps it as it is when it trims it again.
abbrev pub IsTrimmed : Text → Type 0
IsTrimmed s = trim_space s ≡ s

trim_right_idempotent : (s : Text) → trim_right (trim_right s) ≡ trim_right s
unfolding trim_right
trim_right_idempotent [] = refl
trim_right_idempotent (c ∷ s) = ground (arith, trim_right_idempotent s)

trim_left-trim_right : (s : Text) → trim_left (trim_right (trim_left s)) ≡ trim_right (trim_left s)
unfolding trim_left trim_right
trim_left-trim_right [] = refl
trim_left-trim_right (c ∷ s) = ground (arith, trim_left-trim_right s)

pub trim_space_idempotent : (s : Text) → IsTrimmed (trim_space s)
unfolding trim_space
trim_space_idempotent s =
    ap trim_right (trim_left-trim_right s) ∙ trim_right_idempotent (trim_left s)

trim_left_of_full : (s : Text) → All (λ c. is_space c ≡ false) s → trim_left s ≡ s
unfolding trim_left
trim_left_of_full [] h = refl
trim_left_of_full (c ∷ s) h = rw h.0 refl

trim_right_of_full : (s : Text) → All (λ c. is_space c ≡ false) s → trim_right s ≡ s
unfolding trim_right
trim_right_of_full [] h = refl
trim_right_of_full (c ∷ s) h = ground (arith, h.0, trim_right_of_full s h.1)

-- A text without white space is kept.
pub trim_space_of_full : (s : Text) → All (λ c. is_space c ≡ false) s → IsTrimmed s
unfolding trim_space
trim_space_of_full s h = rw (trim_left_of_full s h) (trim_right_of_full s h)

module _ (P : ℕ → Type 0) where
  All-trim_left : (s : Text) → All P s → All P (trim_left s)
  unfolding trim_left
  All-trim_left [] h = tt
  All-trim_left (c ∷ s) h = elim (Bool-cases (is_space c)) [
    | inl space ↦ rw space (All-trim_left s h.1)
    | inr other ↦ rw other h
  ]

  All-trim_right : (s : Text) → All P s → All P (trim_right s)
  unfolding trim_right
  All-trim_right [] h = tt
  All-trim_right (c ∷ s) h = elim (Bool-cases (is_space c && is_empty (trim_right s))) [
    | inl dropped ↦ rw dropped tt
    | inr kept ↦ rw kept (h.0, All-trim_right s h.1)
  ]

  -- What holds of every code point of a text holds of those that trimming leaves.
  pub All-trim_space : (s : Text) → All P s → All P (trim_space s)
  unfolding trim_space
  All-trim_space s h = All-trim_right (trim_left s) (All-trim_left s h)
