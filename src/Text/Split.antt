-- ===== src/Text/Split.antt =====
-- Laws of `split_on` and `join`: joining undoes splitting and splitting undoes joining.
use kong_gateway_cert_lite.Prelude.{
  ℕ, List, [], ◌∷◌, ◌++◌, ◌≡◌, ◌≢◌, refl, ◌∙◌, ap, inl, inr, arith, All, Bool-cases, ◌==◌, eq_ℕ,
  ==_iff,
}
use kong_gateway_cert_lite.Text.{Text, push_head, split_on, join}

-- A text without the separator.
abbrev pub Free : ℕ → Text → Type 0
Free d s = All (λ c. c ≢ d) s

push_head-Free :
    (d c : ℕ) (xs : List Text) → c ≢ d → All (Free d) xs → All (Free d) (push_head c xs)
unfolding push_head
push_head-Free d c [] p h = ((p, tt), tt)
push_head-Free d c (x ∷ xs) p h = ((p, h.0), h.1)

-- No piece holds the separator.
pub split_on-Free : (d : ℕ) (s : Text) → All (Free d) (split_on d s)
unfolding split_on
split_on-Free d [] = (tt, tt)
split_on-Free d (c ∷ s) = elim (Bool-cases (c == d)) [
  | inl same ↦ rw same (tt, split_on-Free d s)
  | inr other ↦
      rw other (push_head-Free d c (split_on d s) (λ e. cc ((==_iff c d).1 e)) (split_on-Free d s))
]

split_on-append :
    (d : ℕ) (x rest : Text) → Free d x → split_on d (x ++ d ∷ rest) ≡ x ∷ split_on d rest
unfolding split_on push_head
split_on-append d [] rest h = ground (arith, ==_iff d d)
split_on-append d (c ∷ x) rest h = ground (arith, ==_iff c d, split_on-append d x rest h.1)

split_on_of_Free : (d : ℕ) (x : Text) → Free d x → split_on d x ≡ x ∷ []
unfolding split_on push_head
split_on_of_Free d [] h = refl
split_on_of_Free d (c ∷ x) h = ground (arith, ==_iff c d, split_on_of_Free d x h.1)

-- Splitting what `join` made of pieces without the separator gives the pieces back.
pub split_on-join :
    (d : ℕ) (x : Text) (xs : List Text)
    → All (Free d) (x ∷ xs)
    → split_on d (join (d ∷ []) (x ∷ xs)) ≡ x ∷ xs
unfolding join
split_on-join d x [] h = split_on_of_Free d x h.0
split_on-join d x (y ∷ ys) h =
    split_on-append d x (join (d ∷ []) (y ∷ ys)) h.0 ∙ ap (λ r. x ∷ r) (split_on-join d y ys h.1)
