-- ===== src/Certificate/Lines.antt =====
-- What `split_lines` gives: trimmed lines that are not empty, without repetition; and that it gives
-- such lines back when they have been joined.
use kong_gateway_cert_lite.Prelude.{
  List, [], ◌∷◌, map, false, ◌≡◌, ◌≢◌, inl, inr, refl, ◌∙◌, ap, arith, All, In, Distinct, eq_ℕ,
  eq_List, is_empty,
}
use kong_gateway_cert_lite.Prelude.Unique.{
  unique, unique_from, In-unique_iff, unique-Distinct, unique_self,
}
use kong_gateway_cert_lite.Text.{Text, trim_space, split_on, join}
use kong_gateway_cert_lite.Text.Trim.{IsTrimmed, trim_space_idempotent, All-trim_space}
use kong_gateway_cert_lite.Text.Split.{Free, split_on-Free, split_on-join}
use kong_gateway_cert_lite.Certificate.{split_lines}

-- A line as the database holds it: on one line, not empty, no white space at its ends.
abbrev pub IsLine : Text → Type 0
IsLine s = (Free b'\n' s) × (IsTrimmed s) × (is_empty s ≡ false)

abbrev pub IsLines : List Text → Type 0
IsLines xs = All IsLine xs × Distinct xs

All-In : (P : Text → Type 0) (xs : List Text) → ((x : Text) → In x xs → P x) → All P xs
All-In P [] h = tt
All-In P (x ∷ xs) h = (h x (inl refl), All-In P xs (λ y i. h y (inr i)))

In-map-trim_space :
    (ls : List Text) (x : Text)
    → All (Free b'\n') ls
    → In x (map trim_space ls)
    → (Free b'\n' x) × (IsTrimmed x)
In-map-trim_space [] x h i = elim i [ ]
In-map-trim_space (l ∷ ls) x h (inl e) =
    rw e (All-trim_space (λ c. c ≢ b'\n') l h.0, trim_space_idempotent l)
In-map-trim_space (l ∷ ls) x h (inr i) = In-map-trim_space ls x h.1 i

-- Whatever text a form field holds, the list made of it has trimmed lines only, none of them empty,
-- and none of them twice.
pub split_lines-IsLines : (value : Text) → IsLines (split_lines value)
unfolding split_lines
split_lines-IsLines value =
    let trimmed = map trim_space (split_on b'\n' value) in
    (
      All-In IsLine (unique is_empty trimmed) (λ x i.
          let (full, listed) = (In-unique_iff is_empty trimmed x).0 i in
          let (free, trim) =
            In-map-trim_space (split_on b'\n' value) x (split_on-Free b'\n' value) listed in
          (free, trim, full)),
      unique-Distinct is_empty trimmed,
    )

trimmed_lines : (xs : List Text) → All IsLine xs → map trim_space xs ≡ xs
trimmed_lines [] h = refl
trimmed_lines (x ∷ xs) h = ground (arith, h.0.1, trimmed_lines xs h.1)

lines-Free : (xs : List Text) → All IsLine xs → All (Free b'\n') xs
lines-Free [] h = tt
lines-Free (x ∷ xs) h = (h.0.0, lines-Free xs h.1)

lines_full : (xs : List Text) → All IsLine xs → All (λ x. is_empty x ≡ false) xs
lines_full [] h = tt
lines_full (x ∷ xs) h = (h.0.2, lines_full xs h.1)

no_lines : split_lines (join (b'\n' ∷ []) []) ≡ []
unfolding split_lines join split_on trim_space unique unique_from
no_lines = refl

-- Trimmed lines without newlines, none of them empty and none of them twice, come back from the
-- text that joins them with newlines, in their order.
pub split_lines-join : (xs : List Text) → IsLines xs → split_lines (join (b'\n' ∷ []) xs) ≡ xs
unfolding split_lines
split_lines-join [] h = no_lines
split_lines-join (x ∷ xs) h =
    let split = split_on-join b'\n' x xs (lines-Free (x ∷ xs) h.0) in
    let trim = trimmed_lines (x ∷ xs) h.0 in
    ap (λ ls. unique is_empty (map trim_space ls)) split
    ∙ (ap (unique is_empty) trim ∙ unique_self is_empty (x ∷ xs) (lines_full (x ∷ xs) h.0) h.1)
