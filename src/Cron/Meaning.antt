-- ===== src/Cron/Meaning.antt =====
-- What a cron field means, apart from how it is parsed, and that the parser agrees.
use kong_gateway_cert_lite.Prelude.{
  ℕ, ◌≤◌, ◌<◌, List, [], ◌∷◌, ◌++◌, true, false, ◌||◌, Option, none, some, ◌≡◌, ◌≢◌, ◌↔◌, ◌⊎◌, inl,
  inr, refl, subst, arith, contains, ◌==◌, ==_iff, eq_ℕ, eq_List, Bool-cases,
}
use kong_gateway_cert_lite.Prelude.Int.{ℤ, pos, negsuc, eq_ℤ, int_eq}
use kong_gateway_cert_lite.Text.{Text, lit, trim_space, split_on, has_prefix}
use kong_gateway_cert_lite.Text.Number.{atoi, int64_max, atoi-le, atoi_star}
use kong_gateway_cert_lite.Cron.Field.{
  Parsed, parsed, refused, steps, stepped, valued, after_slash, join_values, parse_part,
  parse_parts, parse_cron_field,
}
use kong_gateway_cert_lite.Cron.Steps.{Reached, steps_iff}

-- A part allows `x`: it is a star and `x` lies in the range, or a star with a positive step by which
-- `x` is reached from the start of the range, or the number `x`.
abbrev pub Denotes : ℕ → ℕ → Text → ℕ → Type 0
Denotes min max part x =
    ((part ≡ lit "*") × (min ≤ x) × (x ≤ max))
    ⊎ ((has_prefix (lit "*/") part ≡ true)
        × ((n : ℕ) × (atoi (after_slash part) ≡ some (pos n)) × (0 < n) × Reached min max n x))
    ⊎ ((atoi part ≡ some (pos x)) × (min ≤ x) × (x ≤ max))

abbrev pub SomePart : ℕ → ℕ → List Text → ℕ → Type 0
SomePart min max [] x = ⊥
SomePart min max (part ∷ parts) x = Denotes min max (trim_space part) x ⊎ SomePart min max parts x

contains-append :
    (xs ys : List ℤ) (z : ℤ) → contains (xs ++ ys) z ≡ (contains xs z || contains ys z)
contains-append [] ys z = refl
contains-append (x ∷ xs) ys z = ground (arith, contains-append xs ys z)

join_values-eq-parsed :
    (p q : Parsed (List ℤ)) (allowed : List ℤ)
    → join_values p q ≡ parsed allowed
    → (xs ys : List ℤ) × (p ≡ parsed xs) × (q ≡ parsed ys) × (allowed ≡ xs ++ ys)
join_values-eq-parsed (refused e) q allowed h = cc
join_values-eq-parsed (parsed xs) (refused e) allowed h = cc
join_values-eq-parsed (parsed xs) (parsed ys) allowed h = (xs, ys, refl, refl, ground arith)

module _ (min max : ℕ) (one : min ≤ 1) (below : min ≤ max) (positive : 0 < max)
    (short : max ≤ 59) where
  star_iff : (x : ℕ) → (contains (steps min max 1) (pos x) ≡ true) ↔ ((min ≤ x) × (x ≤ max))
  star_iff x =
      let visits = steps_iff min max 1 x one below positive short (omega arith) (omega arith) in
      (λ e. ((visits.0 e).0, (visits.0 e).1), λ r. visits.1 (r.0, r.1, omega arith))

  stepped_iff :
      (part : Text) (o : Option ℤ) (allowed : List ℤ) (x : ℕ)
      → ((n : ℕ) → o ≡ some (pos n) → n ≤ int64_max)
      → stepped part min max o ≡ parsed allowed
      → (contains allowed (pos x) ≡ true)
        ↔ ((n : ℕ) × (o ≡ some (pos n)) × (0 < n) × Reached min max n x)
  stepped_iff part none allowed x fits e = cc
  stepped_iff part (some (negsuc n)) allowed x fits e = cc
  stepped_iff part (some (pos n)) allowed x fits e = elim (Bool-cases (n == 0)) [
    | inl zero_step ↦ absurd (ground arith)
    | inr step ↦
        let nonzero : 0 < n = ground arith in
        let same : allowed ≡ steps min max n = ground arith in
        let visits = steps_iff min max n x one below positive short nonzero (fits n refl) in
        (
          λ h. (n, refl, nonzero, visits.0 (rw same at h)),
          λ (m, q, p, r). rw same (visits.1 (subst (λ k. Reached min max k x) (pos_injective q) r)),
        )
  ]
    where
      pos_injective : {m k : ℕ} → some (pos k) ≡ some (pos m) → m ≡ k
      pos_injective q = ground arith

  valued_iff :
      (part : Text) (o : Option ℤ) (allowed : List ℤ) (x : ℕ)
      → valued part min max o ≡ parsed allowed
      → (contains allowed (pos x) ≡ true) ↔ ((o ≡ some (pos x)) × (min ≤ x) × (x ≤ max))
  unfolding int_eq
  valued_iff part none allowed x e = cc
  valued_iff part (some z) allowed x e = ground arith

  prefixed_no_number : (part : Text) → has_prefix (lit "*/") part ≡ true → atoi part ≡ none
  unfolding has_prefix lit
  prefixed_no_number [] h = cc
  prefixed_no_number (c ∷ s) h = let star : c ≡ b'*' = ground arith in rw star (atoi_star s)

  star_not_prefixed : has_prefix (lit "*/") (lit "*") ≡ false
  unfolding has_prefix lit
  star_not_prefixed = refl

  star_no_number : atoi (lit "*") ≡ none
  unfolding lit
  star_no_number = atoi_star []

  prefixed_back :
      {C : Type 0} (part : Text) (x : ℕ)
      → part ≢ lit "*"
      → atoi part ≡ none
      → ((n : ℕ) × (atoi (after_slash part) ≡ some (pos n)) × (0 < n) × Reached min max n x → C)
      → Denotes min max part x
      → C
  prefixed_back part x apart unread f (inl d) = absurd (apart d.0)
  prefixed_back part x apart unread f (inr (inl d)) = f d.1
  prefixed_back part x apart unread f (inr (inr d)) = absurd (ground arith)

  plain_back :
      {C : Type 0} (part : Text) (x : ℕ)
      → part ≢ lit "*"
      → has_prefix (lit "*/") part ≡ false
      → ((atoi part ≡ some (pos x)) × (min ≤ x) × (x ≤ max) → C)
      → Denotes min max part x
      → C
  plain_back part x apart unread f (inl d) = absurd (apart d.0)
  plain_back part x apart unread f (inr (inl d)) = absurd (ground arith)
  plain_back part x apart unread f (inr (inr d)) = f d

  part_iff :
      (part : Text) (allowed : List ℤ) (x : ℕ)
      → parse_part min max part ≡ parsed allowed
      → (contains allowed (pos x) ≡ true) ↔ Denotes min max part x
  unfolding parse_part
  part_iff part allowed x e = elim (Bool-cases (part == lit "*")) [
    | inl star ↦
        let is_star : part ≡ lit "*" = (==_iff part (lit "*")).0 star in
        ground (arith, star_iff x, star_not_prefixed, star_no_number)
    | inr other ↦
        let not_star : part ≢ lit "*" = λ q. cc ((==_iff part (lit "*")).1 q) in
        elim (Bool-cases (has_prefix (lit "*/") part)) [
          | inl prefixed ↦
              let none_read = prefixed_no_number part prefixed in
              let means =
                stepped_iff part (atoi (after_slash part)) allowed x (atoi-le (after_slash part))
                  (ground arith) in
              (
                λ h. inr (inl (prefixed, means.0 h)),
                prefixed_back part x not_star none_read means.1,
              )
          | inr plain ↦
              let means = valued_iff part (atoi part) allowed x (ground arith) in
              (λ h. inr (inr (means.0 h)), plain_back part x not_star plain means.1)
        ]
  ]

  parts_iff :
      (parts : List Text) (allowed : List ℤ) (x : ℕ)
      → parse_parts min max parts ≡ parsed allowed
      → (contains allowed (pos x) ≡ true) ↔ SomePart min max parts x
  unfolding parse_parts
  parts_iff [] allowed x e = ground arith
  parts_iff (part ∷ parts) allowed x e =
      let (ours, theirs, p, ps, joined) =
        join_values-eq-parsed (parse_part min max (trim_space part)) (parse_parts min max parts)
          allowed e in
      ground (
        arith,
        joined,
        contains-append ours theirs (pos x),
        part_iff (trim_space part) ours x p,
        parts_iff parts theirs x ps,
      )

-- The values of a field that the parser accepts, of those in its range, are exactly the ones that
-- some part of the field, trimmed, denotes; stated for the ranges that the program uses, which
-- begin at 0 or 1 and end at 59 at most.
pub parse_cron_field_iff :
    (value : Text) (min max : ℕ) (allowed : List ℤ) (x : ℕ)
    → min ≤ 1
    → min ≤ max
    → 0 < max
    → max ≤ 59
    → parse_cron_field value min max ≡ parsed allowed
    → (contains allowed (pos x) ≡ true) ↔ SomePart min max (split_on b',' value) x
unfolding parse_cron_field
parse_cron_field_iff value min max allowed x one below positive short e =
    parts_iff min max one below positive short (split_on b',' value) allowed x e
