-- ===== src/Cron/Steps.antt =====
-- The values that a stepping loop visits.
use native.Mathlib.Nat.{mod-eq_of_lt, mod-eq-sub-mod, zero-mod, sub_self, suc-add}
use native.Mathlib.Decide.{dec_lt}
use kong_gateway_cert_lite.Prelude.{
  ℕ, zero, suc, ◌+◌, ◌-◌, ◌%◌, ◌≤◌, ◌<◌, true, ◌≡◌, ◌↔◌, ◌⊎◌, inl, inr, refl, sym, ◌∙◌, arith,
  contains,
}
use kong_gateway_cert_lite.Prelude.Int.{pos, eq_ℤ, int_eq}
use kong_gateway_cert_lite.Text.Number.{int64_max}
use kong_gateway_cert_lite.Cron.Field.{steps_from, steps}

-- `x` is reached from `i` by steps of the given size.
abbrev pub Reached : ℕ → ℕ → ℕ → ℕ → Type 0
Reached i max step x = (i ≤ x) × (x ≤ max) × ((x - i) % step ≡ 0)

-- One step further.
Reached-step :
    (i max step x : ℕ)
    → 0 < step
    → i ≤ max
    → Reached i max step x ↔ ((x ≡ i) ⊎ Reached (i + step) max step x)
Reached-step i max step x pos_step below = (to, from)
  where
    shorter : i + step ≤ x → x - i - step ≡ x - (i + step)
    shorter h = omega arith

    to : Reached i max step x → (x ≡ i) ⊎ Reached (i + step) max step x
    to (le, top, h) = elim (dec_lt (x - i) step) [
      | yes near ↦ let e : (x - i) % step ≡ x - i = mod-eq_of_lt near in inl (omega arith)
      | no far ↦
          let past : i + step ≤ x = omega arith in
          let e : (x - i) % step ≡ (x - i - step) % step = mod-eq-sub-mod (omega arith) in
          inr (past, top, rw (← shorter past) (sym e ∙ h))
    ]

    from : (x ≡ i) ⊎ Reached (i + step) max step x → Reached i max step x
    from (inl e) = (omega arith, omega arith, rw (e, sub_self) (zero-mod step))
    from (inr (le, top, h)) =
        let e : (x - i) % step ≡ (x - i - step) % step = mod-eq-sub-mod (omega arith) in
        (omega arith, top, e ∙ rw (shorter le) h)

-- A step that stays within an int64 over the whole range: the values are those reached from `i`.
steps_from-small :
    (fuel i max step x : ℕ)
    → 0 < step
    → max + step ≤ int64_max
    → max < i + fuel
    → (contains (steps_from fuel (pos i) max step) (pos x) ≡ true) ↔ Reached i max step x
unfolding steps_from int_eq
steps_from-small zero i max step x p small enough = ground arith
steps_from-small (suc fuel) i max step x p small enough =
    ground (arith, steps_from-small fuel (i + step) max step x p small, Reached-step i max step x p)

-- A larger step: from 0 or 1 the loop goes at most round the negative numbers.
steps_from-large :
    (fuel i max step x : ℕ)
    → i ≤ 1
    → i ≤ max
    → max ≤ 59
    → step ≤ int64_max
    → int64_max < max + step
    → (contains (steps_from (suc (suc (suc (suc fuel)))) (pos i) max step) (pos x) ≡ true) ↔ (x ≡ i)
unfolding steps_from int_eq
steps_from-large fuel i max step x one below short fits large = ground arith

far_step :
    (i max step x : ℕ)
    → i ≤ max
    → max ≤ 59
    → int64_max < max + step
    → Reached i max step x ↔ (x ≡ i)
far_step i max step x below short large = (to, from)
  where
    to : Reached i max step x → x ≡ i
    to (le, top, h) = let e : (x - i) % step ≡ x - i = mod-eq_of_lt (omega arith) in omega arith

    from : x ≡ i → Reached i max step x
    from e = (omega arith, omega arith, rw (e, sub_self) (zero-mod step))

rounds : (max : ℕ) → 0 < max → max + 3 ≡ suc (suc (suc (suc (max - 1))))
rounds max h = omega arith

rounds_more : (max more : ℕ) → 0 < max → max + 3 + more ≡ suc (suc (suc (suc (max - 1 + more))))
rounds_more max more h = omega arith

-- More fuel changes nothing: the loop has ended.
steps_from-small_ends :
    (fuel more i max step : ℕ)
    → 0 < step
    → max + step ≤ int64_max
    → max < i + fuel
    → steps_from (fuel + more) (pos i) max step ≡ steps_from fuel (pos i) max step
unfolding steps_from
steps_from-small_ends zero zero i max step p small enough = refl
steps_from-small_ends zero (suc more) i max step p small enough = ground arith
steps_from-small_ends (suc fuel) more i max step p small enough =
    rw suc-add (ground (arith, steps_from-small_ends fuel more (i + step) max step p small))

steps_from-large_ends :
    (fuel more i max step : ℕ)
    → i ≤ 1
    → i ≤ max
    → max ≤ 59
    → step ≤ int64_max
    → int64_max < max + step
    → steps_from (suc (suc (suc (suc (fuel + more))))) (pos i) max step
      ≡ steps_from (suc (suc (suc (suc fuel)))) (pos i) max step
unfolding steps_from
steps_from-large_ends fuel more i max step one below short fits large = ground arith

-- The fuel of `steps` is enough: more of it gives the same values, for every step that an int64
-- holds and ranges that begin at 0 or 1 and end between 1 and 59.
pub steps_end :
    (min max step more : ℕ)
    → min ≤ 1
    → min ≤ max
    → 0 < max
    → max ≤ 59
    → 0 < step
    → step ≤ int64_max
    → steps_from (max + 3 + more) (pos min) max step ≡ steps min max step
unfolding steps
steps_end min max step more one below positive_max short positive fits =
    elim (dec_lt int64_max (max + step)) [
      | no small ↦
          steps_from-small_ends (max + 3) more min max step positive (omega arith) (omega arith)
      | yes large ↦
          rw (rounds_more max more positive_max, rounds max positive_max)
            (steps_from-large_ends (max - 1) more min max step one below short fits large)
    ]

-- Of the values from `min` to `max` the loop of a stepped part visits exactly those whose distance
-- from `min` the step divides, for every step that an int64 holds.
pub steps_iff :
    (min max step x : ℕ)
    → min ≤ 1
    → min ≤ max
    → 0 < max
    → max ≤ 59
    → 0 < step
    → step ≤ int64_max
    → (contains (steps min max step) (pos x) ≡ true) ↔ Reached min max step x
unfolding steps
steps_iff min max step x one below positive_max short positive fits =
    elim (dec_lt int64_max (max + step)) [
      | no small ↦ steps_from-small (max + 3) min max step x positive (omega arith) (omega arith)
      | yes large ↦
          let visits = steps_from-large (max - 1) min max step x one below short fits large in
          let reached = far_step min max step x below short large in
          rw (rounds max positive_max) (λ e. reached.1 (visits.0 e), λ r. visits.1 (reached.0 r))
    ]
