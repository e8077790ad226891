-- ===== src/Cron/Next.antt =====
-- The next time of a schedule: the earliest whole minute that matches.
use kong_gateway_cert_lite.Prelude.{
  ℕ, zero, suc, ◌+◌, ◌-◌, ◌*◌, ◌/◌, ◌%◌, ◌≤◌, ◌<◌, true, false, ◌≡◌, ◌⊎◌, inl, inr, refl, ◌∙◌, ap,
  subst, arith, Bool-cases,
}
use kong_gateway_cert_lite.Domain.{Time, minute}
use kong_gateway_cert_lite.Cron.{
  CronSchedule, matches, search_limit, next_from, first_candidate, next,
}

-- How the search from `candidate` with `left` rounds ends: after `rounds` minutes without a match.
pub record Search (s : CronSchedule) (left : ℕ) (candidate found : Time) : Type 0 where
  pub rounds : ℕ
  pub within : rounds ≤ left
  pub lands : found ≡ candidate + rounds * minute
  pub matched : (matches s found ≡ true) ⊎ (rounds ≡ left)
  pub skipped : (k : ℕ) → k < rounds → matches s (candidate + k * minute) ≡ false

next_from-Search :
    (s : CronSchedule) (left : ℕ) (candidate : Time)
    → Search s left candidate (next_from s left candidate)
unfolding next_from
next_from-Search s zero candidate = record {
  rounds = 0;
  within = omega arith;
  lands = omega arith;
  matched = inr refl;
  skipped = λ k h. elim h [ ];
}
next_from-Search s (suc left) candidate = elim (Bool-cases (matches s candidate)) [
  | inl hit ↦ rw hit (record {
    rounds = 0;
    within = omega arith;
    lands = omega arith;
    matched = inl hit;
    skipped = λ k h. elim h [ ];
  })
  | inr miss ↦ rw miss (later s left candidate miss (next_from-Search s left (candidate + minute)))
]
  where
    earlier :
        (s : CronSchedule) (left : ℕ) (candidate found : Time)
        → matches s candidate ≡ false
        → (r : Search s left (candidate + minute) found) (k : ℕ) → k < suc r.rounds
        → matches s (candidate + k * minute) ≡ false
    earlier s left candidate found miss r zero h =
        let e : candidate + 0 * minute ≡ candidate = omega arith in rw e miss
    earlier s left candidate found miss r (suc k) h =
        let e : candidate + suc k * minute ≡ candidate + minute + k * minute = omega arith in
        rw e (r.skipped k (omega arith))

    later :
        (s : CronSchedule) (left : ℕ) (candidate : Time) {found : Time}
        → matches s candidate ≡ false
        → Search s left (candidate + minute) found
        → Search s (suc left) candidate found
    later s left candidate {found} miss r = record {
      rounds = suc r.rounds;
      within = omega (arith, r.within);
      lands = omega (arith, r.lands);
      matched = ground (arith, r.matched);
      skipped = earlier s left candidate found miss r;
    }

-- The next time lies after `after`, on a whole minute; it matches the schedule, or it is the minute
-- behind the `search_limit` minutes that the search looks at.
pub next-matches :
    (s : CronSchedule) (after : Time)
    → (after < next s after)
      × (next s after % minute ≡ 0)
      × ((matches s (next s after) ≡ true)
          ⊎ (next s after ≡ first_candidate after + search_limit * minute))
unfolding next
next-matches s after =
    let search = next_from-Search s search_limit (first_candidate after) in
    let lands : next_from s search_limit (first_candidate after)
        ≡ (after / minute + 1 + search.rounds) * minute =
      search.lands ∙ omega arith in
    (
      rw lands (omega arith),
      rw lands (mod-mul_self (after / minute + 1 + search.rounds)),
      ended s after search,
    )
  where
    mod-mul_self : (n : ℕ) → n * minute % minute ≡ 0
    mod-mul_self n = omega arith

    ended :
        (s : CronSchedule) (after : Time)
        → (r : Search s search_limit
            (first_candidate after)
            (next_from s search_limit (first_candidate after)))
        → (matches s (next_from s search_limit (first_candidate after)) ≡ true)
          ⊎ (next_from s search_limit (first_candidate after)
              ≡ first_candidate after + search_limit * minute)
    ended s after r = elim r.matched [
      | inl hit ↦ inl hit
      | inr spent ↦ inr (r.lands ∙ ap (λ (k : ℕ). first_candidate after + k * minute) spent)
    ]

-- No whole minute between `after` and the next time matches the schedule.
pub next-skips :
    (s : CronSchedule) (after : Time) (m : ℕ)
    → after < m * minute
    → m * minute < next s after
    → matches s (m * minute) ≡ false
unfolding next
next-skips s after m above below =
    let search = next_from-Search s search_limit (first_candidate after) in
    let start : after / minute + 1 ≤ m = omega arith in
    let place : m * minute ≡ first_candidate after + (m - (after / minute + 1)) * minute =
      omega arith in
    let short : m - (after / minute + 1) < search.rounds =
      omega (arith, subst (λ (t : Time). m * minute < t) search.lands below) in
    rw place (search.skipped (m - (after / minute + 1)) short)
