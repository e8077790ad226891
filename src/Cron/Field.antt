-- ===== src/Cron/Field.antt =====
-- internal/usecase/scheduler.go: one field of a cron expression.
use kong_gateway_cert_lite.Prelude.{
  ℕ, zero, suc, ◌+◌, ◌^◌, List, [], ◌∷◌, ◌++◌, ◌||◌, Option, none, some, if◌then◌else◌, leb, ◌==◌,
  eq_ℕ, eq_List, is_empty,
}
use kong_gateway_cert_lite.Prelude.Int.{ℤ, pos, negsuc, sub_ℕ, leb_ℤ, ltb_ℤ}
use kong_gateway_cert_lite.Text.{Text, lit, trim_space, split_on, has_prefix}
use kong_gateway_cert_lite.Text.Number.{atoi, int64_max}

pub data CronError : Type 0 where
  empty_segment : CronError
  invalid_step : Text → CronError
  invalid_value : Text → CronError
  out_of_range : ℤ → CronError

pub data Parsed {ℓ} (A : Type ℓ) : Type ℓ where
  parsed : A → Parsed A
  refused : CronError → Parsed A

-- `i += step` on an int64, which wraps.
abbrev pub add_int64 : ℤ → ℕ → ℤ
add_int64 (pos a) step =
    if leb (a + step) int64_max then pos (a + step) else sub_ℕ (a + step) (2 ^ 64)
add_int64 (negsuc a) step = sub_ℕ step (suc a)

-- `for i := min; i <= max; i += step`: the values of `i`, with fuel for `max + 3` rounds.
unfoldable pub steps_from : ℕ → ℤ → ℕ → ℕ → List ℤ
steps_from zero i max step = []
steps_from (suc fuel) i max step =
    let rest = steps_from fuel (add_int64 i step) max step in
    if leb_ℤ i (pos max) then i ∷ rest else []

unfoldable pub steps : ℕ → ℕ → ℕ → List ℤ
steps min max step = steps_from (max + 3) (pos min) max step

-- strings.TrimPrefix(part, "*/") of a part that has the prefix
abbrev pub after_slash : Text → Text
after_slash (a ∷ b ∷ s) = s
after_slash s = s

-- A step must be positive.
abbrev pub stepped : Text → ℕ → ℕ → Option ℤ → Parsed (List ℤ)
stepped part min max none = refused (invalid_step part)
stepped part min max (some (negsuc n)) = refused (invalid_step part)
stepped part min max (some (pos n)) =
    if n == 0 then refused (invalid_step part) else parsed (steps min max n)

abbrev pub valued : Text → ℕ → ℕ → Option ℤ → Parsed (List ℤ)
valued part min max none = refused (invalid_value part)
valued part min max (some n) =
    if ltb_ℤ n (pos min) || ltb_ℤ (pos max) n then refused (out_of_range n) else parsed (n ∷ [])

-- The `switch` of the loop, on a trimmed part.
unfoldable pub parse_part : ℕ → ℕ → Text → Parsed (List ℤ)
parse_part min max part =
    if is_empty part
    then refused empty_segment
    else if part == lit "*"
    then parsed (steps min max 1)
    else if has_prefix (lit "*/") part
    then stepped part min max (atoi (after_slash part))
    else valued part min max (atoi part)

-- The values of one part before those of the others.
abbrev pub join_values : Parsed (List ℤ) → Parsed (List ℤ) → Parsed (List ℤ)
join_values (refused e) later = refused e
join_values (parsed xs) (refused e) = refused e
join_values (parsed xs) (parsed ys) = parsed (xs ++ ys)

unfoldable pub parse_parts : ℕ → ℕ → List Text → Parsed (List ℤ)
parse_parts min max [] = parsed []
parse_parts min max (part ∷ parts) =
    join_values (parse_part min max (trim_space part)) (parse_parts min max parts)

unfoldable pub parse_cron_field : Text → ℕ → ℕ → Parsed (List ℤ)
parse_cron_field value min max = parse_parts min max (split_on b',' value)
