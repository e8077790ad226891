-- ===== src/Cron/Tests.antt =====
-- Runs of the cron parser and of the search for the next time.
use kong_gateway_cert_lite.Prelude.{
  ◌+◌, ◌*◌, ◌%◌, ◌<◌, List, [], ◌∷◌, true, false, ◌≡◌, ◌⊎◌, ◌↔◌, refl, arith, contains, list_eq,
}
use kong_gateway_cert_lite.Prelude.Int.{ℤ, pos, int_eq, eq_ℤ}
use kong_gateway_cert_lite.Text.{lit, split_on, trim_space, has_prefix, is_space}
use kong_gateway_cert_lite.Text.Number.{atoi}
use kong_gateway_cert_lite.Domain.{minute}
use kong_gateway_cert_lite.Cron.{
  CronSchedule, matches, next, first_candidate, search_limit, next_from,
}
use kong_gateway_cert_lite.Calendar.{minute_of, hour_of, day_of, month_of, weekday_of}
use kong_gateway_cert_lite.Cron.Field.{
  parsed, parse_cron_field, parse_parts, parse_part, steps, steps_from,
}
use kong_gateway_cert_lite.Cron.Meaning.{SomePart, parse_cron_field_iff}
use kong_gateway_cert_lite.Cron.Steps.{steps_end}
use kong_gateway_cert_lite.Cron.Next.{next-matches, next-skips}

abbrev quarters : List ℤ
quarters = pos 0 ∷ pos 15 ∷ pos 30 ∷ pos 45 ∷ pos 7 ∷ []

quarters_parsed : parse_cron_field (lit "*/15, 7") 0 59 ≡ parsed quarters
unfolding parse_cron_field parse_parts parse_part steps steps_from split_on trim_space has_prefix
    atoi lit is_space list_eq
quarters_parsed = refl

parse_cron_field_iff_example :
    (contains quarters (pos 30) ≡ true) ↔ SomePart 0 59 (split_on b',' (lit "*/15, 7")) 30
parse_cron_field_iff_example =
    parse_cron_field_iff (lit "*/15, 7") 0 59 quarters 30 (omega arith) (omega arith) (omega arith)
      (omega arith) quarters_parsed

steps_end_example : steps_from 66 (pos 0) 59 7 ≡ steps 0 59 7
steps_end_example =
    steps_end 0 59 7 4 (omega arith) (omega arith) (omega arith) (omega arith) (omega arith)
      (omega arith)

-- The first two minutes of a first of January that is a Monday.
abbrev new_year : CronSchedule
new_year = record {
  minutes = pos 0 ∷ pos 1 ∷ [];
  hours = pos 0 ∷ [];
  days = pos 1 ∷ [];
  months = pos 1 ∷ [];
  weekdays = pos 1 ∷ [];
}

next-matches_example :
    (5 < next new_year 5)
    × (next new_year 5 % minute ≡ 0)
    × ((matches new_year (next new_year 5) ≡ true)
        ⊎ (next new_year 5 ≡ first_candidate 5 + search_limit * minute))
next-matches_example = next-matches new_year 5

-- The third minute of each hour, any day.
abbrev third_minute : CronSchedule
third_minute = record new_year { minutes = pos 3 ∷ [] }

third : next third_minute 5 ≡ 3 * minute
unfolding next next_from matches search_limit minute_of hour_of day_of month_of weekday_of int_eq
third = refl

next-skips_example : matches third_minute (2 * minute) ≡ false
next-skips_example = next-skips third_minute 5 2 (omega arith) (rw third (omega arith))
