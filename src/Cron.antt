-- ===== src/Cron.antt =====
-- internal/usecase/scheduler.go: cron expressions, and the next time of a schedule.
pub mod Field
pub mod Steps
pub mod Meaning
pub mod Next
mod Tests
use kong_gateway_cert_lite.Prelude.{
  ℕ, zero, suc, ◌+◌, ◌*◌, ◌/◌, List, [], ◌∷◌, ◌++◌, Bool, true, false, ◌&&◌, Option, none, some,
  if◌then◌else◌, contains,
}
use kong_gateway_cert_lite.Prelude.Int.{ℤ, pos, eq_ℤ}
use kong_gateway_cert_lite.Text.{Text}
use kong_gateway_cert_lite.Text.Fields.{fields}
use kong_gateway_cert_lite.Domain.{Time, minute}
use kong_gateway_cert_lite.Calendar.{minute_of, hour_of, day_of, month_of, weekday_of}
use Field.{Parsed, parsed, refused, CronError, parse_cron_field}

pub data FieldName : Type 0 where
  minute_field hour_field day_field month_field weekday_field : FieldName

pub data ScheduleError : Type 0 where
  not_five_fields : ScheduleError
  invalid_field : FieldName → CronError → ScheduleError

-- The five sets of allowed values.
pub record CronSchedule : Type 0 where
  pub minutes : List ℤ
  pub hours : List ℤ
  pub days : List ℤ
  pub months : List ℤ
  pub weekdays : List ℤ

pub data ParsedSchedule : Type 0 where
  schedule : CronSchedule → ParsedSchedule
  rejected : ScheduleError → ParsedSchedule

-- One field, then the rest of the parse.
abbrev pub field_then : FieldName → Parsed (List ℤ) → (List ℤ → ParsedSchedule) → ParsedSchedule
field_then name (parsed allowed) next = next allowed
field_then name (refused e) next = rejected (invalid_field name e)

unfoldable pub parse_five : Text → Text → Text → Text → Text → ParsedSchedule
parse_five minute hour day month weekday =
    field_then minute_field (parse_cron_field minute 0 59) λ minutes.
      field_then hour_field (parse_cron_field hour 0 23) λ hours.
        field_then day_field (parse_cron_field day 1 31) λ days.
          field_then month_field (parse_cron_field month 1 12) λ months.
            field_then weekday_field (parse_cron_field weekday 0 6) λ weekdays. schedule (record {
              minutes = minutes;
              hours = hours;
              days = days;
              months = months;
              weekdays = weekdays;
            })

abbrev pub parse_fields : List Text → ParsedSchedule
parse_fields (minute ∷ hour ∷ day ∷ month ∷ weekday ∷ []) = parse_five minute hour day month weekday
parse_fields _ = rejected not_five_fields

unfoldable pub parse_cron_expression : Text → ParsedSchedule
parse_cron_expression expression = parse_fields (fields expression)

-- `cronField.matches`
abbrev pub field_matches : List ℤ → ℕ → Bool
field_matches allowed value = contains allowed (pos value)

-- `CronSchedule.matches`
unfoldable pub matches : CronSchedule → Time → Bool
matches s t =
    field_matches s.minutes (minute_of t)
    && (field_matches s.hours (hour_of t)
        && (field_matches s.days (day_of t)
            && (field_matches s.months (month_of t) && field_matches s.weekdays (weekday_of t))))

-- The bound of the loop, in minutes: five years of 366 days.
unfoldable pub search_limit : ℕ
search_limit = 366 * 24 * 60 * 5

unfoldable pub next_from : CronSchedule → ℕ → Time → Time
next_from s zero candidate = candidate
next_from s (suc left) candidate =
    let later = next_from s left (candidate + minute) in
    if matches s candidate then candidate else later

-- `after.Truncate(time.Minute).Add(time.Minute)`
abbrev pub first_candidate : Time → Time
first_candidate after = after / minute * minute + minute

unfoldable pub next : CronSchedule → Time → Time
next s after = next_from s search_limit (first_candidate after)
