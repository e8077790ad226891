-- ===== src/Calendar.antt =====
-- The package time as the source uses it: the clock fields of a UTC time, and its layouts.
use kong_gateway_cert_lite.Prelude.{ℕ, ◌+◌, ◌-◌, ◌*◌, ◌/◌, ◌%◌, ◌++◌, if◌then◌else◌, ltb, leb}
use kong_gateway_cert_lite.Text.{Text, lit}
use kong_gateway_cert_lite.Text.Number.{two_digits, four_digits}
use kong_gateway_cert_lite.Domain.{Time, second, minute, day}

-- Minute() and Hour()
unfoldable pub minute_of : Time → ℕ
minute_of t = t / minute % 60

unfoldable pub hour_of : Time → ℕ
hour_of t = t / (60 * minute) % 24

-- Weekday(), Sunday is 0; the first day of year 1 is a Monday.
unfoldable pub weekday_of : Time → ℕ
weekday_of t = (t / day + 1) % 7

-- The days since the first of March of year 0: by cycles of 400 years, then the year of the cycle
-- and the day of that year.
abbrev cycle_days : Time → ℕ
cycle_days t = t / day + 306

day_of_cycle : Time → ℕ
day_of_cycle t = cycle_days t % 146_097

year_of_cycle : Time → ℕ
unfolding day_of_cycle
year_of_cycle t = let d = day_of_cycle t in (d - d / 1_460 + d / 36_524 - d / 146_096) / 365

day_of_year : Time → ℕ
unfolding year_of_cycle
day_of_year t = let y = year_of_cycle t in day_of_cycle t - (365 * y + y / 4 - y / 100)

-- The month counted from March
month_index : Time → ℕ
unfolding day_of_year
month_index t = (5 * day_of_year t + 2) / 153

-- Day(), Month() and Year()
unfoldable pub day_of : Time → ℕ
unfolding month_index
day_of t = day_of_year t - (153 * month_index t + 2) / 5 + 1

unfoldable pub month_of : Time → ℕ
unfolding month_index
month_of t = if ltb (month_index t) 10 then month_index t + 3 else month_index t - 9

unfoldable pub year_of : Time → ℕ
unfolding month_of
year_of t = cycle_days t / 146_097 * 400 + year_of_cycle t + (if leb (month_of t) 2 then 1 else 0)

-- Format("2006-01-02"), Format("2006-01-02 15:04") and Format(time.RFC3339)
unfoldable pub format_date : Time → Text
unfolding year_of day_of
format_date t =
    four_digits (year_of t)
    ++ (lit "-" ++ (two_digits (month_of t) ++ (lit "-" ++ two_digits (day_of t))))

unfoldable pub format_minute : Time → Text
unfolding format_date hour_of minute_of
format_minute t =
    format_date t ++ (lit " " ++ (two_digits (hour_of t) ++ (lit ":" ++ two_digits (minute_of t))))

unfoldable pub format_rfc3339 : Time → Text
unfolding format_date hour_of minute_of
format_rfc3339 t =
    format_date t
    ++ (lit "T"
        ++ (two_digits (hour_of t)
            ++ (lit ":"
                ++ (two_digits (minute_of t)
                    ++ (lit ":" ++ (two_digits (t / second % 60) ++ lit "Z"))))))
