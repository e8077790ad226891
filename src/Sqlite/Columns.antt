-- ===== src/Sqlite/Columns.antt =====
-- internal/adapter/sqlite: what the repositories share about columns, keys and times.
use kong_gateway_cert_lite.Prelude.{
  ℕ, ◌*◌, ◌/◌, List, [], ◌∷◌, Bool, true, false, ◌&&◌, ◌||◌, Option, none, some, ◌==◌, eq_ℕ, ltb,
  any_row,
}
use kong_gateway_cert_lite.Text.{Text}
use kong_gateway_cert_lite.Domain.{Time, second}
use kong_gateway_cert_lite.World.{World, Database, Result, ok, err}

-- A time as the columns hold it, in whole seconds: `Format("2006-01-02 15:04:05")` and
-- `datetime('now')`. The texts compare as the times do.
abbrev pub to_column : Time → Time
to_column t = t / second * second

abbrev pub nullable_time : Option Time → Option Time
nullable_time none = none
nullable_time (some t) = some (to_column t)

-- FOREIGN KEY … REFERENCES: a null key refers to nothing.
abbrev pub refers : {A : Type 0} → (A → ℕ) → List A → Option ℕ → Bool
refers id rows none = true
refers id rows (some k) = any_row (λ r. id r == k) rows

-- The order of texts in an index: by bytes, so by code points.
unfoldable pub text_lt : Text → Text → Bool
text_lt [] [] = false
text_lt [] (d ∷ t) = true
text_lt (c ∷ s) [] = false
text_lt (c ∷ s) (d ∷ t) = ltb c d || (c == d && text_lt s t)

-- The deferred `tx.Rollback()` of a transaction that did not commit.
abbrev pub roll_back : Database → Result (Unit {0}) × World → Result (Unit {0}) × World
roll_back db (ok a, w) = (ok a, w)
roll_back db (err e, w) = (err e, record w { db = db })
