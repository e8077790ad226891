-- ===== src/Text/Number.antt =====
-- strconv: decimal numbers, `FormatInt` and `Itoa` for ids, `Atoi` and `ParseInt` for input.
use kong_gateway_cert_lite.Prelude.{
  ◌≡◌, refl, arith, ◌≤◌, ℕ, zero, suc, ◌+◌, ◌-◌, ◌*◌, ◌/◌, ◌%◌, [], ◌∷◌, ◌++◌, Bool, true, false,
  ◌&&◌, Option, none, some, if◌then◌else◌, ◌==◌, eq_ℕ, leb, ltb, is_empty,
}
use kong_gateway_cert_lite.Prelude.Int.{ℤ, pos, negsuc}
use kong_gateway_cert_lite.Text.{Text}

-- The digits of `n`, at most as many as the fuel; 20 are enough for an int64.
digits : ℕ → ℕ → Text
digits zero n = []
digits (suc fuel) n =
    let rest = digits fuel (n / 10) in
    if ltb n 10 then (48 + n) ∷ [] else rest ++ (48 + n % 10) ∷ []

unfoldable pub decimal : ℕ → Text
unfolding digits
decimal n = digits 20 n

-- A number with leading zeros, in a field of a time: two digits and four digits.
unfoldable pub two_digits : ℕ → Text
two_digits n = (48 + n / 10 % 10) ∷ (48 + n % 10) ∷ []

unfoldable pub four_digits : ℕ → Text
unfolding two_digits
four_digits n = two_digits (n / 100) ++ two_digits n

is_digit : ℕ → Bool
is_digit c = leb 48 c && leb c 57

read_digits : ℕ → Text → Option ℕ
unfolding is_digit
read_digits acc [] = some acc
read_digits acc (c ∷ s) =
    let rest = read_digits (acc * 10 + (c - 48)) s in if is_digit c then rest else none

read_magnitude : Text → Option ℕ
unfolding read_digits
read_magnitude s = if is_empty s then none else read_digits 0 s

abbrev pub int64_max : ℕ
int64_max = 9_223_372_036_854_775_807

-- The sign and the magnitude, held to the range of an int64.
in_range : Bool → Option ℕ → Option ℤ
in_range negative none = none
in_range true (some n) =
    if leb n (suc int64_max) then some (if n == 0 then pos 0 else negsuc (n - 1)) else none
in_range false (some n) = if leb n int64_max then some (pos n) else none

-- `strconv.Atoi(s)` and `strconv.ParseInt(s, 10, 64)`; `none` is an error.
unfoldable pub atoi : Text → Option ℤ
unfolding read_magnitude in_range
atoi [] = none
atoi (c ∷ s) =
    if c == 43
    then in_range false (read_magnitude s)
    else if c == 45
    then in_range true (read_magnitude s)
    else in_range false (read_magnitude (c ∷ s))

abbrev uint64_max : ℕ
uint64_max = 18_446_744_073_709_551_615

-- The value that the digits stand for: 0 where there is another character, and the largest uint64
-- from the digit on at which the value leaves the range.
unsigned_value : ℕ → Text → ℕ
unfolding is_digit
unsigned_value acc [] = acc
unsigned_value acc (c ∷ s) =
    let rest = unsigned_value (acc * 10 + (c - 48)) s in
    if is_digit c then (if leb (acc * 10 + (c - 48)) uint64_max then rest else uint64_max) else 0

clamped : Bool → ℕ → ℤ
clamped false n = if leb n int64_max then pos n else pos int64_max
clamped true n =
    if n == 0 then pos 0 else if leb n (suc int64_max) then negsuc (n - 1) else negsuc int64_max

-- The number that `strconv.Atoi` returns besides its error.
unfoldable pub atoi_value : Text → ℤ
unfolding unsigned_value clamped
atoi_value [] = pos 0
atoi_value (c ∷ s) =
    if c == 43
    then clamped false (unsigned_value 0 s)
    else if c == 45
    then clamped true (unsigned_value 0 s)
    else clamped false (unsigned_value 0 (c ∷ s))

-- `ParseID`, `ParseKongTargetID` and `ParseJobID`: ids are positive.
unfoldable pub parse_id : Text → Option ℕ
unfolding atoi
parse_id s = elim (atoi s) [
  | none ↦ none
  | some z ↦ elim z [ pos n ↦ if n == 0 then none else some n | negsuc n ↦ none ]
]

-- What `atoi` reads is held to an int64.
pub atoi-le : (s : Text) (n : ℕ) → atoi s ≡ some (pos n) → n ≤ int64_max
unfolding atoi
atoi-le [] n e = cc
atoi-le (c ∷ s) n e = ground arith

-- A star begins no number.
pub atoi_star : (s : Text) → atoi (b'*' ∷ s) ≡ none
unfolding atoi read_digits
atoi_star s = refl
