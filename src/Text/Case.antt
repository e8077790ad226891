-- ===== src/Text/Case.antt =====
-- strings.ToLower, strings.EqualFold, strings.Contains, strings.ReplaceAll and strings.TrimRight;
-- upper case for the first letter of a word.
use kong_gateway_cert_lite.Prelude.{
  ℕ, ◌+◌, ◌-◌, [], ◌∷◌, Bool, true, false, ◌&&◌, ◌||◌, if◌then◌else◌, ◌==◌, eq_ℕ, leb, ltb,
  is_empty, map,
}
use kong_gateway_cert_lite.Text.{Text, lit, join, has_prefix}
use kong_gateway_cert_lite.Text.Fields.{fields}

-- The tables of the package unicode, which decide on what is not ASCII: unicode.ToLower, and
-- whether two code points are equal under unicode.SimpleFold.
pub record Unicode : Type 0 where
  pub lower : ℕ → ℕ
  pub folds : ℕ → ℕ → Bool

unfoldable pub ascii_lower : ℕ → ℕ
ascii_lower c = if leb b'A' c && leb c b'Z' then c + 32 else c

unfoldable pub ascii_upper : ℕ → ℕ
ascii_upper c = if leb b'a' c && leb c b'z' then c - 32 else c

module _ (u : Unicode) where
  unfoldable pub lower_rune : ℕ → ℕ
  lower_rune c = if ltb c 128 then ascii_lower c else u.lower c

  unfoldable pub to_lower : Text → Text
  to_lower s = map lower_rune s

  unfoldable pub same_fold : ℕ → ℕ → Bool
  same_fold a b =
      if ltb a 128 && ltb b 128 then ascii_lower a == ascii_lower b else (a == b || u.folds a b)

  unfoldable pub equal_fold : Text → Text → Bool
  equal_fold [] [] = true
  equal_fold (a ∷ s) (b ∷ t) = same_fold a b && equal_fold s t
  equal_fold _ _ = false

unfoldable pub contains_text : Text → Text → Bool
contains_text [] part = is_empty part
contains_text (c ∷ s) part = has_prefix part (c ∷ s) || contains_text s part

-- strings.ReplaceAll of one code point by another
unfoldable pub replace_all : ℕ → ℕ → Text → Text
replace_all a b s = map (λ c. if c == a then b else c) s

-- strings.TrimRight by a cutset of one code point
unfoldable pub trim_end : ℕ → Text → Text
trim_end d [] = []
trim_end d (c ∷ s) = let rest = trim_end d s in if c == d && is_empty rest then [] else c ∷ rest

-- `strings.ToUpper(word[:1]) + word[1:]`, for a word that begins with an ASCII letter.
unfoldable pub capitalize : Text → Text
capitalize [] = []
capitalize (c ∷ s) = ascii_upper c ∷ s

-- The words of a text with underscores, each with its first letter in upper case.
unfoldable pub title_words : Text → Text
title_words value = join (lit " ") (map capitalize (fields (replace_all b'_' b' ' value)))
