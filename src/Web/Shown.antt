-- ===== src/Web/Shown.antt =====
-- internal/web/handler.go: a flash message from the answer that sets it to the page that shows it.
use kong_gateway_cert_lite.Prelude.{
  false, some, ◌≡◌, ◌⊎◌, inl, inr, refl, is_empty, eq_ℕ, eq_List, list_eq,
}
use kong_gateway_cert_lite.Text.{Text, lit, trim_space, is_blank, is_space}
use kong_gateway_cert_lite.Text.Trim.{trim_space_idempotent}
use kong_gateway_cert_lite.Text.Case.{to_lower, lower_rune, ascii_lower}
use kong_gateway_cert_lite.Web.Pages.{FlashMessage}
use kong_gateway_cert_lite.Web.Answer.{Handler, stored, expired_cookie, FlashCodec}
use kong_gateway_cert_lite.Web.Flash.{set_flash, read_flash, flash_tone_class}

-- The tones that the handlers use.
abbrev pub IsTone : Text → Type 0
IsTone tone = (tone ≡ lit "success") ⊎ ((tone ≡ lit "warning") ⊎ (tone ≡ lit "danger"))

-- The codec reads back what it has written, which has no white space at its ends and is not empty.
pub record Reads (codec : FlashCodec) : Type 0 where
  pub back : (f : FlashMessage) → codec.decode (codec.encode f) ≡ some f
  pub trimmed : (f : FlashMessage) → trim_space (codec.encode f) ≡ codec.encode f
  pub filled : (f : FlashMessage) → is_empty (codec.encode f) ≡ false

module _ (h : Handler) where
  -- A tone of the handlers is not blank, has no white space at its ends, and keeps its class.
  tone_stays :
      (tone : Text)
      → IsTone tone
      → (trim_space tone ≡ tone) × (is_empty tone ≡ false) × (flash_tone_class h tone ≡ tone)
  unfolding trim_space is_space list_eq lit flash_tone_class to_lower lower_rune ascii_lower
  tone_stays tone (inl e) = rw e (refl, refl, refl)
  tone_stays tone (inr (inl e)) = rw e (refl, refl, refl)
  tone_stays tone (inr (inr e)) = rw e (refl, refl, refl)

  -- With a codec that reads back what it has written, as text without white space at its ends, a
  -- message that is not blank, set with one of the tones success, warning and danger, is stored in
  -- a cookie; the next page to read the cookie shows the message, without white space at its ends,
  -- in that tone, and makes the cookie expire.
  pub flash-shown :
      (tone message : Text)
      → Reads h.codec
      → IsTone tone
      → is_blank message ≡ false
      → (cookie : Text) × (set_flash h tone message ≡ stored cookie)
        × (read_flash h cookie
            ≡ (some (record { tone = tone; message = trim_space message }), expired_cookie))
  unfolding set_flash read_flash
  flash-shown tone message reads named filled =
      let (same, full, shows) = tone_stays tone named in
      let f : FlashMessage = record { tone = tone; message = trim_space message } in
      let again : trim_space (trim_space message) ≡ trim_space message =
        trim_space_idempotent message in
      (
        h.codec.encode f,
        rw (same, full, filled) refl,
        rw (reads.trimmed f, reads.filled f, reads.back f) (rw (again, filled, shows) refl),
      )
