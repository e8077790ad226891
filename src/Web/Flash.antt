-- ===== src/Web/Flash.antt =====
-- internal/web/handler.go: the message that one answer leaves for the next page.
use kong_gateway_cert_lite.Prelude.{
  Bool, ◌||◌, Option, none, some, if◌then◌else◌, ◌==◌, eq_ℕ, eq_List, is_empty,
}
use kong_gateway_cert_lite.Text.{Text, lit, trim_space}
use kong_gateway_cert_lite.Text.Case.{to_lower}
use kong_gateway_cert_lite.Web.Pages.{FlashMessage, PageData}
use kong_gateway_cert_lite.Web.Answer.{
  Handler, Request, FlashCookie, untouched, stored, expired_cookie, redirect, Answer, see_other,
}

abbrev pub trimmed_flash : Text → Text → FlashMessage
trimmed_flash tone message = record { tone = trim_space tone; message = trim_space message }

unfoldable pub nav_link_class : Text → Text → Text
nav_link_class active name = if active == name then lit "nav-link active" else lit "nav-link"

abbrev is_tone : Text → Bool
is_tone s = s == lit "success" || (s == lit "warning" || s == lit "danger")

module _ (h : Handler) where
  unfoldable pub set_flash : Text → Text → FlashCookie
  set_flash tone message =
      if is_empty (trim_space tone) || is_empty (trim_space message)
      then untouched
      else stored (h.codec.encode (trimmed_flash tone message))

  unfoldable pub flash_tone_class : Text → Text
  flash_tone_class tone =
      if is_tone (to_lower h.unicode (trim_space tone))
      then to_lower h.unicode (trim_space tone)
      else lit "secondary"

  abbrev shown : Option FlashMessage → Option FlashMessage
  shown none = none
  shown (some flash) =
      if is_empty (trim_space flash.message)
      then none
      else some (record { tone = flash_tone_class flash.tone; message = trim_space flash.message })

  -- What is shown, and what becomes of the cookie.
  unfoldable pub read_flash : Text → Option FlashMessage × FlashCookie
  read_flash cookie =
      if is_empty (trim_space cookie)
      then (none, untouched)
      else (shown (h.codec.decode (trim_space cookie)), expired_cookie)

  unfoldable pub page_data : Request → PageData → PageData
  page_data req p = record p {
    flash = (read_flash req.flash_cookie).0;
    nav_certificates_class = nav_link_class p.active (lit "certificates");
    nav_kong_targets_class = nav_link_class p.active (lit "kong-targets");
    nav_jobs_class = nav_link_class p.active (lit "jobs");
  }

  -- `h.setFlash(…)` and the redirect that follows it
  unfoldable pub redirect_with_flash : Text → Text → Text → Answer
  redirect_with_flash path tone message = record {
    body = redirect see_other path;
    cookie = set_flash tone message;
  }
