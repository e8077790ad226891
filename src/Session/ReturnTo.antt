-- ===== src/Session/ReturnTo.antt =====
-- Where a login leads to.
use kong_gateway_cert_lite.Prelude.{true, false, ◌≡◌}
use kong_gateway_cert_lite.Text.{Text, lit, has_prefix}

abbrev pub IsLocal : Text → Type 0
IsLocal path =
    (has_prefix (lit "/") path ≡ true)
    × (has_prefix (lit "//") path ≡ false)
    × (has_prefix (lit "/login") path ≡ false)
