-- ===== src/Text/Tests.antt =====
-- Runs of the functions on texts.
use kong_gateway_cert_lite.Prelude.{◌≡◌, refl, list_eq}
use kong_gateway_cert_lite.Text.{lit}
use kong_gateway_cert_lite.Text.FilePath.{file_join}

join_below : file_join (lit "/data/certs/") (lit "12") ≡ lit "/data/certs/12"
unfolding file_join lit list_eq
join_below = refl

join_cleans : file_join (lit "a/../../b") (lit "./c") ≡ lit "../b/c"
unfolding file_join lit list_eq
join_cleans = refl
