-- ===== src/Acme/Expiry.antt =====
-- The loop that looks for the first certificate in an issued chain ends.
use kong_gateway_cert_lite.Prelude.{◌<◌, some, ◌≡◌, length, eq_ℕ, eq_List}
use kong_gateway_cert_lite.Domain.{Bytes}
use kong_gateway_cert_lite.Acme.{X509, PemBlock}

-- pem.Decode: what follows a block is shorter than the text that it was found in.
abbrev pub Shortens : X509 → Type 0
Shortens x =
    (text : Bytes) (block : PemBlock) (rest : Bytes)
    → x.decode text ≡ some (block, rest)
    → length rest < length text
