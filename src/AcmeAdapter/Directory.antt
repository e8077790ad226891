-- ===== src/AcmeAdapter/Directory.antt =====
-- internal/adapter/acme/lego_client.go: the names of account directories.
use kong_gateway_cert_lite.Prelude.{ℕ, ◌≢◌, eq_ℕ}
use kong_gateway_cert_lite.Text.{Text}

-- A code point that neither separates the elements of a path nor stands for an address.
abbrev pub IsPlain : ℕ → Type 0
IsPlain c = (c ≢ b'/') × (c ≢ b'\\') × (c ≢ b':') × (c ≢ b'@') × (c ≢ b' ')
