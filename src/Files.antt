-- ===== src/Files.antt =====
-- The package os as the source uses it: files by their paths.
use kong_gateway_cert_lite.Prelude.{
  List, [], ◌∷◌, ◌++◌, Option, none, some, if◌then◌else◌, ◌==◌, eq_ℕ, eq_List,
}
use kong_gateway_cert_lite.Text.{Text, lit, is_blank}
use kong_gateway_cert_lite.Domain.{Bytes, Error, failed}
use kong_gateway_cert_lite.World.{M, ok, pure, raise, ◌>>=◌, statement}

unfoldable pub find_file : Text → List (Text × Bytes) → Option Bytes
find_file path [] = none
find_file path ((p, b) ∷ rest) = if p == path then some b else find_file path rest

unfoldable pub put_file : Text → Bytes → List (Text × Bytes) → List (Text × Bytes)
put_file path b [] = (path, b) ∷ []
put_file path b ((p, old) ∷ rest) =
    if p == path then (path, b) ∷ rest else (p, old) ∷ put_file path b rest

-- os.MkdirAll; directories hold nothing that the program reads.
unfoldable pub mkdir_all : Text → M Unit
mkdir_all dir = statement (lit "create certificate directory " ++ dir) (pure tt)

-- os.WriteFile; a refused write leaves the file as it was.
unfoldable pub write_file : Text → Text → Bytes → M Unit
write_file label path b =
    statement (lit "write " ++ (label ++ (lit " file " ++ path)))
      (λ w. (ok tt, record w { files = put_file path b w.files }))

-- `os.IsNotExist` has an error of its own.
abbrev pub existing : Error → Option Bytes → M Bytes
existing e none = raise e
existing e (some b) = pure b

-- `readRequiredFile` and `readExistingCertificateFile`, which differ in the word that their errors
-- put before the label: "" and "existing ".
unfoldable pub read_required_file : Text → Text → Text → M Bytes
read_required_file word path label =
    if is_blank path
    then raise (failed (lit "missing " ++ (word ++ (label ++ lit " file path"))))
    else statement (lit "read " ++ (word ++ (label ++ (lit " file " ++ path)))) (λ w.
      existing (failed (lit "missing " ++ (word ++ (label ++ (lit " file: " ++ path)))))
        (find_file path w.files) w)

-- `readCertificateFiles` and `readExistingCertificateFiles`
unfoldable pub read_certificate_files : Text → Text → Text → M (Bytes × Bytes)
read_certificate_files word cert_path key_path = do
  cert ← read_required_file word cert_path (lit "certificate")
  key ← read_required_file word key_path (lit "private key")
  pure (cert, key)
