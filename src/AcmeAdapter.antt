-- ===== src/AcmeAdapter.antt =====
-- internal/adapter/acme/lego_client.go: the client of the certificate authority, with the files of
-- its accounts.
pub mod Accounts
pub mod Directory
mod Tests
use kong_gateway_cert_lite.Prelude.{
  ℕ, List, [], ◌∷◌, ◌++◌, Bool, true, false, Option, none, some, if◌then◌else◌, ◌==◌, eq_ℕ,
  is_empty,
}
use kong_gateway_cert_lite.Text.{Text, lit, trim_space, is_blank}
use kong_gateway_cert_lite.Text.Case.{Unicode, to_lower, equal_fold}
use kong_gateway_cert_lite.Text.FilePath.{file_join}
use kong_gateway_cert_lite.Domain.{Bytes, Error, failed, error_text}
use kong_gateway_cert_lite.World.{M, Result, ok, err, pure, raise, ◌>>=◌, ◌>>◌, attempt, statement}
use kong_gateway_cert_lite.Files.{find_file, put_file, existing}
use kong_gateway_cert_lite.KongSync.{ask}
use kong_gateway_cert_lite.Acme.{AcmeIssueRequest, AcmeRenewRequest, AcmeIssueResult}

abbrev pub lets_encrypt_staging_url : Text
lets_encrypt_staging_url = lit "https://acme-staging-v02.api.letsencrypt.org/directory"

abbrev pub lets_encrypt_production_url : Text
lets_encrypt_production_url = lit "https://acme-v02.api.letsencrypt.org/directory"

pub record LegoClient : Type 0 where
  pub account_dir : Text
  pub lets_encrypt_env : Text
  pub cloudflare_token : Text

-- A private key and a registration are carried as bytes that only the libraries read.
pub record AccountUser : Type 0 where
  pub email : Text
  pub registration : Option Bytes
  pub key : Bytes

pub record LegoConfig : Type 0 where
  pub user : AccountUser
  pub ca_dir_url : Text

-- github.com/go-acme/lego with its provider of DNS records, and encoding/json; what a call answers
-- depends on the number of calls made before. `unmarshal` is told the user that it fills in.
pub record Lego : Type 0 where
  pub parse_private_key : Bytes → Result Bytes
  pub generate_private_key : ℕ → Result Bytes
  pub pem_of : Bytes → Option Bytes
  pub marshal : AccountUser → Result Bytes
  pub unmarshal : Bytes → AccountUser → Result AccountUser
  pub new_client : ℕ → LegoConfig → Result (Unit {0})
  pub dns_provider : ℕ → Text → Result (Unit {0})
  pub set_dns01_provider : ℕ → Text → Result (Unit {0})
  pub resolve_account_by_key : ℕ → LegoConfig → Result Bytes
  pub register : ℕ → LegoConfig → Result Bytes
  pub obtain : ℕ → LegoConfig → List Text → Result AcmeIssueResult
  pub renew : ℕ → LegoConfig → Text → Bytes → Bytes → Result AcmeIssueResult

unfoldable pub new_lego_client : Text → Text → Text → LegoClient
new_lego_client account_dir lets_encrypt_env cloudflare_token = record {
  account_dir = account_dir;
  lets_encrypt_env = lets_encrypt_env;
  cloudflare_token = trim_space cloudflare_token;
}

-- `fmt.Errorf("…: %w", err)`
abbrev pub wrap : Text → Error → Error
wrap what e = failed (what ++ (lit ": " ++ error_text e))

abbrev pub named : {A : Type 0} → Text → Result A → M A
named what (ok a) = pure a
named what (err e) = raise (wrap what e)

-- A call of a library, whose error is wrapped.
abbrev pub call : {A : Type 0} → Text → (ℕ → Result A) → M A
call what f = ask f >>= named what

-- The replacer of `sanitizeEmail`, on one code point.
abbrev pub replaced : ℕ → Text
replaced c =
    if c == b'@'
    then lit "_at_"
    else if c == b'/'
    then lit "_"
    else if c == b'\\'
    then lit "_"
    else if c == b':'
    then lit "_"
    else if c == b' '
    then lit "_"
    else c ∷ []

abbrev pub replace_each : Text → Text
replace_each [] = []
replace_each (c ∷ s) = replaced c ++ replace_each s

abbrev found : Option Bytes → Bool
found none = false
found (some b) = true

-- `os.Stat(path)` and its `err == nil`
unfoldable pub exists : Text → M Bool
exists path = do
  there ← attempt (statement (lit "stat " ++ path) λ w. (ok (found (find_file path w.files)), w))
  elim there [ ok b ↦ pure b | err e ↦ pure false ]

unfoldable pub read_file : Text → Text → M Bytes
read_file what path = statement (what ++ path) λ w.
    existing
      (failed (what ++ (path ++ (lit ": open " ++ (path ++ lit ": no such file or directory")))))
      (find_file path w.files) w

unfoldable pub store_file : Text → Text → Bytes → M Unit
store_file what path b =
    statement (what ++ path) λ w. (ok tt, record w { files = put_file path b w.files })

module _ (u : Unicode) where
  unfoldable pub sanitize_email : Text → Text
  sanitize_email email = replace_each (to_lower u (trim_space email))

  unfoldable pub ca_directory_url : LegoClient → Text
  ca_directory_url c =
      if equal_fold u (trim_space c.lets_encrypt_env) (lit "production")
      then lets_encrypt_production_url
      else lets_encrypt_staging_url

  unfoldable pub account_directory : LegoClient → Text → Text
  account_directory c email =
      file_join (file_join c.account_dir (to_lower u (trim_space c.lets_encrypt_env)))
        (sanitize_email email)

module _ (lego : Lego) where
  unfoldable pub create_private_key : Text → M Bytes
  create_private_key path = do
    key ← call (lit "generate acme account key") lego.generate_private_key
    elim (lego.pem_of key) [
      | none ↦ raise (failed (lit "encode acme account key: unsupported private key type"))
      | some block ↦ do store_file (lit "write acme account key ") path block; pure key
    ]

  unfoldable pub load_private_key : Text → M Bytes
  load_private_key path = do
    bytes ← read_file (lit "read acme account key ") path
    named (lit "parse acme account key " ++ path) (lego.parse_private_key bytes)

  unfoldable pub load_or_create_private_key : Text → M Bytes
  load_or_create_private_key path = do
    there ← exists path
    if there then load_private_key path else create_private_key path

  -- The key is the one of the key file, whatever the account file holds.
  unfoldable pub load_account : Text → AccountUser → M AccountUser
  load_account path user = do
    there ← exists path
    elim there [
      | false ↦ pure user
      | true ↦ do
        bytes ← read_file (lit "read acme account file ") path
        stored ← named (lit "parse acme account file " ++ path) (lego.unmarshal bytes user)
        pure (record stored { key = user.key })
    ]

  unfoldable pub save_account : Text → AccountUser → M Unit
  save_account path user = do
    bytes ← named (lit "marshal acme account") (lego.marshal user)
    store_file (lit "write acme account file ") path bytes

  module _ (u : Unicode) (c : LegoClient) where
    unfoldable pub load_or_create_user : Text → M (AccountUser × Text)
    load_or_create_user email = do
      let base_dir = account_directory u c email
      statement (lit "create acme account directory " ++ base_dir) (pure tt)
      let account_path = file_join base_dir (lit "account.json")
      key ← load_or_create_private_key (file_join base_dir (lit "account.key"))
      user ← load_account account_path (record { email = email; registration = none; key = key })
      pure (user, account_path)

    abbrev pub config : AccountUser → LegoConfig
    config user = record { user = user; ca_dir_url = ca_directory_url u c }

    abbrev or_register : AccountUser → Result Bytes → M Bytes
    or_register user (ok registration) = pure registration
    or_register user (err e) =
        call (lit "register acme account") (λ n. lego.register n (config user))

    -- The user with its registration, which is made and stored where there is none.
    unfoldable pub registered : Text → AccountUser → M AccountUser
    registered account_path user = elim user.registration [
      | some registration ↦ pure user
      | none ↦ do
        resolved ← ask (λ n. lego.resolve_account_by_key n (config user))
        registration ← or_register user resolved
        save_account account_path (record user { registration = some registration })
        pure (record user { registration = some registration })
    ]

    -- What `Issue` and `Renew` do before they ask for a certificate.
    unfoldable pub prepare : Text → M AccountUser
    prepare email = do
      loaded ← load_or_create_user email
      call (lit "create lego client") (λ n. lego.new_client n (config loaded.0))
      call (lit "configure cloudflare dns provider") (λ n. lego.dns_provider n c.cloudflare_token)
      call (lit "configure dns challenge") (λ n. lego.set_dns01_provider n c.cloudflare_token)
      registered loaded.1 loaded.0

    -- `ctx.Err()` is the first argument.
    unfoldable pub issue : Option Error → AcmeIssueRequest → M AcmeIssueResult
    issue (some e) request = raise (wrap (lit "issue cancelled before DNS challenge") e)
    issue none request =
        if is_blank c.cloudflare_token
        then raise (failed (lit "cloudflare dns api token is not configured"))
        else if is_blank request.email
        then raise (failed (lit "acme account email is required"))
        else if is_empty request.domains
        then raise (failed (lit "at least one domain is required for issue"))
        else do
          user ← prepare request.email
          call (lit "issue certificate") (λ n. lego.obtain n (config user) request.domains)

    unfoldable pub renew : Option Error → AcmeRenewRequest → M AcmeIssueResult
    renew (some e) request = raise (wrap (lit "renew cancelled before DNS challenge") e)
    renew none request =
        if is_blank c.cloudflare_token
        then raise (failed (lit "cloudflare dns api token is not configured"))
        else if is_blank request.email
        then raise (failed (lit "acme account email is required"))
        else elim request.domains [
          | [] ↦ raise (failed (lit "at least one domain is required for renew"))
          | domain ∷ rest ↦
              if is_empty request.existing_full_chain_pem
              then raise (failed (lit "existing certificate is required for renew"))
              else do
                user ← prepare request.email
                call (lit "renew certificate") (λ n.
                    lego.renew n (config user) domain request.existing_full_chain_pem
                      request.existing_private_key_pem)
        ]
