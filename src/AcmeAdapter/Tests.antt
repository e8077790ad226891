-- ===== src/AcmeAdapter/Tests.antt =====
-- Runs of the adapter on small data.
use kong_gateway_cert_lite.Prelude.{[], ◌∷◌, Option, none, some, ◌≡◌, refl, ap, subst, arith}
use kong_gateway_cert_lite.Domain.{Bytes, failed}
use kong_gateway_cert_lite.World.{Result, ok, err}
use kong_gateway_cert_lite.Samples.{world}
use kong_gateway_cert_lite.Files.{find_file}
use kong_gateway_cert_lite.Web.Pages.{FlashMessage}
use kong_gateway_cert_lite.Web.Tests.{toy, decode-encode}
use kong_gateway_cert_lite.AcmeAdapter.{
  Lego, AccountUser, load_account, save_account, load_or_create_private_key,
}
use kong_gateway_cert_lite.AcmeAdapter.Accounts.{
  Faithful, load_or_create_private_key-keeps, save_account-loads,
}

abbrev written : AccountUser → Option Bytes → Result Bytes
written user none = err (failed [])
written user (some r) = ok (toy.encode (record { tone = user.email; message = r }))

abbrev filled_in : AccountUser → Option FlashMessage → Result AccountUser
filled_in base none = err (failed [])
filled_in base (some f) = ok (record base { email = f.tone; registration = some f.message })

abbrev authority : Lego
authority = record {
  parse_private_key = λ b. ok b;
  generate_private_key = λ n. ok (n ∷ []);
  pem_of = λ k. some k;
  marshal = λ user. written user user.registration;
  unmarshal = λ b base. filled_in base (toy.decode b);
  new_client = λ n c. ok tt;
  dns_provider = λ n t. ok tt;
  set_dns01_provider = λ n t. ok tt;
  resolve_account_by_key = λ n c. err (failed []);
  register = λ n c. ok (1 ∷ []);
  obtain = λ n c ds. err (failed []);
  renew = λ n c d chain key. err (failed []);
}

ok_bytes : {x y : Bytes} → ok x ≡ ok y → x ≡ y
ok_bytes e = ground arith

reads_back :
    (user base : AccountUser) (r bytes : Bytes)
    → user.registration ≡ some r
    → authority.marshal user ≡ ok bytes
    → authority.unmarshal bytes base
      ≡ ok (record base { email = user.email; registration = some r })
reads_back user base r bytes registered made =
    let same : toy.encode (record { tone = user.email; message = r }) ≡ bytes =
      ok_bytes (subst (λ (o : Option Bytes). written user o ≡ ok bytes) registered made) in
    rw⁻¹ same (ap (filled_in base) (decode-encode user.email r))

no_key : find_file (b'k' ∷ []) world.files ≡ none
unfolding find_file
no_key = refl

authority-Faithful : Faithful authority
authority-Faithful = record {
  keys = λ n key block made encoded. ground (arith, made, encoded);
  accounts = reads_back;
}

load_or_create_private_key-keeps_example :
    ((load_or_create_private_key authority (b'k' ∷ []) world).0 ≡ ok (0 ∷ []))
    × (load_or_create_private_key authority
          (b'k' ∷ [])
          (load_or_create_private_key authority (b'k' ∷ []) world).1
        ≡ (ok (0 ∷ []), (load_or_create_private_key authority (b'k' ∷ []) world).1))
load_or_create_private_key-keeps_example =
    load_or_create_private_key-keeps authority (b'k' ∷ []) authority-Faithful world (0 ∷ [])
      (0 ∷ []) refl no_key refl refl

abbrev holder : AccountUser
holder = record { email = b'm' ∷ []; registration = some (1 ∷ []); key = 0 ∷ [] }

abbrev blank : AccountUser
blank = record { email = []; registration = none; key = 5 ∷ [] }

save_account-loads_example :
    ((save_account authority (b'a' ∷ []) holder world).0 ≡ ok tt)
    × (load_account authority (b'a' ∷ []) blank (save_account authority (b'a' ∷ []) holder world).1
        ≡ (
          ok (record holder { registration = some (1 ∷ []); key = 5 ∷ [] }),
          (save_account authority (b'a' ∷ []) holder world).1,
        ))
save_account-loads_example =
    save_account-loads authority (b'a' ∷ []) authority-Faithful holder blank (1 ∷ []) _ world refl
      refl refl
