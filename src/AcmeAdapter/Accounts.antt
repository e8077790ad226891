-- ===== src/AcmeAdapter/Accounts.antt =====
-- internal/adapter/acme/lego_client.go: the files of an account, written once and read again.
use kong_gateway_cert_lite.Prelude.{
  ℕ, suc, List, [], ◌∷◌, true, false, none, some, ◌≡◌, refl, arith, ==_self, eq_ℕ, eq_List,
}
use kong_gateway_cert_lite.Text.{Text, lit}
use kong_gateway_cert_lite.Domain.{Bytes}
use kong_gateway_cert_lite.World.{World, ok, statement}
use kong_gateway_cert_lite.World.Faults.{NoFaults}
use kong_gateway_cert_lite.Files.{find_file, put_file}
use kong_gateway_cert_lite.AcmeAdapter.{
  Lego, AccountUser, exists, read_file, store_file, load_account, save_account,
  load_or_create_private_key, create_private_key, load_private_key, registered,
}

pub find_file-put_file :
    (path : Text) (b : Bytes) (fs : List (Text × Bytes))
    → find_file path (put_file path b fs) ≡ some b
unfolding find_file put_file
find_file-put_file path b [] = rw (==_self path) refl
find_file-put_file path b ((p, old) ∷ rest) =
    ground (arith, ==_self path, find_file-put_file path b rest)

-- What the libraries promise of the two files: a key and a registration come back from their texts.
pub record Faithful (lego : Lego) : Type 0 where
  pub keys :
      (n : ℕ) (key block : Bytes)
      → lego.generate_private_key n ≡ ok key
      → lego.pem_of key ≡ some block
      → lego.parse_private_key block ≡ ok key
  pub accounts :
      (user base : AccountUser) (r bytes : Bytes)
      → user.registration ≡ some r
      → lego.marshal user ≡ ok bytes
      → lego.unmarshal bytes base ≡ ok (record base { email = user.email; registration = some r })

module _ (lego : Lego) (path : Text) where
  exists_lem :
      (w : World) (b : Bytes)
      → NoFaults w
      → find_file path w.files ≡ some b
      → exists path w ≡ (ok true, w)
  unfolding exists statement
  exists_lem w b calm found = ground (arith, calm, found)

  missing_lem :
      (w : World) → NoFaults w → find_file path w.files ≡ none → exists path w ≡ (ok false, w)
  unfolding exists statement
  missing_lem w calm found = ground (arith, calm, found)

  read_lem :
      (what : Text) (w : World) (b : Bytes)
      → NoFaults w
      → find_file path w.files ≡ some b
      → read_file what path w ≡ (ok b, w)
  unfolding read_file statement
  read_lem what w b calm found = ground (arith, calm, found)

  create_lem :
      (w : World) (key block : Bytes)
      → NoFaults w
      → lego.generate_private_key w.calls ≡ ok key
      → lego.pem_of key ≡ some block
      → create_private_key lego path w
        ≡ (ok key, record w { calls = suc w.calls; files = put_file path block w.files })
  unfolding create_private_key store_file statement
  create_lem w key block calm made encoded =
      rw (made, create_private_key) (ground (arith, calm, encoded))

  load_lem :
      (w : World) (key block : Bytes)
      → NoFaults w
      → find_file path w.files ≡ some block
      → lego.parse_private_key block ≡ ok key
      → load_or_create_private_key lego path w ≡ (ok key, w)
  unfolding load_or_create_private_key load_private_key
  load_lem w key block calm found parsed =
      rw (exists_lem w block calm found)
        (rw (read_lem (lit "read acme account key ") w block calm found) (rw parsed refl))

  first_lem :
      (w : World) (key block : Bytes)
      → NoFaults w
      → find_file path w.files ≡ none
      → lego.generate_private_key w.calls ≡ ok key
      → lego.pem_of key ≡ some block
      → load_or_create_private_key lego path w
        ≡ (ok key, record w { calls = suc w.calls; files = put_file path block w.files })
  unfolding load_or_create_private_key
  first_lem w key block calm none_yet made encoded =
      rw (missing_lem w calm none_yet) (create_lem w key block calm made encoded)

  saved_lem :
      (user : AccountUser) (bytes : Bytes) (w : World)
      → NoFaults w
      → lego.marshal user ≡ ok bytes
      → save_account lego path user w ≡ (ok tt, record w { files = put_file path bytes w.files })
  unfolding save_account store_file statement
  saved_lem user bytes w calm written = rw written (ground (arith, calm))

  loaded_lem :
      (base user : AccountUser) (bytes : Bytes) (w : World)
      → NoFaults w
      → find_file path w.files ≡ some bytes
      → lego.unmarshal bytes base ≡ ok user
      → load_account lego path base w ≡ (ok (record user { key = base.key }), w)
  unfolding load_account
  loaded_lem base user bytes w calm found read =
      rw (exists_lem w bytes calm found)
        (rw (read_lem (lit "read acme account file ") w bytes calm found) (rw read refl))

  module _ (faithful : Faithful lego) where
    -- With nothing refused by the system and libraries that read back what they write, a missing
    -- key file is created once: the call returns the key that was generated, and the next one
    -- returns the same key from the file, and generates no other.
    pub load_or_create_private_key-keeps :
        (w : World) (key block : Bytes)
        → NoFaults w
        → find_file path w.files ≡ none
        → lego.generate_private_key w.calls ≡ ok key
        → lego.pem_of key ≡ some block
        → ((load_or_create_private_key lego path w).0 ≡ ok key)
          × (load_or_create_private_key lego path (load_or_create_private_key lego path w).1
              ≡ (ok key, (load_or_create_private_key lego path w).1))
    load_or_create_private_key-keeps w key block calm none_yet made encoded =
        rw (first_lem w key block calm none_yet made encoded) (
          refl,
          load_lem (record w { calls = suc w.calls; files = put_file path block w.files }) key block
              calm (find_file-put_file path block w.files)
              (faithful.keys w.calls key block made encoded),
        )

    -- With nothing refused by the system and libraries that read back what they write, the account
    -- that is saved with a registration is the one that is loaded, but with the key that the load
    -- is given.
    pub save_account-loads :
        (user base : AccountUser) (r bytes : Bytes) (w : World)
        → NoFaults w
        → user.registration ≡ some r
        → lego.marshal user ≡ ok bytes
        → ((save_account lego path user w).0 ≡ ok tt)
          × (load_account lego path base (save_account lego path user w).1 ≡ (
            ok (record user { registration = some r; key = base.key }),
            (save_account lego path user w).1,
          ))
    save_account-loads user base r bytes w calm registered written =
        rw (saved_lem user bytes w calm written) (
          refl,
          loaded_lem base _ bytes (record w { files = put_file path bytes w.files }) calm
              (find_file-put_file path bytes w.files)
              (faithful.accounts user base r bytes registered written),
        )
