-- ===== src/Sqlite/Links.antt =====
-- internal/adapter/sqlite/certificate_repository.go: the links of certificates to Kong targets.
use kong_gateway_cert_lite.Prelude.{
  ℕ, suc, List, [], ◌∷◌, ◌++◌, map, Bool, ◌&&◌, ◌||◌, not, none, some, if◌then◌else◌, ◌==◌, eq_ℕ,
  leb, ltb, keep, find_first, any_row, contains, length, sort_by, is_empty,
}
use kong_gateway_cert_lite.Text.{lit}
use kong_gateway_cert_lite.Domain.{
  Certificate, KongTarget, CertificateKongTarget, not_synced, not_found, failed,
}
use kong_gateway_cert_lite.Sqlite.Columns.{to_column, nullable_time, refers, roll_back}
use kong_gateway_cert_lite.World.{World, M, ok, err, pure, statement, ◌>>=◌, ◌>>◌}

-- ORDER BY kong_target_id ASC, id ASC
abbrev pub is_before : CertificateKongTarget → CertificateKongTarget → Bool
is_before a b =
    ltb a.kong_target_id b.kong_target_id || (a.kong_target_id == b.kong_target_id && leb a.id b.id)

abbrev pub is_of : ℕ → CertificateKongTarget → Bool
is_of certificate_id l = l.certificate_id == certificate_id

unfoldable pub list_sync_targets : ℕ → M (List CertificateKongTarget)
list_sync_targets certificate_id =
    statement (lit "list certificate kong targets")
      λ w. (ok (sort_by is_before (keep (is_of certificate_id) w.db.links)), w)

-- The map of counts, as the function that Go's index expression makes of it (0 for a missing key).
unfoldable pub count_linked_targets_by_certificate : M (ℕ → ℕ)
count_linked_targets_by_certificate =
    statement (lit "count linked targets by certificate")
      λ w. (ok (λ certificate_id. length (keep (is_of certificate_id) w.db.links)), w)

-- UNIQUE (certificate_id, kong_target_id)
abbrev pub joins : ℕ → ℕ → CertificateKongTarget → Bool
joins certificate_id kong_target_id l =
    l.certificate_id == certificate_id && l.kong_target_id == kong_target_id

unfoldable pub get_sync_target : ℕ → ℕ → M CertificateKongTarget
get_sync_target certificate_id kong_target_id = statement (lit "get certificate kong target") λ w.
    elim (find_first (joins certificate_id kong_target_id) w.db.links) [
      | none ↦ (err not_found, w)
      | some l ↦ (ok l, w)
    ]

abbrev pub with_links : World → List CertificateKongTarget → World
with_links w links = record w { db = record w.db { links = links } }

abbrev pub add_link : World → CertificateKongTarget → World
add_link w l = record w {
  db = record w.db { links = w.db.links ++ l ∷ []; last_link = suc w.db.last_link };
}

-- Both foreign keys of a link refer to rows.
abbrev pub has_ends : World → ℕ → ℕ → Bool
has_ends w certificate_id kong_target_id =
    refers (λ (c : Certificate). c.id) w.db.certificates (some certificate_id)
    && refers (λ (t : KongTarget). t.id) w.db.kong_targets (some kong_target_id)

abbrev pub new_link : World → ℕ → ℕ → CertificateKongTarget
new_link w certificate_id kong_target_id = record {
  id = suc w.db.last_link;
  certificate_id = certificate_id;
  kong_target_id = kong_target_id;
  kong_certificate_id = [];
  sync_status = not_synced;
  last_synced_at = none;
  last_error = [];
  created_at = to_column w.clock;
  updated_at = to_column w.clock;
}

-- INSERT OR IGNORE
unfoldable pub insert_or_ignore : ℕ → ℕ → M Unit
insert_or_ignore certificate_id kong_target_id = statement (lit "insert linked kong target") λ w.
    if any_row (joins certificate_id kong_target_id) w.db.links
    then (ok tt, w)
    else if has_ends w certificate_id kong_target_id
    then (ok tt, add_link w (new_link w certificate_id kong_target_id))
    else (err (failed (lit "insert linked kong target: FOREIGN KEY constraint failed")), w)

unfoldable pub insert_all : ℕ → List ℕ → M Unit
insert_all certificate_id [] = pure tt
insert_all certificate_id (t ∷ ts) =
    insert_or_ignore certificate_id t >>= λ _. insert_all certificate_id ts

-- DELETE … WHERE certificate_id = ? AND kong_target_id NOT IN (…); the empty list has a statement
-- of its own in the source, DELETE … WHERE certificate_id = ?.
unfoldable pub delete_unlinked : ℕ → List ℕ → M Unit
delete_unlinked certificate_id target_ids =
    statement
      (if is_empty target_ids
        then lit "clear linked targets"
        else lit "delete unlinked kong targets")
      λ w. (
        ok tt,
        with_links w (
            keep (λ l. not (is_of certificate_id l && not (contains target_ids l.kong_target_id)))
              w.db.links),
      )

unfoldable pub set_linked_targets : ℕ → List ℕ → M Unit
set_linked_targets certificate_id target_ids = do
  statement (lit "begin set linked targets") (pure tt)
  λ w. roll_back w.db (
      (do
        delete_unlinked certificate_id target_ids
        insert_all certificate_id target_ids
        statement (lit "commit linked targets") (pure tt))
        w)

abbrev pub upserted : CertificateKongTarget → World → CertificateKongTarget → CertificateKongTarget
upserted mapping w l =
    if joins mapping.certificate_id mapping.kong_target_id l
    then record l {
      kong_certificate_id = mapping.kong_certificate_id;
      sync_status = mapping.sync_status;
      last_synced_at = nullable_time mapping.last_synced_at;
      last_error = mapping.last_error;
      updated_at = to_column w.clock;
    }
    else l

-- INSERT … ON CONFLICT(certificate_id, kong_target_id) DO UPDATE
unfoldable pub upsert_sync_target : CertificateKongTarget → M Unit
upsert_sync_target mapping = statement (lit "upsert certificate kong target") λ w.
    if any_row (joins mapping.certificate_id mapping.kong_target_id) w.db.links
    then (ok tt, with_links w (map (upserted mapping w) w.db.links))
    else if has_ends w mapping.certificate_id mapping.kong_target_id
    then (
      ok tt,
      add_link w (record mapping {
        id = suc w.db.last_link;
        last_synced_at = nullable_time mapping.last_synced_at;
        created_at = to_column w.clock;
        updated_at = to_column w.clock;
      }),
    )
    else (err (failed (lit "upsert certificate kong target: FOREIGN KEY constraint failed")), w)
