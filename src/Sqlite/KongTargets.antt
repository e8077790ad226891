-- ===== src/Sqlite/KongTargets.antt =====
-- internal/adapter/sqlite/kong_target_repository.go
use kong_gateway_cert_lite.Prelude.{
  ℕ, suc, List, [], ◌∷◌, ◌++◌, map, Bool, true, false, ◌&&◌, ◌||◌, not, none, some, if◌then◌else◌,
  ◌==◌, eq_ℕ, eq_List, leb, ltb, keep, find_first, any_row, sort_by,
}
use kong_gateway_cert_lite.Text.{lit}
use kong_gateway_cert_lite.Domain.{KongTarget, KongTargetAuthType, Job, not_found, failed}
use kong_gateway_cert_lite.Sqlite.Columns.{to_column, nullable_time, text_lt}
use kong_gateway_cert_lite.World.{World, M, ok, err, statement}

-- ORDER BY created_at DESC, id DESC
abbrev pub is_newer : KongTarget → KongTarget → Bool
is_newer a b = ltb b.created_at a.created_at || (a.created_at == b.created_at && leb b.id a.id)

unfoldable pub list : M (List KongTarget)
list = statement (lit "list kong targets") λ w. (ok (sort_by is_newer w.db.kong_targets), w)

-- ORDER BY environment ASC, name ASC, id ASC
abbrev pub is_before : KongTarget → KongTarget → Bool
is_before a b =
    text_lt a.environment b.environment
    || (a.environment == b.environment
        && (text_lt a.name b.name || (a.name == b.name && leb a.id b.id)))

-- `ListKongTargets` of certificate_repository.go
unfoldable pub list_for_certificate : M (List KongTarget)
list_for_certificate =
    statement (lit "list kong targets for certificate")
      λ w. (ok (sort_by is_before w.db.kong_targets), w)

unfoldable pub get : ℕ → M KongTarget
get id = statement (lit "get kong target") λ w.
    elim (find_first (λ t. t.id == id) w.db.kong_targets) [
      | none ↦ (err not_found, w)
      | some t ↦ (ok t, w)
    ]

-- CHECK (auth_type IN ('none', 'custom-header'))
abbrev pub known_auth_type : KongTargetAuthType → Bool
known_auth_type (KongTargetAuthType.other _) = false
known_auth_type _ = true

abbrev pub new_row : KongTarget → World → KongTarget
new_row target w = record target {
  id = suc w.db.last_kong_target;
  last_checked_at = none;
  created_at = to_column w.clock;
  updated_at = to_column w.clock;
}

unfoldable pub create : KongTarget → M ℕ
create target = statement (lit "create kong target") λ w.
    if known_auth_type target.auth_type
    then if any_row (λ t. t.name == target.name) w.db.kong_targets
      then (err (failed (lit "create kong target: UNIQUE constraint failed")), w)
      else (
        ok (suc w.db.last_kong_target),
        record w {
          db = record w.db {
            kong_targets = w.db.kong_targets ++ new_row target w ∷ [];
            last_kong_target = suc w.db.last_kong_target;
          };
        },
      )
    else (err (failed (lit "create kong target: CHECK constraint failed")), w)

abbrev pub updated : KongTarget → World → KongTarget → KongTarget
updated target w t =
    if t.id == target.id
    then record target {
      last_checked_at = nullable_time target.last_checked_at;
      created_at = t.created_at;
      updated_at = to_column w.clock;
    }
    else t

-- Another target has the name already.
abbrev pub taken : KongTarget → KongTarget → Bool
taken target t = not (t.id == target.id) && t.name == target.name

unfoldable pub update : KongTarget → M Unit
update target = statement (lit "update kong target") λ w.
    if any_row (λ t. t.id == target.id) w.db.kong_targets
    then if known_auth_type target.auth_type
      then if any_row (taken target) w.db.kong_targets
        then (err (failed (lit "update kong target: UNIQUE constraint failed")), w)
        else (
          ok tt,
          record w { db = record w.db { kong_targets = map (updated target w) w.db.kong_targets } },
        )
      else (err (failed (lit "update kong target: CHECK constraint failed")), w)
    else (err not_found, w)

-- ON DELETE SET NULL
abbrev pub forget_target : ℕ → Job → Job
forget_target id j = elim j.kong_target_id [
  | none ↦ j
  | some k ↦ if k == id then record j { kong_target_id = none } else j
]

unfoldable pub delete : ℕ → M Unit
delete id = statement (lit "delete kong target") λ w.
    if any_row (λ t. t.id == id) w.db.kong_targets
    then (
      ok tt,
      record w {
        db = record w.db {
          kong_targets = keep (λ t. not (t.id == id)) w.db.kong_targets;
          links = keep (λ l. not (l.kong_target_id == id)) w.db.links;
          jobs = map (forget_target id) w.db.jobs;
        };
      },
    )
    else (err not_found, w)
