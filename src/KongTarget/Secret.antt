-- ===== src/KongTarget/Secret.antt =====
-- What an update of a Kong target stores, in particular of the header's secret value.
use kong_gateway_cert_lite.Prelude.{
  List, [], ◌∷◌, map, true, Option, some, ◌≡◌, arith, find_first, ◌==◌, eq_ℕ, eq_List,
}
use kong_gateway_cert_lite.Text.{Text}
use kong_gateway_cert_lite.Domain.{KongTarget}
use kong_gateway_cert_lite.World.{World}
use kong_gateway_cert_lite.World.Faults.{NoFaults}
use kong_gateway_cert_lite.Sqlite.Columns.{nullable_time}
use kong_gateway_cert_lite.Sqlite.KongTargets
use kong_gateway_cert_lite.KongTarget.{
  KongTargetInput, described_target, refused_fields, merged, with_secret,
}

pub find_first-updated :
    (t : KongTarget) (w : World) (rows : List KongTarget) (x : KongTarget)
    → find_first (λ r. r.id == t.id) rows ≡ some x
    → find_first (λ r. r.id == t.id) (map (KongTargets.updated t w) rows)
      ≡ some (KongTargets.updated t w x)
find_first-updated t w [] x e = cc
find_first-updated t w (r ∷ rows) x e = ground (arith, find_first-updated t w rows x)

-- The row of a target after an update with the given input.
abbrev pub Stored : KongTargetInput → KongTarget → KongTarget → Type 0
Stored input existing d =
    (d.name ≡ (described_target input).name)
    × (d.auth_type ≡ (described_target input).auth_type)
    × (d.auth_header_name ≡ (described_target input).auth_header_name)
    × (d.auth_header_value ≡ with_secret existing (described_target input))
    × (d.status ≡ existing.status)
    × (d.last_checked_at ≡ nullable_time existing.last_checked_at)
    × (d.created_at ≡ existing.created_at)

module _ (parse_uri : Text → Option (Text × Text)) (input : KongTargetInput) (existing : KongTarget)
    (w : World) (calm : NoFaults w)
    (found : find_first (λ t. t.id == input.id) w.db.kong_targets ≡ some existing)
    (accepted : refused_fields parse_uri (described_target input) true ≡ []) where
  abbrev target : KongTarget
  target = merged input existing (described_target input)
