-- ===== src/Scheduler/Round.antt =====
-- The two loops of a round of the scheduler.
use kong_gateway_cert_lite.Prelude.{ℕ, List, [], ◌∷◌, map, keep, eq_ℕ, eq_List}
use kong_gateway_cert_lite.Text.{Text}
use kong_gateway_cert_lite.Domain.{Time, Certificate}
use kong_gateway_cert_lite.World.{World, M}
use kong_gateway_cert_lite.Sqlite.Certificates
use kong_gateway_cert_lite.Scheduler.{should_auto_renew}

-- What a list of calls does to the world, whatever each of them returns.
unfoldable pub each : (ℕ → M (Unit {0})) → List ℕ → World → World
each renew [] w = w
each renew (id ∷ ids) w = each renew ids (renew id w).1

-- The ids of the certificates that a round at time `now` renews.
pub due_ids : List Certificate → Time → List ℕ
due_ids cs now = map (λ (c : Certificate). c.id) (keep (λ c. should_auto_renew c now) cs)
