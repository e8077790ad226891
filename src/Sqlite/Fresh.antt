-- ===== src/Sqlite/Fresh.antt =====
-- A row under a fresh id: it is found, and it is the only one that a change by id touches.
use kong_gateway_cert_lite.Prelude.{
  ℕ, suc, ◌≤◌, List, [], ◌∷◌, ◌++◌, map, some, ◌≡◌, refl, arith, All, find_first, ◌==◌, eq_ℕ,
}
use kong_gateway_cert_lite.Domain.{Job}
use kong_gateway_cert_lite.Sqlite.Jobs.{updated}

-- No job has an id above the last one given out.
abbrev pub IdsBelow : ℕ → List Job → Type 0
IdsBelow last jobs = All (λ j. j.id ≤ last) jobs

pub find_first-fresh :
    (last : ℕ) (jobs : List Job) (row : Job)
    → IdsBelow last jobs
    → row.id ≡ suc last
    → find_first (λ j. j.id == suc last) (jobs ++ row ∷ []) ≡ some row
find_first-fresh last [] row _ e = ground arith
find_first-fresh last (j ∷ jobs) row (b, bs) e = ground (arith, find_first-fresh last jobs row bs e)

pub map-updated-fresh :
    (job : Job) (last : ℕ) (jobs : List Job) (row : Job)
    → IdsBelow last jobs
    → job.id ≡ suc last
    → map (updated job) (jobs ++ row ∷ []) ≡ jobs ++ updated job row ∷ []
map-updated-fresh job last [] row _ e = refl
map-updated-fresh job last (j ∷ jobs) row (b, bs) e =
    ground (arith, map-updated-fresh job last jobs row bs e)
