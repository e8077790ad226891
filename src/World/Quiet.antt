-- ===== src/World/Quiet.antt =====
-- Actions that return a value, never an error, and leave the database as it is.
use kong_gateway_cert_lite.Prelude.{◌≡◌, refl, ◌∙◌, Bool, true, false, if◌then◌else◌}
use kong_gateway_cert_lite.World.{World, M, Result, ok, err, pure, proceed, ◌>>=◌, time_now}
use kong_gateway_cert_lite.World.Clock.{ticked, ticked-db, time_now_lem}

-- A result without error, with the database of `w`.
pub record Returned {A : Type 0} (w : World) (r : Result A × World) : Type 0 where
  pub result : A
  pub value : r.0 ≡ ok result
  pub db : r.1.db ≡ w.db

pub record Quiet {A : Type 0} (m : M A) : Type 0 where
  pub at : (w : World) → Returned w (m w)

pub Quiet-pure : {A : Type 0} (a : A) → Quiet (pure a)
Quiet-pure a = record { at = λ w. record { result = a; value = refl; db = refl } }

pub Quiet-time_now : Quiet time_now
Quiet-time_now = record {
  at = λ w.
      rw (time_now_lem w) (record { result = (ticked w).clock; value = refl; db = ticked-db w });
}

Returned-proceed :
    {A B : Type 0} (f : A → M B)
    → ((a : A) → Quiet (f a))
    → (w : World) (r : Result A × World) → Returned w r
    → Returned w (proceed f r)
Returned-proceed f k w (ok a, v) h =
    let g = (k a).at v in record { result = g.result; value = g.value; db = g.db ∙ h.db }
Returned-proceed f k w (err e, v) h = cc (h.value)

pub Quiet-bind :
    {A B : Type 0} (m : M A) (f : A → M B) → Quiet m → ((a : A) → Quiet (f a)) → Quiet (m >>= f)
Quiet-bind m f km kf = record { at = λ w. Returned-proceed f kf w (m w) (km.at w) }

pub Quiet-if : {A : Type 0} (b : Bool) (m n : M A) → Quiet m → Quiet n → Quiet (if b then m else n)
Quiet-if true m n p q = p
Quiet-if false m n p q = q

pub ruleset quiet_rules = (Quiet-pure, Quiet-time_now, Quiet-bind, Quiet-if)
