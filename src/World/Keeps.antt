-- ===== src/World/Keeps.antt =====
-- Actions that leave the database as it is, with a rule for each way to compose them.
use kong_gateway_cert_lite.Prelude.{
  List, [], ◌∷◌, ◌≡◌, refl, ◌∙◌, Bool, true, false, Option, none, some, arith, if◌then◌else◌,
}
use kong_gateway_cert_lite.Text.{Text}
use kong_gateway_cert_lite.Domain.{Error}
use kong_gateway_cert_lite.World.{
  World, M, Result, ok, err, pure, raise, proceed, ◌>>=◌, attempt, time_now, serve, statement,
}
use kong_gateway_cert_lite.World.Faults.{NoFaults}

-- From one world to another with the same database, where refusals do not begin.
pub record SameDb (w v : World) : Type 0 where
  pub db : v.db ≡ w.db
  pub calm : NoFaults w → NoFaults v

pub SameDb-refl : (w : World) → SameDb w w
SameDb-refl w = record { db = refl; calm = λ h. h }

pub SameDb-trans : {u v w : World} → SameDb u v → SameDb v w → SameDb u w
SameDb-trans p q = record { db = q.db ∙ p.db; calm = λ h. q.calm (p.calm h) }

pub record Keeps {A : Type 0} (m : M A) : Type 0 where
  pub at : (w : World) → SameDb w (m w).1

pub Keeps-pure : {A : Type 0} (a : A) → Keeps (pure a)
Keeps-pure a = record { at = λ w. SameDb-refl w }

pub Keeps-raise : {A : Type 0} (e : Error) → Keeps {A = A} (raise e)
Keeps-raise e = record { at = λ w. SameDb-refl w }

Keeps-proceed :
    {A B : Type 0} (f : A → M B)
    → ((a : A) → Keeps (f a))
    → (r : Result A × World) → SameDb r.1 (proceed f r).1
Keeps-proceed f k (ok a, w) = (k a).at w
Keeps-proceed f k (err e, w) = SameDb-refl w

pub Keeps-bind :
    {A B : Type 0} (m : M A) (f : A → M B) → Keeps m → ((a : A) → Keeps (f a)) → Keeps (m >>= f)
Keeps-bind m f km kf = record { at = λ w. SameDb-trans (km.at w) (Keeps-proceed f kf (m w)) }

pub Keeps-if : {A : Type 0} (b : Bool) (m n : M A) → Keeps m → Keeps n → Keeps (if b then m else n)
Keeps-if true m n p q = p
Keeps-if false m n p q = q

pub Keeps-attempt : {A : Type 0} (m : M A) → Keeps m → Keeps (attempt m)
Keeps-attempt m k = record { at = λ w. k.at w }

pub Keeps-time_now : Keeps time_now
unfolding time_now
Keeps-time_now = record { at = λ w. ground arith }

-- A world in which one more statement has been served.
served-SameDb :
    (w : World) (f : Option Text) (fs : List (Option Text))
    → w.faults ≡ f ∷ fs
    → SameDb w (record w { faults = fs })
served-SameDb w f fs e = record { db = refl; calm = λ h. cc (e, h) }

serve-SameDb :
    {A : Type 0} (what : Text) (run : M A)
    → Keeps run
    → (fs : List (Option Text)) (w : World) → w.faults ≡ fs
    → SameDb w (serve what run fs w).1
serve-SameDb what run k [] w e = k.at w
serve-SameDb what run k (none ∷ fs) w e =
    SameDb-trans (served-SameDb w none fs e) (k.at (record w { faults = fs }))
serve-SameDb what run k (some x ∷ fs) w e = served-SameDb w (some x) fs e

-- A statement keeps what its run keeps: a refusal changes nothing but the list of refusals.
pub Keeps-statement :
    {A : Type 0} (what : Text) (run : M A) → Keeps run → Keeps (statement what run)
unfolding statement
Keeps-statement what run k = record { at = λ w. serve-SameDb what run k w.faults w refl }

pub ruleset keeps_rules =
    (Keeps-pure, Keeps-raise, Keeps-bind, Keeps-attempt, Keeps-time_now, Keeps-statement)
