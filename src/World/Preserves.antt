-- ===== src/World/Preserves.antt =====
-- Predicates on the database that an action preserves, whatever the system refuses.
use kong_gateway_cert_lite.Prelude.{List, [], ◌∷◌, Option, none, some}
use kong_gateway_cert_lite.Text.{Text}
use kong_gateway_cert_lite.Domain.{Error}
use kong_gateway_cert_lite.World.{
  World, Database, M, Result, ok, err, pure, raise, proceed, ◌>>=◌, or_not_found, translate, serve,
  statement,
}

module _ (P : Database → Type 0) where
  pub record Preserves {A : Type 0} (m : M A) : Type 0 where
    pub at : (w : World) → P w.db → P (m w).1.db

  pub Preserves-pure : {A : Type 0} (a : A) → Preserves (pure a)
  Preserves-pure a = record { at = λ w h. h }

  pub Preserves-raise : {A : Type 0} (e : Error) → Preserves {A = A} (raise e)
  Preserves-raise e = record { at = λ w h. h }

  Preserves-proceed :
      {A B : Type 0} (f : A → M B)
      → ((a : A) → Preserves (f a))
      → (r : Result A × World) → P r.1.db
      → P (proceed f r).1.db
  Preserves-proceed f k (ok a, w) h = (k a).at w h
  Preserves-proceed f k (err e, w) h = h

  pub Preserves-bind :
      {A B : Type 0} (m : M A) (f : A → M B)
      → Preserves m
      → ((a : A) → Preserves (f a))
      → Preserves (m >>= f)
  Preserves-bind m f km kf = record { at = λ w h. Preserves-proceed f kf (m w) (km.at w h) }

  Preserves-translate : {A : Type 0} (r : Result A × World) → P r.1.db → P (translate r).1.db
  Preserves-translate (ok a, w) h = h
  Preserves-translate (err e, w) h = h

  pub Preserves-or_not_found : {A : Type 0} (m : M A) → Preserves m → Preserves (or_not_found m)
  Preserves-or_not_found m k = record { at = λ w h. Preserves-translate (m w) (k.at w h) }

  Preserves-serve :
      {A : Type 0} (what : Text) (run : M A)
      → Preserves run
      → (fs : List (Option Text)) (w : World) → P w.db
      → P (serve what run fs w).1.db
  Preserves-serve what run k [] w h = k.at w h
  Preserves-serve what run k (none ∷ fs) w h = k.at (record w { faults = fs }) h
  Preserves-serve what run k (some x ∷ fs) w h = h

  -- A statement preserves what its run preserves: a refused one leaves the database as it is.
  pub Preserves-statement :
      {A : Type 0} (what : Text) (run : M A) → Preserves run → Preserves (statement what run)
  unfolding statement
  Preserves-statement what run k = record { at = λ w h. Preserves-serve what run k w.faults w h }
