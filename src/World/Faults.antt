-- ===== src/World/Faults.antt =====
-- A world in which the system refuses nothing.
use kong_gateway_cert_lite.Prelude.{[], ◌≡◌, arith}
use kong_gateway_cert_lite.Text.{Text}
use kong_gateway_cert_lite.World.{World, M, statement}

abbrev pub NoFaults : World → Type 0
NoFaults w = w.faults ≡ []

pub statement_of_NoFaults :
    {A : Type 0} (what : Text) (run : M A) (w : World) → NoFaults w → statement what run w ≡ run w
unfolding statement
statement_of_NoFaults what run w h = ground arith
