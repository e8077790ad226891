-- ===== src/World/Clock.antt =====
-- Reading the clock: the time that it shows, and the world after it.
use kong_gateway_cert_lite.Prelude.{[], ◌≡◌, ◌≤◌, arith}
use kong_gateway_cert_lite.World.{World, ok, time_now}

-- The world in which the next reading of the clock is made.
unfoldable pub ticked : World → World
unfolding time_now
ticked w = (time_now w).1

pub time_now_lem : (w : World) → time_now w ≡ (ok (ticked w).clock, ticked w)
unfolding time_now ticked
time_now_lem w = ground arith

pub ticked-db : (w : World) → (ticked w).db ≡ w.db
unfolding time_now ticked
ticked-db w = ground arith

pub ticked-faults : (w : World) → (ticked w).faults ≡ w.faults
unfolding time_now ticked
ticked-faults w = ground arith

pub clock-ticked_le : (w : World) → w.clock ≤ (ticked w).clock
unfolding time_now ticked
clock-ticked_le w = ground arith

pub clock-ticked_still : (w : World) → w.ticks ≡ [] → (ticked w).clock ≡ w.clock
unfolding time_now ticked
clock-ticked_still w h = ground arith
