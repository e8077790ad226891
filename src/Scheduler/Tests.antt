-- ===== src/Scheduler/Tests.antt =====
-- Runs of the scheduler on small data.
use kong_gateway_cert_lite.Prelude.{ℕ, suc, ◌+◌, ◌≤◌, [], ◌∷◌, false, ◌≡◌, ◌⊎◌, inl, refl, eq_ℕ}
use kong_gateway_cert_lite.Text.{Text, lit, trim_space, is_space}
use kong_gateway_cert_lite.Domain.{Certificate, day, Error}
use kong_gateway_cert_lite.World.{M, err}
use kong_gateway_cert_lite.Sqlite.Certificates
use kong_gateway_cert_lite.Samples.{web, world, refusing, today}
use kong_gateway_cert_lite.Files.{read_certificate_files, read_required_file, find_file}
use kong_gateway_cert_lite.World.{statement, time_now}
use kong_gateway_cert_lite.World.Clock.{ticked}
use kong_gateway_cert_lite.Acme.Operations.{obtain_again}
use kong_gateway_cert_lite.Acme.Settle.{is_ok}
use kong_gateway_cert_lite.Acme.Run.{MayStart, started}
use kong_gateway_cert_lite.Acme.Issue.{renew_outcome, renew-settles}
use kong_gateway_cert_lite.Scheduler.{should_auto_renew}
use kong_gateway_cert_lite.Scheduler.Eligible.{failed_renewal-ends_auto_renew}
use kong_gateway_cert_lite.Scheduler.Lifecycle.{
  Reach, here, next, starts, stops, fresh, start, stop, closes_once,
}

-- The world without files, where a renewal cannot read the certificate that it starts from.
web-MayStart : MayStart web world
web-MayStart = record { calm = refl; below = tt; positive = λ e. cc; found = refl; unblocked = tt }

unreadable : is_ok (renew_outcome refusing web world) ≡ false
unfolding renew_outcome obtain_again read_certificate_files read_required_file statement find_file
    started ticked time_now is_space trim_space lit
unreadable = refl

abbrev left_behind : Certificate
left_behind = (renew-settles refusing web world web-MayStart (inl unreadable)).settled.certificate

failed_renewal-ends_auto_renew_example : should_auto_renew left_behind (today + day) ≡ false
failed_renewal-ends_auto_renew_example =
    failed_renewal-ends_auto_renew refusing web world web-MayStart unreadable left_behind
      (renew-settles refusing web world web-MayStart (inl unreadable)).settled.found (today + day)

-- A renewal that notes its call and fails.
abbrev failing : ℕ → M (Unit {0})
failing id w = (err (Error.failed (b'x' ∷ [])), record w { calls = suc w.calls })

stopped_twice : Reach (stop (stop (start fresh)))
stopped_twice =
    next (next (next here (starts fresh)) (stops (start fresh))) (stops (stop (start fresh)))

closes_once_example :
    let s = stop (stop (start fresh)) in
    (s.loops ≤ 1)
    × (s.stop_closed ≤ 1)
    × (s.done_closed ≤ 1)
    × ((s.stopped ≡ false) ⊎ ((suc s.ended ≤ s.loops) ⊎ (s.done_closed ≡ 1)))
closes_once_example = closes_once stopped_twice
