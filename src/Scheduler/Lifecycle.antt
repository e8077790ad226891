-- ===== src/Scheduler/Lifecycle.antt =====
-- internal/usecase/scheduler.go: `Start`, `Stop` and the end of `loop`, under the scheduler's lock.
use kong_gateway_cert_lite.Prelude.{
  ℕ, suc, ◌+◌, ◌≤◌, Bool, true, false, ◌||◌, ◌≡◌, ◌⊎◌, arith, if◌then◌else◌, eq_ℕ,
}

-- The flags of the scheduler, how often each channel has been closed (a second close panics), and
-- how many loops have been started and how many of them have returned.
pub record Lifecycle : Type 0 where
  pub started : Bool
  pub stopped : Bool
  pub stop_closed : ℕ
  pub done_closed : ℕ
  pub loops : ℕ
  pub ended : ℕ

-- `NewRenewalScheduler`
unfoldable pub fresh : Lifecycle
fresh = record {
  started = false;
  stopped = false;
  stop_closed = 0;
  done_closed = 0;
  loops = 0;
  ended = 0;
}

-- `Start`
unfoldable pub start : Lifecycle → Lifecycle
start s = if s.started || s.stopped then s else record s { started = true; loops = suc s.loops }

-- `Stop`, up to the wait for `doneCh`
unfoldable pub stop : Lifecycle → Lifecycle
stop s =
    if s.stopped
    then s
    else if s.started
    then record s { stopped = true; stop_closed = suc s.stop_closed }
    else record s {
      stopped = true;
      stop_closed = suc s.stop_closed;
      done_closed = suc s.done_closed;
    }

-- The deferred `close(s.doneCh)` of a loop that returns.
abbrev pub finish : Lifecycle → Lifecycle
finish s = record s { done_closed = suc s.done_closed; ended = suc s.ended }

-- What can happen: calls of the two methods, in any order, and the return of a running loop, once it
-- was told to stop or its context is done.
pub data Step : Lifecycle → Lifecycle → Type 0 where
  starts : (s : Lifecycle) → Step s (start s)
  stops : (s : Lifecycle) → Step s (stop s)
  returns : (s : Lifecycle) → suc s.ended ≤ s.loops → Step s (finish s)

pub data Reach : Lifecycle → Type 0 where
  here : Reach fresh
  next : {s t : Lifecycle} → Reach s → Step s t → Reach t

pub record IsSound (s : Lifecycle) : Type 0 where
  pub one_loop : s.loops ≤ 1
  pub loop_started : s.started ≡ true → s.loops ≡ 1
  pub no_loop : s.started ≡ false → s.loops ≡ 0
  pub ended_le : s.ended ≤ s.loops
  pub stop_once : s.stop_closed ≡ (if s.stopped then 1 else 0)
  pub done_once : s.done_closed ≡ s.ended + (if s.started then 0 else s.stop_closed)

IsSound-fresh : IsSound fresh
unfolding fresh
IsSound-fresh = ground arith

Step-IsSound : {s t : Lifecycle} → Step s t → IsSound s → IsSound t
unfolding start stop
Step-IsSound (starts s) h = ground arith
Step-IsSound (stops s) h = ground arith
Step-IsSound (returns s free) h = ground arith

Reach-IsSound : {s : Lifecycle} → Reach s → IsSound s
Reach-IsSound here = IsSound-fresh
Reach-IsSound (next r st) = Step-IsSound st (Reach-IsSound r)

-- In every state that calls of `Start` and `Stop` and returns of the loop lead to, in any order, at
-- most one loop has been started, neither channel has been closed twice, and once `Stop` has been
-- called the channel that it waits for is closed as soon as every started loop has returned.
pub closes_once :
    {s : Lifecycle}
    → Reach s
    → (s.loops ≤ 1)
      × (s.stop_closed ≤ 1)
      × (s.done_closed ≤ 1)
      × ((s.stopped ≡ false) ⊎ ((suc s.ended ≤ s.loops) ⊎ (s.done_closed ≡ 1)))
closes_once {s} r = ground (arith, Reach-IsSound r)
