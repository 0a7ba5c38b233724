-- ===== src/Scheduler/Cadence.antt =====
-- When a recurring trigger runs next.
use Prim.Native.Nat.{◌-◌, ◌*◌, ◌/◌}
use native.Mathlib.Nat.{div-mul-le_self}
use bee_agent.Prelude.{ℕ, ◌+◌, ◌≤◌, ◌≡◌, ap, some, arith}
use bee_agent.Scheduler.Protocol.{SchedulerTrigger}
use bee_agent.Scheduler.Fire.{missed_intervals, following}

one_more :
    (count interval span : ℕ) → count * interval ≤ span → (count + 1) * interval ≤ span + interval
one_more count interval span h = grind arith

cadence_bound :
    (now next interval : ℕ)
    → next ≤ now
    → next + ((now - next) / interval + 1) * interval ≤ now + interval
cadence_bound now next interval h = omega (
  arith,
  one_more ((now - next) / interval) interval (now - next) (div-mul-le_self (now - next) interval),
)

missed_now :
    (now : ℕ) (t : SchedulerTrigger) (interval next : ℕ)
    → t.interval_ms ≡ some interval
    → t.next_run_at ≡ some next
    → missed_intervals now t ≡ (now - next) / interval
unfolding missed_intervals
missed_now now t interval next e e' = rw (e, e', missed_intervals)

-- A recurring trigger that fires when it is due runs next one interval after the firing: of the
-- two instants that the code compares, the one on its own cadence is never the later.
pub following_now :
    (now : ℕ) (t : SchedulerTrigger) (interval next : ℕ)
    → t.interval_ms ≡ some interval
    → t.next_run_at ≡ some next
    → next ≤ now
    → following now t ≡ some (now + interval)
unfolding following
following_now now t interval next e e' h =
    let bound = cadence_bound now next interval h in
    rw (e, e', following, missed_now now t interval next e e') (ap some (omega (arith, bound)))
