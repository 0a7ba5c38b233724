-- ===== src/Scheduler/History.antt =====
-- Every history of the scheduler keeps memory and stream in agreement.
use Prim.Native.Nat.{Ordering}
use bee_agent.Prelude.{ℕ, String, ◌≡◌, refl, sym, subst, Option, [], ok}
use bee_agent.Chronicle.{empty}
use bee_agent.Kanban.Store.{Env}
use bee_agent.Scheduler.Protocol.{SchedulerTrigger}
use bee_agent.Scheduler.{
  AgentScheduler, RegisterSchedulerTriggerInput, rebuild, register, registered, remove,
}
use bee_agent.Scheduler.Fire.{TurnPort}
use bee_agent.Scheduler.Ticking.{tick, notify}
use bee_agent.Scheduler.Replay.{rebuild-same}
use bee_agent.Scheduler.Recording.{
  KeepsStream, empty-IsScheduled, register-IsScheduled, remove-IsScheduled,
}
use bee_agent.Scheduler.Tidy.{Tidy, Tidy-set, Tidy-delete}
use bee_agent.Scheduler.Firing.{IsSound, tick-IsSound, notify-IsSound}
use bee_agent.Events.{Call}

-- The states of a scheduler that was opened on an empty database, by its public operations. A tick
-- and a notification may end in an error after they have fired triggers.
pub data Reach (env : Env) (turns : TurnPort) (id_order : String → String → Ordering)
    : AgentScheduler → Type 0 where
  start : Reach env turns id_order (record { chronicle = empty; triggers = [] })
  registers :
      {s s' : AgentScheduler}
      → Reach env turns id_order s
      → (call : Call) (input : RegisterSchedulerTriggerInput) → {t : SchedulerTrigger}
      → register env call input s ≡ ok (t, s')
      → Reach env turns id_order s'
  removes :
      {s s' : AgentScheduler}
      → Reach env turns id_order s
      → (call : Call) (id : String) (reason : Option String) → remove env call id reason s ≡ ok s'
      → Reach env turns id_order s'
  ticks :
      {s : AgentScheduler}
      → Reach env turns id_order s
      → (calls : ℕ → Call) (now : ℕ)
      → Reach env turns id_order (tick env turns id_order calls now s).1
  notifies :
      {s : AgentScheduler}
      → Reach env turns id_order s
      → (call : Call) (now : ℕ) (stream_id event_type : String)
      → Reach env turns id_order (notify env turns call now stream_id event_type s).1

Reach-IsSound :
    (env : Env) (turns : TurnPort) (id_order : String → String → Ordering)
    → KeepsStream turns
    → (s : AgentScheduler) → Reach env turns id_order s
    → IsSound s
Reach-IsSound env turns id_order keeps _ start = record { scheduled = empty-IsScheduled; tidy = tt }
Reach-IsSound env turns id_order keeps _ (registers {s} r call input h) =
    let v = Reach-IsSound env turns id_order keeps s r in
    let (scheduled, triggers) = register-IsScheduled env call input s v.scheduled h in
    record {
      scheduled = scheduled;
      tidy =
          subst Tidy (sym triggers)
            (Tidy-set (registered call input).id (registered call input) s.triggers refl v.tidy);
    }
Reach-IsSound env turns id_order keeps _ (removes {s} r call id reason h) =
    let v = Reach-IsSound env turns id_order keeps s r in
    let (scheduled, triggers) = remove-IsScheduled env call id reason s v.scheduled h in
    record {
      scheduled = scheduled;
      tidy = subst Tidy (sym triggers) (Tidy-delete id s.triggers v.tidy);
    }
Reach-IsSound env turns id_order keeps _ (ticks {s} r calls now) =
    tick-IsSound env turns keeps id_order calls now s (Reach-IsSound env turns id_order keeps s r)
Reach-IsSound env turns id_order keeps _ (notifies {s} r call now stream_id event_type) =
    notify-IsSound env turns keeps call now stream_id event_type s
      (Reach-IsSound env turns id_order keeps s r)

-- After any history of registrations, removals, ticks and notifications that do not overlap, failed
-- ones included, with turns that keep the log's tables in agreement and write to other streams, a
-- rebuild from the log gives exactly the state in memory.
pub rebuild_reached :
    (env : Env) (turns : TurnPort) (id_order : String → String → Ordering) (s : AgentScheduler)
    → KeepsStream turns
    → Reach env turns id_order s
    → rebuild s.chronicle ≡ ok s
rebuild_reached env turns id_order s keeps r =
    rebuild-same s (Reach-IsSound env turns id_order keeps s r).scheduled
