-- ===== src/Scheduler.antt =====
-- packages/runtime/src/scheduler.ts: `AgentScheduler`. Operations that may write before they throw
-- return the state beside the result.
pub mod Protocol
pub mod Fire
pub mod Ticking
pub mod Replay
pub mod Recording
pub mod Tidy
pub mod Firing
pub mod History
pub mod Races
pub mod Cadence
use Prim.Native.Nat.{compare, Ordering, max, ◌-◌, ◌*◌, ◌/◌}
use bee_agent.Prelude.{
  ℕ, suc, zero, ◌+◌, String, Bool, true, false, not, ◌&&◌, ◌||◌, Option, none, some, or_else,
  is_some, List, [], ◌∷◌, ◌++◌, Result, ok, err, guard, require, ◌>>=◌, ◌>>◌, if◌then◌else◌, ltb,
}
use bee_agent.Prelude.Map
use bee_agent.Prelude.Map.{Map}
use bee_agent.Prelude.Text.{◌⧺◌, has_prefix}
use bee_agent.Prelude.Sort.{sort_by}
use bee_agent.Prelude.Comparing.{and_then, at_most}
use bee_agent.Errors.{
  Error, sequence_conflict, unknown_event_type, trigger_not_found, bad_interval, when_with_schedule,
  trigger_without_schedule, trigger_schema_invalid,
}
use bee_agent.Chronicle.{Db, NewEvent, StoredEvent, append, get_latest_sequence, read_stream}
use bee_agent.Kanban.Status.{KanbanTaskStatus, status_eq}
use bee_agent.Kanban.Task.{KanbanTask}
use bee_agent.Kanban.Store.{Env}
use bee_agent.Scheduler.Protocol.{
  SchedulerTrigger, SchedulerWhen, RunStatus, TriggeredPayload, trigger_schema, triggered_schema,
}
use bee_agent.Events.{
  Body, Call, type_of, task_status_changed, trigger_registered, trigger_triggered, trigger_removed,
  scheduler_trigger_registered_event, scheduler_trigger_triggered_event,
  scheduler_trigger_removed_event,
}

abbrev pub scheduler_stream_id : String
scheduler_stream_id = "scheduler"

pub record AgentScheduler : Type 0 where
  pub chronicle : Db Body
  pub triggers : Map SchedulerTrigger

-- The `switch` of `rebuild`.
unfoldable pub replay : Map SchedulerTrigger → Body → Result Error (Map SchedulerTrigger)
replay m (trigger_registered trigger) = ok (Map.set trigger.id trigger m)
replay m (trigger_triggered payload) = ok (elim (Map.get payload.trigger_id m) [
  | none ↦ m
  | some trigger ↦ elim trigger.when [
    | some _ ↦ Map.delete trigger.id m
    | none ↦ Map.set trigger.id (record trigger { next_run_at = payload.next_run_at }) m
  ]
])
replay m (trigger_removed trigger_id reason) = ok (Map.delete trigger_id m)
replay m body = err (unknown_event_type (type_of body))

unfoldable pub replay_all :
    Map SchedulerTrigger → List (StoredEvent Body) → Result Error (Map SchedulerTrigger)
replay_all m [] = ok m
replay_all m (e ∷ es) = do m' ← replay m e.body; replay_all m' es

unfoldable pub rebuild : Db Body → Result Error AgentScheduler
unfolding replay_all
rebuild db = do
  triggers ← replay_all [] (read_stream db scheduler_stream_id 0)
  ok (record { chronicle = db; triggers = triggers })

abbrev pub is_conflict : Error → Bool
is_conflict (sequence_conflict _ _ _) = true
is_conflict _ = false

unfoldable pub first_attempt : Env → ℕ → NewEvent Body → Db Body → Result Error (Db Body)
first_attempt env now event db = do
  written ←
      append env.registry db scheduler_stream_id (event ∷ [])
        (get_latest_sequence db scheduler_stream_id + 1) now
  ok written.1

-- `#append` of one event: a conflict of sequences is retried, `n` times more.
unfoldable pub append_attempts : ℕ → Env → ℕ → NewEvent Body → Db Body → Result Error (Db Body)
unfolding first_attempt
append_attempts zero env now event db = first_attempt env now event db
append_attempts (suc n) env now event db =
    let retried = append_attempts n env now event db in
    elim (first_attempt env now event db) [
      | ok db' ↦ ok db'
      | err error ↦ if is_conflict error then retried else err error
    ]

unfoldable pub append_event : Env → ℕ → NewEvent Body → Db Body → Result Error (Db Body)
unfolding append_attempts
append_event env now event db = append_attempts 2 env now event db

pub record RegisterSchedulerTriggerInput : Type 0 where
  pub input : String
  pub thread_id : String
  pub at : Option ℕ
  pub interval_ms : Option ℕ
  pub when : Option SchedulerWhen

-- The object that `register` parses.
unfoldable pub registered : Call → RegisterSchedulerTriggerInput → SchedulerTrigger
registered call input = record {
  id = call.fresh_id;
  input = input.input;
  thread_id = input.thread_id;
  at = input.at;
  interval_ms = input.interval_ms;
  when = input.when;
  enabled = true;
  created_at = call.now;
  next_run_at = elim input.when [ some _ ↦ none | none ↦ some (or_else input.at call.now) ];
}

-- `Number.isInteger(intervalMs) && intervalMs >= 1`, or no interval
abbrev pub interval_fits : Option ℕ → Bool
interval_fits none = true
interval_fits (some n) = ltb 0 n

unfoldable pub register :
    Env
    → Call
    → RegisterSchedulerTriggerInput
    → AgentScheduler
    → Result Error (SchedulerTrigger × AgentScheduler)
unfolding registered append_event
register env call input s = do
  guard (interval_fits input.interval_ms) bad_interval
  let has_schedule = is_some input.at || is_some input.interval_ms
  guard (not (is_some input.when && has_schedule)) when_with_schedule
  guard (is_some input.when || has_schedule) trigger_without_schedule
  let trigger = registered call input
  guard (trigger_schema env.is_uuid trigger) trigger_schema_invalid
  db ← append_event env call.now (scheduler_trigger_registered_event call trigger) s.chronicle
  ok (trigger, record { chronicle = db; triggers = Map.set trigger.id trigger s.triggers })

unfoldable pub remove :
    Env → Call → String → Option String → AgentScheduler → Result Error AgentScheduler
unfolding append_event
remove env call trigger_id reason s = do
  trigger ← require (Map.get trigger_id s.triggers) (trigger_not_found trigger_id)
  db ←
      append_event env call.now
        (scheduler_trigger_removed_event call trigger_id reason (some trigger.thread_id))
        s.chronicle
  ok (record { chronicle = db; triggers = Map.delete trigger_id s.triggers })
