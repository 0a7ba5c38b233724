-- ===== src/Scheduler/Fire.antt =====
-- packages/runtime/src/scheduler.ts: `#fire`.
use Prim.Native.Nat.{max, ◌-◌, ◌*◌, ◌/◌}
use bee_agent.Prelude.{ℕ, ◌+◌, String, Option, none, some, Result, ok, err, guard, ◌>>=◌, ◌>>◌}
use bee_agent.Prelude.Map
use bee_agent.Prelude.Map.{Map}
use bee_agent.Errors.{Error, trigger_schema_invalid}
use bee_agent.Chronicle.{Db}
use bee_agent.Kanban.Store.{Env}
use bee_agent.Scheduler.Protocol.{SchedulerTrigger, RunStatus, TriggeredPayload, triggered_schema}
use bee_agent.Events.{Body, Call, scheduler_trigger_triggered_event}
use bee_agent.Scheduler.{AgentScheduler, append_event}

-- `SchedulerTurnPort.runTurn`: the turn id and the status, or nothing where it throws; a turn
-- writes to streams of its own.
abbrev pub TurnPort : Type 0
TurnPort = SchedulerTrigger → Db Body → Option (String × RunStatus) × Db Body

-- `missedIntervals`: a trigger that is not due yet has missed none.
unfoldable pub missed_intervals : ℕ → SchedulerTrigger → ℕ
missed_intervals now trigger = elim trigger.interval_ms [
  | none ↦ 0
  | some interval ↦ elim trigger.next_run_at [ none ↦ 0 | some next ↦ (now - next) / interval ]
]

unfoldable pub following : ℕ → SchedulerTrigger → Option ℕ
unfolding missed_intervals
following now trigger = elim trigger.interval_ms [
  | none ↦ none
  | some interval ↦ elim trigger.next_run_at [
    | none ↦ none
    | some next ↦ some (max (next + (missed_intervals now trigger + 1) * interval) (now + interval))
  ]
]

pub record SchedulerFiredRun : Type 0 where
  pub trigger_id : String
  pub thread_id : String
  pub turn_id : Option String
  pub status : RunStatus
  pub missed_intervals : ℕ

-- The run of a turn that returned, or threw.
abbrev pub run_of : ℕ → SchedulerTrigger → Option (String × RunStatus) → SchedulerFiredRun
run_of now trigger result = record {
  trigger_id = trigger.id;
  thread_id = trigger.thread_id;
  turn_id = elim result [ none ↦ none | some r ↦ some r.0 ];
  status = elim result [ none ↦ RunStatus.error | some r ↦ r.1 ];
  missed_intervals = missed_intervals now trigger;
}

abbrev pub payload_of : ℕ → SchedulerTrigger → SchedulerFiredRun → TriggeredPayload
payload_of now trigger run = record {
  trigger_id = trigger.id;
  thread_id = trigger.thread_id;
  turn_id = run.turn_id;
  status = run.status;
  fired_at = now;
  missed_intervals = run.missed_intervals;
  next_run_at = following now trigger;
}

-- The last statements of `#fire`: condition triggers leave, the others are rescheduled.
abbrev pub rescheduled : ℕ → SchedulerTrigger → Map SchedulerTrigger → Map SchedulerTrigger
rescheduled now trigger m = elim trigger.when [
  | some _ ↦ Map.delete trigger.id m
  | none ↦ Map.set trigger.id (record trigger { next_run_at = following now trigger }) m
]

-- `#fire` after the turn.
unfoldable pub settle :
    Env
    → Call
    → ℕ
    → SchedulerTrigger
    → SchedulerFiredRun
    → AgentScheduler
    → Result Error (SchedulerFiredRun × AgentScheduler)
unfolding append_event following
settle env call now trigger run s = do
  guard (triggered_schema env.is_uuid (payload_of now trigger run)) trigger_schema_invalid
  db ←
      append_event env call.now
        (scheduler_trigger_triggered_event call (payload_of now trigger run)) s.chronicle
  ok (run, record { chronicle = db; triggers = rescheduled now trigger s.triggers })

-- `#fire`: the turn, then its record. What the turn wrote stays when the record throws.
unfoldable pub fire :
    Env
    → TurnPort
    → Call
    → ℕ
    → SchedulerTrigger
    → AgentScheduler
    → Result Error SchedulerFiredRun × AgentScheduler
unfolding settle
fire env turns call now trigger s =
    let (result, db) = turns trigger s.chronicle in
    let turned = record s { chronicle = db } in
    elim (settle env call now trigger (run_of now trigger result) turned) [
      | err error ↦ (err error, turned)
      | ok done ↦ (ok done.0, done.1)
    ]
