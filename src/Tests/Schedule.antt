-- ===== src/Tests/Schedule.antt =====
-- Instances of the theorems on the scheduler.
use Prim.Native.Nat.{Ordering}
use bee_agent.Prelude.{◌≡◌, refl, true, some, none, ok, [], ◌∷◌, arith}
use bee_agent.Prelude.Map
use bee_agent.Prelude.Text.{has_prefix}
use bee_agent.Chronicle.{Db, Registration, Registry, StoredEvent, empty}
use bee_agent.Kanban.Store.{Env}
use bee_agent.Scheduler.Protocol.{SchedulerTrigger, RunStatus}
use bee_agent.Scheduler.{AgentScheduler, RegisterSchedulerTriggerInput, rebuild, register}
use bee_agent.Scheduler.Fire.{SchedulerFiredRun, TurnPort, following, payload_of, settle}
use bee_agent.Scheduler.Cadence.{following_now}
use bee_agent.Scheduler.History.{start, registers, ticks, rebuild_reached}
use bee_agent.Scheduler.Recording.{empty-IsScheduled}
use bee_agent.Scheduler.Ticking.{tick}
use bee_agent.Scheduler.Races.{removed_trigger_returns}
use bee_agent.Events.{
  Body, type_of, scheduler_trigger_registered_event, scheduler_trigger_triggered_event,
}
use bee_agent.Tests.Fixtures.{anything, call_at}

abbrev env : Env
env = record {
  registry = record {
    type_of = type_of;
    is_uuid = λ t. has_prefix t "u";
    types =
        ("scheduler.trigger.registered", anything)
        ∷ ("scheduler.trigger.triggered", anything)
        ∷ ("scheduler.trigger.removed", anything)
        ∷ [];
  };
  is_uuid = λ t. has_prefix t "u";
}

-- Every ten milliseconds, first at the registration.
abbrev input : RegisterSchedulerTriggerInput
input = record {
  input = "check the mail";
  thread_id = "u-t";
  at = none;
  interval_ms = some 10;
  when = none;
}

abbrev trigger : SchedulerTrigger
trigger = record {
  id = "u-1";
  input = "check the mail";
  thread_id = "u-t";
  at = none;
  interval_ms = some 10;
  when = none;
  enabled = true;
  created_at = 1;
  next_run_at = some 1;
}

following_now_example : following 35 trigger ≡ some 45
following_now_example = following_now 35 trigger 10 1 refl refl (omega arith)

abbrev opened : AgentScheduler
opened = record { chronicle = empty; triggers = [] }

-- A turn that fails and writes nothing.
abbrev failing : TurnPort
failing t db = (none, db)

abbrev registered_row : StoredEvent Body
registered_row = record {
  event = scheduler_trigger_registered_event (call_at "ue-1" 1) trigger;
  stream_id = "scheduler";
  sequence = 1;
  ingest_time = 1;
}

abbrev scheduled : AgentScheduler
scheduled = record {
  chronicle = record {
    streams = ("scheduler", 1) ∷ [];
    events = ("scheduler", registered_row ∷ []) ∷ [];
  };
  triggers = ("u-1", trigger) ∷ [];
}

registering : register env (call_at "ue-1" 1) input opened ≡ ok (trigger, scheduled)
unfolding register bee_agent.Scheduler.Protocol.trigger_schema bee_agent.Chronicle.append
    bee_agent.Chronicle.validate_all bee_agent.Chronicle.validate_new Map.get
    bee_agent.Chronicle.new_chronicle_event bee_agent.Chronicle.append_locked Map.set
    bee_agent.Chronicle.insert_rows bee_agent.Chronicle.stamp bee_agent.Chronicle.insert_row
    bee_agent.Chronicle.last_sequence bee_agent.Chronicle.envelope_schema
registering = refl

abbrev later : AgentScheduler
later = (tick env failing (λ _ _. Ordering.eq) (λ _. call_at "ue-2" 35) 35 scheduled).1

rebuild_reached_example : rebuild later.chronicle ≡ ok later
rebuild_reached_example =
    rebuild_reached env failing (λ _ _. Ordering.eq) later (λ t db v. (v, refl))
      (ticks (registers start (call_at "ue-1" 1) input registering) (λ _. call_at "ue-2" 35) 35)

abbrev run : SchedulerFiredRun
run = record {
  trigger_id = "u-1";
  thread_id = "u-t";
  turn_id = none;
  status = RunStatus.completed;
  missed_intervals = 3;
}

abbrev settled : AgentScheduler
settled = record {
  chronicle = record {
    streams = ("scheduler", 1) ∷ [];
    events =
        (
          "scheduler",
          record {
            event =
                scheduler_trigger_triggered_event (call_at "ue-2" 35) (payload_of 35 trigger run);
            stream_id = "scheduler";
            sequence = 1;
            ingest_time = 35;
          }
              ∷ [],
        )
        ∷ [];
  };
  triggers = ("u-1", record trigger { next_run_at = some 45 }) ∷ [];
}

settling : settle env (call_at "ue-2" 35) 35 trigger run opened ≡ ok (run, settled)
unfolding settle bee_agent.Scheduler.Protocol.triggered_schema bee_agent.Chronicle.append
    bee_agent.Chronicle.validate_all bee_agent.Chronicle.validate_new Map.get
    bee_agent.Chronicle.new_chronicle_event bee_agent.Chronicle.append_locked Map.set
    bee_agent.Chronicle.insert_rows bee_agent.Chronicle.stamp bee_agent.Chronicle.insert_row
    bee_agent.Chronicle.last_sequence bee_agent.Chronicle.envelope_schema
settling = refl

unknown : Map.get trigger.id opened.triggers ≡ none
unfolding Map.get
unknown = refl

removed_trigger_returns_example :
    (Map.get "u-1" settled.triggers ≡ some (record trigger { next_run_at = following 35 trigger }))
    × (r : AgentScheduler) × (rebuild settled.chronicle ≡ ok r)
    × (Map.get "u-1" r.triggers ≡ none)
removed_trigger_returns_example =
    removed_trigger_returns env (call_at "ue-2" 35) 35 trigger run opened empty-IsScheduled unknown
      refl settling
