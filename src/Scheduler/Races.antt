-- ===== src/Scheduler/Races.antt =====
-- A removal during a turn: `remove` does not wait for a tick that runs.
use bee_agent.Prelude.{ℕ, ◌≡◌, ap, ◌∙◌, none, some, ok}
use bee_agent.Prelude.Map
use bee_agent.Prelude.Map.{get-set_self}
use bee_agent.Chronicle.{new_chronicle_event}
use bee_agent.Kanban.Store.{Env}
use bee_agent.Scheduler.Protocol.{SchedulerTrigger}
use bee_agent.Scheduler.{AgentScheduler, replay, rebuild}
use bee_agent.Scheduler.Fire.{SchedulerFiredRun, following, payload_of, rescheduled, settle}
use bee_agent.Scheduler.Replay.{IsScheduled, Written-IsScheduled, rebuild-same}
use bee_agent.Scheduler.Recording.{settle-Written}
use bee_agent.Events.{Call, scheduler_trigger_triggered_event}

replay_removed :
    (call : Call) (now : ℕ) (t : SchedulerTrigger) (run : SchedulerFiredRun)
    (m : Map.Map SchedulerTrigger)
    → Map.get t.id m ≡ none
    → replay m (scheduler_trigger_triggered_event call (payload_of now t run)).body ≡ ok m
unfolding replay new_chronicle_event
replay_removed call now t run m gone = rw gone

rescheduled_again :
    (now : ℕ) (t : SchedulerTrigger) (m : Map.Map SchedulerTrigger)
    → t.when ≡ none
    → rescheduled now t m ≡ Map.set t.id (record t { next_run_at = following now t }) m
rescheduled_again now t m h =
    ap
      (λ w. elim w [
        | some _ ↦ Map.delete t.id m
        | none ↦ Map.set t.id (record t { next_run_at = following now t }) m
      ])
      h

-- When a scheduled trigger is gone from memory before its turn is recorded, a record that succeeds
-- puts it back into memory, with the next run that its cadence gives, or none where it fires once,
-- while a rebuild from the log that it leaves does not have it.
pub removed_trigger_returns :
    (env : Env) (call : Call) (now : ℕ) (t : SchedulerTrigger) (run : SchedulerFiredRun)
    (s : AgentScheduler) {done : SchedulerFiredRun} {s' : AgentScheduler}
    → IsScheduled s
    → Map.get t.id s.triggers ≡ none
    → t.when ≡ none
    → settle env call now t run s ≡ ok (done, s')
    → (Map.get t.id s'.triggers ≡ some (record t { next_run_at = following now t }))
      × (r : AgentScheduler) × (rebuild s'.chronicle ≡ ok r)
      × (Map.get t.id r.triggers ≡ none)
removed_trigger_returns env call now t run s {s' = s'} v gone scheduled h =
    let (written, triggers) = settle-Written env call now t run s v.chronicle h in
    let r : AgentScheduler = record { chronicle = s'.chronicle; triggers = s.triggers } in
    (
      ap (Map.get t.id) triggers
          ∙ ap (Map.get t.id) (rescheduled_again now t s.triggers scheduled)
          ∙ get-set_self t.id (record t { next_run_at = following now t }) s.triggers,
      r,
      rebuild-same r (
          Written-IsScheduled s (scheduler_trigger_triggered_event call (payload_of now t run))
            s'.chronicle s.triggers v written (replay_removed call now t run s.triggers gone)),
      gone,
    )
