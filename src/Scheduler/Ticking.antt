-- ===== src/Scheduler/Ticking.antt =====
-- packages/runtime/src/scheduler.ts: `tick` and `notify`.
use Prim.Native.Nat.{compare, Ordering}
use bee_agent.Prelude.{
  ℕ, suc, String, Bool, true, false, not, ◌&&◌, Option, none, some, or_else, is_some, List, [], ◌∷◌,
  ◌++◌, Result, ok, err, filter, any_of, leb, ltb, str_eq, length,
}
use bee_agent.Prelude.Map
use bee_agent.Prelude.Text.{◌⧺◌, has_prefix}
use bee_agent.Prelude.Sort.{sort_by}
use bee_agent.Prelude.Comparing.{and_then, at_most}
use bee_agent.Errors.{Error}
use bee_agent.Chronicle.{Db, read_stream}
use bee_agent.Kanban.Status.{KanbanTaskStatus, status_eq}
use bee_agent.Kanban.Store.{Env}
use bee_agent.Scheduler.Protocol.{SchedulerTrigger, task_status, event}
use bee_agent.Scheduler.{AgentScheduler}
use bee_agent.Scheduler.Fire.{SchedulerFiredRun, TurnPort, fire}
use bee_agent.Events.{Body, Call, task_status_changed}

-- The filter of `#tickNow`.
unfoldable pub is_due : ℕ → SchedulerTrigger → Bool
is_due now t =
    t.enabled
    && not (is_some t.when)
    && elim t.next_run_at [ none ↦ false | some next ↦ leb next now ]

-- The loops that fire: an error ends them, and what was done stays. The `n`-th is made in `calls n`.
unfoldable pub fire_all :
    Env
    → TurnPort
    → (ℕ → Call)
    → (now : ℕ) → (wanted : AgentScheduler → SchedulerTrigger → Bool) → List SchedulerTrigger
    → (n : ℕ) → List SchedulerFiredRun
    → AgentScheduler
    → Result Error (List SchedulerFiredRun) × AgentScheduler
fire_all env turns calls now wanted [] n fired s = (ok fired, s)
fire_all env turns calls now wanted (t ∷ ts) n fired s = elim (wanted s t) [
  | false ↦ fire_all env turns calls now wanted ts n fired s
  | true ↦ elim (fire env turns (calls n) now t s).0 [
    | err error ↦ (err error, (fire env turns (calls n) now t s).1)
    | ok run ↦
        fire_all env turns calls now wanted ts (suc n) (fired ++ run ∷ [])
          (fire env turns (calls n) now t s).1
  ]
]

-- `trigger.when?.taskStatus`
abbrev condition_of : SchedulerTrigger → Option (String × KanbanTaskStatus)
condition_of t = elim t.when [
  | none ↦ none
  | some w ↦ elim w [ task_status id status ↦ some (id, status) | event _ _ ↦ none ]
]

-- `#pendingTaskTriggers`
unfoldable pub is_pending : SchedulerTrigger → Bool
is_pending t = t.enabled && not (is_some t.next_run_at) && is_some (condition_of t)

abbrev reaches : String → KanbanTaskStatus → Body → Bool
reaches id status (task_status_changed from to reason task) =
    str_eq task.id id && status_eq task.status status
reaches id status body = false

-- `#taskReachedStatus`
unfoldable pub task_reached_status : Db Body → String → KanbanTaskStatus → ℕ → Bool
task_reached_status db id status since =
    any_of (λ e. ltb since e.ingest_time && reaches id status e.body)
      (read_stream db ("kanban:" ⧺ id) 0)

unfoldable pub is_satisfied : AgentScheduler → SchedulerTrigger → Bool
unfolding task_reached_status
is_satisfied s t = elim (condition_of t) [
  | none ↦ false
  | some c ↦ task_reached_status s.chronicle c.0 c.1 t.created_at
]

-- `id_order` is `localeCompare` on the ids of triggers.
unfoldable pub due_triggers :
    (String → String → Ordering) → ℕ → AgentScheduler → List SchedulerTrigger
unfolding is_due
due_triggers id_order now s =
    sort_by
      (λ a b. at_most (
        and_then (compare (or_else a.next_run_at 0) (or_else b.next_run_at 0))
          (id_order a.id b.id)))
      (filter (is_due now) (Map.values s.triggers))

-- The second loop of `#tickNow`, after the first came to `result` and the state `s`.
unfoldable pub fire_pending :
    Env
    → TurnPort
    → (ℕ → Call)
    → (now : ℕ) → Result Error (List SchedulerFiredRun)
    → AgentScheduler
    → Result Error (List SchedulerFiredRun) × AgentScheduler
unfolding fire_all is_pending is_satisfied
fire_pending env turns calls now (err error) s = (err error, s)
fire_pending env turns calls now (ok fired) s =
    fire_all env turns calls now is_satisfied (filter is_pending (Map.values s.triggers))
      (length fired) fired s

-- `tick`: the due triggers, then the conditions on tasks.
unfoldable pub tick :
    Env
    → TurnPort
    → (String → String → Ordering)
    → (ℕ → Call)
    → (now : ℕ) → AgentScheduler
    → Result Error (List SchedulerFiredRun) × AgentScheduler
unfolding fire_all fire_pending due_triggers
tick env turns id_order calls now s =
    let scheduled =
      fire_all env turns calls now (λ _ _. true) (due_triggers id_order now s) 0 [] s in
    fire_pending env turns calls now scheduled.0 scheduled.1

-- The test of `notify` on one trigger.
unfoldable pub is_notified : (stream_id event_type : String) → SchedulerTrigger → Bool
is_notified stream_id event_type t = t.enabled && not (is_some t.next_run_at) && elim t.when [
  | none ↦ false
  | some w ↦ elim w [
    | task_status _ _ ↦ false
    | event prefix type ↦
        str_eq event_type type && elim prefix [ none ↦ true | some p ↦ has_prefix stream_id p ]
  ]
]

unfoldable pub fire_first :
    Env
    → TurnPort
    → Call
    → (now : ℕ) → List SchedulerTrigger
    → AgentScheduler
    → Result Error (Option SchedulerFiredRun) × AgentScheduler
fire_first env turns call now [] s = (ok none, s)
fire_first env turns call now (t ∷ _) s = elim (fire env turns call now t s).0 [
  | err error ↦ (err error, (fire env turns call now t s).1)
  | ok run ↦ (ok (some run), (fire env turns call now t s).1)
]

-- `notify`: the first trigger that matches is fired.
unfoldable pub notify :
    Env
    → TurnPort
    → Call
    → (now : ℕ) → (stream_id event_type : String) → AgentScheduler
    → Result Error (Option SchedulerFiredRun) × AgentScheduler
unfolding is_notified fire_first
notify env turns call now stream_id event_type s =
    fire_first env turns call now
      (filter (is_notified stream_id event_type) (Map.values s.triggers)) s
