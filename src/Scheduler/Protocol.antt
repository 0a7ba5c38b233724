-- ===== src/Scheduler/Protocol.antt =====
-- packages/runtime/src/scheduler-events.ts: triggers and the payloads of their events. Date texts
-- are the instants they denote, in milliseconds.
use bee_agent.Prelude.{ℕ, String, Bool, true, not, ◌&&◌, Option, none, some, ltb, str_eq}
use bee_agent.Kanban.Status.{KanbanTaskStatus}

-- `SchedulerWhenSchema` is refined to exactly one of its two fields.
pub data SchedulerWhen : Type 0 where
  -- task id, status
  task_status : String → KanbanTaskStatus → SchedulerWhen
  -- stream prefix, event type
  event : Option String → String → SchedulerWhen

pub record SchedulerTrigger : Type 0 where
  pub id : String
  pub input : String
  pub thread_id : String
  pub at : Option ℕ
  pub interval_ms : Option ℕ
  pub when : Option SchedulerWhen
  pub enabled : Bool
  pub created_at : ℕ
  pub next_run_at : Option ℕ

pub data RunStatus : Type 0 where
  completed failed cancelled suspended error : RunStatus

-- `TriggeredPayloadSchema`
pub record TriggeredPayload : Type 0 where
  pub trigger_id : String
  pub thread_id : String
  pub turn_id : Option String
  pub status : RunStatus
  pub fired_at : ℕ
  pub missed_intervals : ℕ
  pub next_run_at : Option ℕ

optional {ℓ} : {A : Type ℓ} → (A → Bool) → Option A → Bool
optional p none = true
optional p (some a) = p a

nonempty : String → Bool
nonempty t = not (str_eq t "")

module _ (is_uuid : String → Bool) where
  -- `SchedulerWhenSchema`
  unfoldable pub when_schema : SchedulerWhen → Bool
  unfolding optional nonempty
  when_schema (task_status id _) = is_uuid id
  when_schema (event prefix type) = optional nonempty prefix && nonempty type

  -- `SchedulerTriggerSchema`
  unfoldable pub trigger_schema : SchedulerTrigger → Bool
  unfolding when_schema optional nonempty
  trigger_schema t =
      is_uuid t.id
      && nonempty t.input
      && is_uuid t.thread_id
      && optional (λ n. ltb 0 n) t.interval_ms
      && optional when_schema t.when

  -- `TriggeredPayloadSchema`
  unfoldable pub triggered_schema : TriggeredPayload → Bool
  unfolding optional
  triggered_schema p = is_uuid p.trigger_id && is_uuid p.thread_id && optional is_uuid p.turn_id
