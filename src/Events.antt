-- ===== src/Events.antt =====
-- The event types of the modelled streams, each with its payload (packages/kanban/src/events.ts,
-- packages/runtime/src/scheduler-events.ts), and the builders of the kanban events.
use bee_agent.Prelude.{
  ℕ, String, Bool, false, ◌&&◌, Option, none, some, List, [], ◌∷◌, Result, ok, ◌>>=◌,
}
use bee_agent.Errors.{Error}
use bee_agent.Prelude.Text.{◌⧺◌, non_empty, optionally}
use bee_agent.Chronicle.{NewEvent, Actor, ActorType, Registry, new_chronicle_event, register}
use bee_agent.Kanban.Status.{KanbanTaskStatus}
use bee_agent.Kanban.Task.{KanbanTask, KanbanComment, comment_schema, task_schema}
use bee_agent.Scheduler.Protocol.{SchedulerTrigger, TriggeredPayload}

pub data Body : Type 0 where
  task_created : KanbanTask → Body
  -- from, to, reason, the task after the transition
  task_status_changed : (from to : KanbanTaskStatus) → Option String → KanbanTask → Body
  -- lease id, new deadline
  task_lease_renewed : String → ℕ → Body
  task_updated : KanbanTask → Body
  task_commented : KanbanComment → Body
  trigger_registered : SchedulerTrigger → Body
  trigger_triggered : TriggeredPayload → Body
  -- trigger id, reason
  trigger_removed : String → Option String → Body
  -- an event type of a stream that is not modelled
  other : String → Body

-- `event.eventType`
abbrev pub type_of : Body → String
type_of (task_created _) = "kanban.task.created"
type_of (task_status_changed _ _ _ _) = "kanban.task.status_changed"
type_of (task_lease_renewed _ _) = "kanban.task.lease_renewed"
type_of (task_updated _) = "kanban.task.updated"
type_of (task_commented _) = "kanban.task.commented"
type_of (trigger_registered _) = "scheduler.trigger.registered"
type_of (trigger_triggered _) = "scheduler.trigger.triggered"
type_of (trigger_removed _ _) = "scheduler.trigger.removed"
type_of (other type) = type

-- What `crypto.randomUUID()` and the clock give during one call: the id of the event that the
-- call writes, the id of the task, comment, lease or trigger that it makes, and the instant.
pub record Call : Type 0 where
  pub event_id : String
  pub fresh_id : String
  pub now : ℕ

-- `DEFAULT_ACTOR`
abbrev default_actor : Actor
default_actor = record { type = ActorType.agent; id = "bee" }

abbrev scheduler_actor : Actor
scheduler_actor = record { type = ActorType.system; id = "bee-scheduler" }

-- `newChronicleEvent` as the builders of both files call it.
abbrev build : Actor → Option String → Option String → Call → Body → NewEvent Body
build actor task_id thread_id call body = new_chronicle_event call.event_id call.now (record {
  event_id = none;
  schema_version = none;
  event_time = none;
  task_id = task_id;
  thread_id = thread_id;
  turn_id = none;
  structure_version = none;
  actor = actor;
  correlation_id = none;
  classification = none;
  retention_class = none;
  body = body;
})

-- `kanbanStreamId`
unfoldable pub kanban_stream_id : String → String
kanban_stream_id task_id = "kanban:" ⧺ task_id

-- `KANBAN_TASK_EVENT_TYPES`
unfoldable pub kanban_task_event_types : List String
kanban_task_event_types =
    "kanban.task.created" ∷ "kanban.task.status_changed" ∷ "kanban.task.lease_renewed"
    ∷ "kanban.task.updated" ∷ "kanban.task.commented" ∷ []

module _ (is_uuid : String → Bool) where
  -- `KANBAN_TASK_EVENT_PAYLOADS`
  unfoldable pub kanban_payload_schema : Body → Bool
  kanban_payload_schema (task_created task) = task_schema is_uuid task
  kanban_payload_schema (task_status_changed from to reason task) =
      optionally non_empty reason && task_schema is_uuid task
  kanban_payload_schema (task_lease_renewed lease_id expires_at) = is_uuid lease_id
  kanban_payload_schema (task_updated task) = task_schema is_uuid task
  kanban_payload_schema (task_commented comment) = comment_schema is_uuid comment
  kanban_payload_schema _ = false

  -- The loop of `registerKanbanChronicleEvents`.
  unfoldable pub register_kanban_types : List String → Registry Body → Result Error (Registry Body)
  unfolding kanban_payload_schema
  register_kanban_types [] r = ok r
  register_kanban_types (type ∷ types) r = do
    r' ← register type kanban_payload_schema none r
    register_kanban_types types r'

  unfoldable pub register_kanban_chronicle_events : Registry Body → Result Error (Registry Body)
  unfolding register_kanban_types kanban_task_event_types
  register_kanban_chronicle_events r = register_kanban_types kanban_task_event_types r

-- The five builders of kanban events.
abbrev pub kanban_task_created_event : Call → KanbanTask → NewEvent Body
kanban_task_created_event call task =
    build default_actor (some task.id) none call (task_created task)

abbrev pub kanban_task_status_changed_event :
    Call → KanbanTaskStatus → KanbanTask → Option String → NewEvent Body
kanban_task_status_changed_event call from task reason =
    build default_actor (some task.id) none call (task_status_changed from task.status reason task)

abbrev pub kanban_task_lease_renewed_event : Call → String → String → ℕ → NewEvent Body
kanban_task_lease_renewed_event call task_id lease_id expires_at =
    build default_actor (some task_id) none call (task_lease_renewed lease_id expires_at)

abbrev pub kanban_task_updated_event : Call → KanbanTask → NewEvent Body
kanban_task_updated_event call task =
    build default_actor (some task.id) none call (task_updated task)

abbrev pub kanban_task_commented_event : Call → String → KanbanComment → NewEvent Body
kanban_task_commented_event call task_id comment =
    build default_actor (some task_id) none call (task_commented comment)

-- `schedulerTriggerRegisteredEvent` and its siblings
abbrev pub scheduler_trigger_registered_event : Call → SchedulerTrigger → NewEvent Body
scheduler_trigger_registered_event call trigger =
    build scheduler_actor none (some trigger.thread_id) call (trigger_registered trigger)

abbrev pub scheduler_trigger_triggered_event : Call → TriggeredPayload → NewEvent Body
scheduler_trigger_triggered_event call payload =
    build scheduler_actor none (some payload.thread_id) call (trigger_triggered payload)

abbrev pub scheduler_trigger_removed_event :
    Call → String → Option String → Option String → NewEvent Body
scheduler_trigger_removed_event call trigger_id reason thread_id =
    build scheduler_actor none thread_id call (trigger_removed trigger_id reason)
