-- ===== src/Thread/Build.antt =====
-- packages/thread/src/index.ts: the constructors of threads, turns and items, and the builders of
-- the events on them. `crypto.randomUUID()` and the clock are the `Call`.
use bee_agent.Prelude.{
  ℕ, String, Bool, Option, none, some, or_else, List, [], ◌∷◌, Result, ok, guard, ◌>>◌, ◌>>=◌,
}
use bee_agent.Prelude.Text.{◌⧺◌}
use bee_agent.Errors.{Error, thread_schema_invalid}
use bee_agent.Chronicle.{NewEvent, Actor, ActorType, Registry, new_chronicle_event, register}
use bee_agent.Events.{Call}
use bee_agent.Prelude.Units.{Text}
use bee_agent.Thread.Protocol.{
  ProtocolRef, Thread, TurnStatus, TurnTrigger, Turn, ItemStatus, ItemPayload, Item,
  AgentCheckpoint, RecoveryFailure, Compaction, ThreadBody, thread_created, thread_renamed,
  turn_started, turn_completed, turn_failed, turn_cancelled, item_started, item_delta,
  item_completed, item_failed, agent_checkpoint, agent_recovery_failed, context_compacted, foreign,
}
use bee_agent.Thread.Schema.{thread_schema, turn_schema, item_schema, payload_schema}

-- `threadStreamId`
unfoldable pub thread_stream_id : String → String
thread_stream_id thread_id = "thread:" ⧺ thread_id

-- `event.eventType`
abbrev pub thread_event_type : ThreadBody → String
thread_event_type (thread_created _) = "thread.created"
thread_event_type (thread_renamed _) = "thread.renamed"
thread_event_type (turn_started _) = "turn.started"
thread_event_type (turn_completed _) = "turn.completed"
thread_event_type (turn_failed _ _) = "turn.failed"
thread_event_type (turn_cancelled _) = "turn.cancelled"
thread_event_type (item_started _) = "item.started"
thread_event_type (item_delta _ _) = "item.delta"
thread_event_type (item_completed _) = "item.completed"
thread_event_type (item_failed _ _) = "item.failed"
thread_event_type (agent_checkpoint _) = "agent.checkpoint"
thread_event_type (agent_recovery_failed _) = "agent.recovery_failed"
thread_event_type (context_compacted _) = "context.compacted"
thread_event_type (foreign type) = type

unfoldable pub thread_event_types : List String
thread_event_types =
    "thread.created" ∷ "thread.renamed" ∷ "turn.started" ∷ "turn.completed" ∷ "turn.failed"
    ∷ "turn.cancelled" ∷ "item.started" ∷ "item.delta" ∷ "item.completed" ∷ "item.failed"
    ∷ "agent.checkpoint" ∷ "agent.recovery_failed" ∷ "context.compacted" ∷ []

pub record NewThreadInit : Type 0 where
  pub title : Text
  pub workspace_id : Option String
  pub memory_view : Option ProtocolRef
  pub id : Option String
  pub now : Option ℕ

pub record NewTurnInit : Type 0 where
  pub thread_id : String
  pub trigger : TurnTrigger
  pub input : Option Text
  pub structure_version : Option String
  pub id : Option String
  pub now : Option ℕ

pub record NewItemInit : Type 0 where
  pub thread_id : String
  pub turn_id : String
  pub payload : ItemPayload
  pub id : Option String
  pub now : Option ℕ

module _ (is_uuid : String → Bool) where
  -- The loop of `registerThreadChronicleEvents`
  unfoldable pub register_types :
      List String → Registry ThreadBody → Result Error (Registry ThreadBody)
  register_types [] r = ok r
  register_types (type ∷ types) r = do
    r' ← register type (payload_schema is_uuid) none r
    register_types types r'

  unfoldable pub register_thread_chronicle_events :
      Registry ThreadBody → Result Error (Registry ThreadBody)
  unfolding register_types
  register_thread_chronicle_events r = register_types thread_event_types r

  unfoldable pub new_thread : Call → NewThreadInit → Result Error Thread
  new_thread call init =
      let now = or_else init.now call.now in
      let thread : Thread = record {
        id = or_else init.id call.fresh_id;
        title = init.title;
        workspace_id = init.workspace_id;
        memory_view = init.memory_view;
        created_at = now;
        updated_at = now;
      } in
      do guard (thread_schema is_uuid thread) thread_schema_invalid; ok thread

  unfoldable pub new_turn : Call → NewTurnInit → Result Error Turn
  new_turn call init =
      let turn : Turn = record {
        id = or_else init.id call.fresh_id;
        thread_id = init.thread_id;
        status = TurnStatus.active;
        trigger = init.trigger;
        input = init.input;
        structure_version = init.structure_version;
        started_at = or_else init.now call.now;
        ended_at = none;
      } in
      do guard (turn_schema is_uuid turn) thread_schema_invalid; ok turn

  unfoldable pub new_item : Call → NewItemInit → Result Error Item
  new_item call init =
      let item : Item = record {
        id = or_else init.id call.fresh_id;
        thread_id = init.thread_id;
        turn_id = init.turn_id;
        status = ItemStatus.active;
        created_at = or_else init.now call.now;
        updated_at = none;
        ended_at = none;
        error = none;
        payload = init.payload;
      } in
      do guard (item_schema is_uuid item) thread_schema_invalid; ok item

-- `DEFAULT_ACTOR`
abbrev pub thread_actor : Actor
thread_actor = record { type = ActorType.agent; id = "bee" }

-- The two ids that an event on a turn carries.
pub record TurnIds : Type 0 where
  pub thread_id : String
  pub turn_id : String

unfoldable pub base_event :
    Call → String → Option String → ThreadBody → Option Actor → NewEvent ThreadBody
base_event call thread_id turn_id body actor = new_chronicle_event call.event_id call.now (record {
  event_id = none;
  schema_version = none;
  event_time = none;
  task_id = none;
  thread_id = some thread_id;
  turn_id = turn_id;
  structure_version = none;
  actor = or_else actor thread_actor;
  correlation_id = none;
  classification = none;
  retention_class = none;
  body = body;
})

module _ (call : Call) (actor : Option Actor) where
  unfoldable pub thread_created_event : Thread → NewEvent ThreadBody
  thread_created_event thread = base_event call thread.id none (thread_created thread) actor

  unfoldable pub thread_renamed_event : String → Text → NewEvent ThreadBody
  thread_renamed_event thread_id title = base_event call thread_id none (thread_renamed title) actor

  unfoldable pub on_turn : Turn → ThreadBody → NewEvent ThreadBody
  on_turn turn body = base_event call turn.thread_id (some turn.id) body actor

  unfoldable pub turn_started_event : Turn → NewEvent ThreadBody
  unfolding on_turn
  turn_started_event turn =
      let event = on_turn turn (turn_started turn) in
      elim turn.structure_version [
        | none ↦ event
        | some version ↦ record event { structure_version = some version }
      ]

  unfoldable pub turn_completed_event : Turn → NewEvent ThreadBody
  turn_completed_event turn = on_turn turn (turn_completed turn)

  unfoldable pub turn_failed_event : Turn → String → NewEvent ThreadBody
  turn_failed_event turn error = on_turn turn (turn_failed turn error)

  unfoldable pub turn_cancelled_event : Turn → NewEvent ThreadBody
  turn_cancelled_event turn = on_turn turn (turn_cancelled turn)

  unfoldable pub item_started_event : Item → NewEvent ThreadBody
  item_started_event item =
      base_event call item.thread_id (some item.turn_id) (item_started item) actor

  unfoldable pub item_completed_event : Item → NewEvent ThreadBody
  item_completed_event item =
      base_event call item.thread_id (some item.turn_id) (item_completed item) actor

  unfoldable pub item_delta_event : TurnIds → String → String → NewEvent ThreadBody
  item_delta_event ids item_id delta =
      base_event call ids.thread_id (some ids.turn_id) (item_delta item_id delta) actor

  unfoldable pub item_failed_event : TurnIds → String → String → NewEvent ThreadBody
  item_failed_event ids item_id error =
      base_event call ids.thread_id (some ids.turn_id) (item_failed item_id error) actor

  unfoldable pub agent_checkpoint_event : TurnIds → AgentCheckpoint → NewEvent ThreadBody
  agent_checkpoint_event ids checkpoint =
      base_event call ids.thread_id (some ids.turn_id) (agent_checkpoint checkpoint) actor

  unfoldable pub agent_recovery_failed_event : TurnIds → RecoveryFailure → NewEvent ThreadBody
  agent_recovery_failed_event ids failure =
      base_event call ids.thread_id (some ids.turn_id) (agent_recovery_failed failure) actor

  unfoldable pub context_compacted_event : TurnIds → Compaction → NewEvent ThreadBody
  context_compacted_event ids compaction =
      base_event call ids.thread_id (some ids.turn_id) (context_compacted compaction) actor
