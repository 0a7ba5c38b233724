-- ===== src/Chronicle/Envelope.antt =====
-- packages/knowledge/src/envelope.ts: events before and after they are stored. The event type and
-- the payload are one value, `body`, whose constructor is the type. The scope ids that no modelled
-- code reads, `validTime`, `causationId` and the other version stamps are left out.
use bee_agent.Prelude.{ℕ, String, Bool, ◌&&◌, Option, or_else, ltb}
use bee_agent.Prelude.Text.{non_empty, optionally}

pub data ActorType : Type 0 where
  user agent system tool : ActorType

pub record Actor : Type 0 where
  pub type : ActorType
  pub id : String

pub data Classification : Type 0 where
  public internal confidential secret : Classification

pub record NewEvent (B : Type 0) : Type 0 where
  pub event_id : String
  pub schema_version : ℕ
  pub event_time : ℕ
  pub task_id : Option String
  pub thread_id : Option String
  pub turn_id : Option String
  pub structure_version : Option String
  pub actor : Actor
  pub correlation_id : String
  pub classification : Classification
  pub retention_class : String
  pub body : B

-- `NewChronicleEventSchema` for an event of the given type. An instant is a number here, which
-- `z.iso.datetime()` has nothing to refuse in.
unfoldable pub envelope_schema : {B : Type 0} → (String → Bool) → String → NewEvent B → Bool
envelope_schema is_uuid type event =
    is_uuid event.event_id
    && non_empty type
    && ltb 0 event.schema_version
    && optionally non_empty event.task_id
    && optionally non_empty event.thread_id
    && optionally non_empty event.turn_id
    && non_empty event.actor.id
    && is_uuid event.correlation_id
    && optionally non_empty event.structure_version
    && non_empty event.retention_class

-- A stored event: the envelope and what the store assigns.
pub record StoredEvent (B : Type 0) : Type 0 where
  pub event : NewEvent B
  pub open event use *
  pub stream_id : String
  pub sequence : ℕ
  pub ingest_time : ℕ

pub record NewEventInput (B : Type 0) : Type 0 where
  pub event_id : Option String
  pub schema_version : Option ℕ
  pub event_time : Option ℕ
  pub task_id : Option String
  pub thread_id : Option String
  pub turn_id : Option String
  pub structure_version : Option String
  pub actor : Actor
  pub correlation_id : Option String
  pub classification : Option Classification
  pub retention_class : Option String
  pub body : B

-- `newChronicleEvent`: `fresh` is the uuid that `randomUUID()` gives, `now` the clock.
unfoldable pub new_chronicle_event : {B : Type 0} → String → ℕ → NewEventInput B → NewEvent B
new_chronicle_event fresh now input = record {
  event_id = or_else input.event_id fresh;
  schema_version = or_else input.schema_version 1;
  event_time = or_else input.event_time now;
  task_id = input.task_id;
  thread_id = input.thread_id;
  turn_id = input.turn_id;
  structure_version = input.structure_version;
  actor = input.actor;
  correlation_id = or_else input.correlation_id (or_else input.event_id fresh);
  classification = or_else input.classification Classification.internal;
  retention_class = or_else input.retention_class "default";
  body = input.body;
}
