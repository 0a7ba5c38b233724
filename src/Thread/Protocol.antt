-- ===== src/Thread/Protocol.antt =====
-- packages/thread/src/protocol.ts: threads, turns, items and the events on them. Ids are texts, an
-- instant is its number of milliseconds, and a text that the code measures or cuts is the list of
-- its UTF-16 code units.
use bee_agent.Prelude.{ℕ, String, Bool, Option, List}
use bee_agent.Prelude.Units.{Text}
use bee_agent.Context.Json.{Json}

pub record ProtocolRef : Type 0 where
  pub id : String
  pub version : String

pub record Thread : Type 0 where
  pub id : String
  pub title : Text
  pub workspace_id : Option String
  pub memory_view : Option ProtocolRef
  pub created_at : ℕ
  pub updated_at : ℕ

pub data TurnStatus : Type 0 where
  active completed failed cancelled : TurnStatus

pub data TurnTrigger : Type 0 where
  user system schedule : TurnTrigger

pub record Turn : Type 0 where
  pub id : String
  pub thread_id : String
  pub status : TurnStatus
  pub trigger : TurnTrigger
  pub input : Option Text
  pub structure_version : Option String
  pub started_at : ℕ
  pub ended_at : Option ℕ

pub data ItemStatus : Type 0 where
  active completed failed : ItemStatus

pub data MessageRole : Type 0 where
  user assistant system tool : MessageRole

-- `toolCalls` of a message
pub record MessageToolCall : Type 0 where
  pub call_id : Text
  pub tool_id : Text
  pub input : Json
  pub input_error : Option Text

pub record MessageItemPayload : Type 0 where
  pub role : MessageRole
  pub content : Text
  pub tool_calls : Option (List MessageToolCall)

pub record PlanItemPayload : Type 0 where
  pub plan_id : String
  pub version : String

pub record ToolCallItemPayload : Type 0 where
  pub tool_id : Text
  pub call_id : Text
  pub input : Json
  pub input_error : Option Text
  pub output : Option Json
  pub content : Option Text
  pub is_error : Option Bool

pub data ApprovalStatus : Type 0 where
  pending approved rejected : ApprovalStatus

pub record ApprovalItemPayload : Type 0 where
  pub title : String
  pub detail : Option String
  pub status : ApprovalStatus
  pub approval_id : Option String
  pub call_id : Option Text
  pub tool_id : Option Text

pub record ArtifactItemPayload : Type 0 where
  pub name : Option String
  pub digest : Text
  pub size : ℕ

pub data FileChangeKind : Type 0 where
  created modified deleted : FileChangeKind

pub record FileChangeItemPayload : Type 0 where
  pub path : String
  pub change : FileChangeKind
  pub digest : Option Text

pub record MemoryCitationItemPayload : Type 0 where
  pub memory_id : String
  pub snippet : String

-- The type of an item with its payload: the constructor is the type.
pub data ItemPayload : Type 0 where
  message : MessageItemPayload → ItemPayload
  plan : PlanItemPayload → ItemPayload
  tool_call : ToolCallItemPayload → ItemPayload
  approval : ApprovalItemPayload → ItemPayload
  artifact : ArtifactItemPayload → ItemPayload
  file_change : FileChangeItemPayload → ItemPayload
  memory_citation : MemoryCitationItemPayload → ItemPayload
  -- `text`
  learning_note : String → ItemPayload

pub record Item : Type 0 where
  pub id : String
  pub thread_id : String
  pub turn_id : String
  pub status : ItemStatus
  pub created_at : ℕ
  pub updated_at : Option ℕ
  pub ended_at : Option ℕ
  pub error : Option String
  pub payload : ItemPayload

pub record AgentCheckpoint : Type 0 where
  pub step_index : ℕ
  pub state_digest : Text

pub record RecoveryFailure : Type 0 where
  pub checkpoint_sequence : ℕ
  pub expected_digest : Text
  pub actual_digest : Text

-- `reason` is the constant `context-pressure`.
pub record Compaction : Type 0 where
  pub summary : Text
  pub covered_message_count : ℕ
  pub covered_digest : Text
  pub covered_tokens : ℕ

-- An event without its position: the constructor is the type, the argument the payload.
pub data ThreadBody : Type 0 where
  thread_created : Thread → ThreadBody
  thread_renamed : Text → ThreadBody
  turn_started turn_completed : Turn → ThreadBody
  turn_failed : Turn → String → ThreadBody
  turn_cancelled : Turn → ThreadBody
  item_started : Item → ThreadBody
  -- item, text
  item_delta : String → String → ThreadBody
  item_completed : Item → ThreadBody
  -- item, error
  item_failed : String → String → ThreadBody
  agent_checkpoint : AgentCheckpoint → ThreadBody
  agent_recovery_failed : RecoveryFailure → ThreadBody
  context_compacted : Compaction → ThreadBody
  -- an event type of another package
  foreign : String → ThreadBody

-- The wire form. `turnId` is absent from the two events of the thread itself.
pub record ThreadEvent : Type 0 where
  pub sequence : ℕ
  pub thread_id : String
  pub turn_id : Option String
  pub body : ThreadBody

pub record ThreadEventPage : Type 0 where
  pub events : List ThreadEvent
  pub has_more : Bool

pub record ThreadEventQuery : Type 0 where
  pub after : Option ℕ
  pub limit : Option ℕ
