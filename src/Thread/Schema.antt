-- ===== src/Thread/Schema.antt =====
-- The zod schemas of packages/thread/src/protocol.ts as Boolean tests. `z.uuid()` is code of a
-- package, hence the parameter `is_uuid`; the tests of the language's types hold by typing.
use bee_agent.Prelude.{String, Bool, true, false, ◌&&◌, ◌||◌, none, some, leb, ltb, length, every}
use bee_agent.Prelude.Text.{non_empty, optionally}
use bee_agent.Prelude.Units.{has_units, is_sha256_digest}
use bee_agent.Thread.Protocol.{
  ProtocolRef, Thread, Turn, MessageToolCall, ItemPayload, Item, ThreadBody, ThreadEvent, message,
  plan, tool_call, approval, artifact, file_change, memory_citation, learning_note, thread_created,
  thread_renamed, turn_started, turn_completed, turn_failed, turn_cancelled, item_started,
  item_delta, item_completed, item_failed, agent_checkpoint, agent_recovery_failed,
  context_compacted, foreign,
}

unfoldable pub ref_schema : ProtocolRef → Bool
ref_schema ref = non_empty ref.id && non_empty ref.version

unfoldable pub tool_call_schema : MessageToolCall → Bool
tool_call_schema call = has_units call.call_id && has_units call.tool_id

unfoldable pub item_payload_schema : ItemPayload → Bool
unfolding tool_call_schema is_sha256_digest
item_payload_schema (message p) = optionally (every tool_call_schema) p.tool_calls
item_payload_schema (plan p) = non_empty p.plan_id && non_empty p.version
item_payload_schema (tool_call p) = has_units p.tool_id && has_units p.call_id
item_payload_schema (approval p) =
    non_empty p.title
    && optionally non_empty p.approval_id
    && optionally has_units p.call_id
    && optionally has_units p.tool_id
item_payload_schema (artifact p) = optionally non_empty p.name && is_sha256_digest p.digest
item_payload_schema (file_change p) = non_empty p.path && optionally is_sha256_digest p.digest
item_payload_schema (memory_citation p) = non_empty p.memory_id
item_payload_schema (learning_note text) = non_empty text

-- The two events that carry no turn.
abbrev pub on_thread : ThreadBody → Bool
on_thread (thread_created _) = true
on_thread (thread_renamed _) = true
on_thread _ = false

module _ (is_uuid : String → Bool) where
  unfoldable pub thread_schema : Thread → Bool
  unfolding ref_schema
  thread_schema thread =
      is_uuid thread.id
      && ltb 0 (length thread.title)
      && optionally non_empty thread.workspace_id
      && optionally ref_schema thread.memory_view

  unfoldable pub turn_schema : Turn → Bool
  turn_schema turn =
      is_uuid turn.id && is_uuid turn.thread_id && optionally non_empty turn.structure_version

  unfoldable pub item_schema : Item → Bool
  unfolding item_payload_schema
  item_schema item =
      is_uuid item.id
      && is_uuid item.thread_id
      && is_uuid item.turn_id
      && item_payload_schema item.payload

  -- The payload schemas of packages/thread/src/index.ts, one per type.
  unfoldable pub payload_schema : ThreadBody → Bool
  unfolding thread_schema turn_schema item_schema is_sha256_digest
  payload_schema (thread_created thread) = thread_schema thread
  payload_schema (thread_renamed title) = ltb 0 (length title) && leb (length title) 200
  payload_schema (turn_started turn) = turn_schema turn
  payload_schema (turn_completed turn) = turn_schema turn
  payload_schema (turn_failed turn error) = non_empty error && turn_schema turn
  payload_schema (turn_cancelled turn) = turn_schema turn
  payload_schema (item_started item) = item_schema item
  payload_schema (item_delta item_id delta) = is_uuid item_id
  payload_schema (item_completed item) = item_schema item
  payload_schema (item_failed item_id error) = is_uuid item_id && non_empty error
  payload_schema (agent_checkpoint c) = has_units c.state_digest
  payload_schema (agent_recovery_failed f) =
      ltb 0 f.checkpoint_sequence && has_units f.expected_digest && has_units f.actual_digest
  payload_schema (context_compacted c) =
      has_units c.summary
      && ltb 0 c.covered_message_count
      && is_sha256_digest c.covered_digest
      && ltb 0 c.covered_tokens
  payload_schema (foreign _) = false

  -- `ThreadEventSchema`: the position, then what the payload has to fit.
  unfoldable pub thread_event_schema : ThreadEvent → Bool
  unfolding payload_schema
  thread_event_schema event =
      ltb 0 event.sequence
      && is_uuid event.thread_id
      && (on_thread event.body
          || elim event.turn_id [ none ↦ false | some turn_id ↦ is_uuid turn_id ])
      && payload_schema event.body
