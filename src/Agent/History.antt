-- ===== src/Agent/History.antt =====
-- packages/runtime/src/agent-loop.ts: the messages of a turn, their digest and the compacted view.
-- The hash of node's `crypto` is the parameter `sha256`.
use bee_agent.Prelude.{
  ℕ, String, Bool, false, not, Option, none, some, or_else, List, [], ◌∷◌, ◌++◌, if◌then◌else◌, leb,
  ltb, length, take, drop,
}
use bee_agent.Prelude.Units.{Text, units, same_text}
use bee_agent.Context.Json.{
  Json, Elements, Members, boolean, canonical_json, stringify, string, array, object, no_elements,
  element, no_members, member,
}
use bee_agent.Context.Policy.{LlmMessage, ToolMessage, assistant, decimal, system, tool, user}
use bee_agent.Thread.{
  Compaction, ItemPayload, MessageRole, MessageToolCall, ThreadBody, ThreadEvent,
  ToolCallItemPayload, MessageItemPayload, context_compacted, item_completed, message, tool_call,
}

-- The members of an object that are there.
abbrev optional_member : Text → Option Json → Members → Members
optional_member key none rest = rest
optional_member key (some value) rest = member key value rest

abbrev optional_text : Option Text → Option Json
optional_text none = none
optional_text (some text) = some (string text)

abbrev call_json : MessageToolCall → Json
call_json call = object (
    member (units "callId") (string call.call_id) (
      member (units "toolId") (string call.tool_id) (
        member (units "input") call.input
          (optional_member (units "inputError") (optional_text call.input_error) no_members))))

abbrev calls_json : List MessageToolCall → Elements
calls_json [] = no_elements
calls_json (call ∷ calls) = element (call_json call) (calls_json calls)

abbrev optional_calls : Option (List MessageToolCall) → Option Json
optional_calls none = none
optional_calls (some calls) = some (array (calls_json calls))

abbrev optional_flag : Option Bool → Option Json
optional_flag none = none
optional_flag (some flag) = some (boolean flag)

abbrev plain_json : String → Text → Members → Json
plain_json role content rest =
    object
      (member (units "role") (string (units role)) (member (units "content") (string content) rest))

abbrev message_json : LlmMessage → Json
message_json (system content) = plain_json "system" content no_members
message_json (user content) = plain_json "user" content no_members
message_json (assistant content calls) =
    plain_json "assistant" content
      (optional_member (units "toolCalls") (optional_calls calls) no_members)
message_json (tool m) = plain_json "tool" m.content (
    member (units "callId") (string m.call_id) (
      member (units "toolId") (string m.tool_id)
        (optional_member (units "isError") (optional_flag m.is_error) no_members)))

abbrev messages_json : List LlmMessage → Elements
messages_json [] = no_elements
messages_json (m ∷ ms) = element (message_json m) (messages_json ms)

-- `content ?? (typeof output === 'string' ? output : JSON.stringify(output))`. Without either the
-- content stays undefined, which is the empty text here; the loop writes no such item.
abbrev output_text : Option Json → Text
output_text none = []
output_text (some (string text)) = text
output_text (some value) = stringify value

abbrev message_of_role : MessageRole → MessageItemPayload → Option LlmMessage
message_of_role MessageRole.user p = some (user p.content)
message_of_role MessageRole.system p = some (system p.content)
message_of_role MessageRole.assistant p = some (assistant p.content p.tool_calls)
message_of_role MessageRole.tool p = none

abbrev tool_message : ToolCallItemPayload → ToolMessage
tool_message p = record {
  call_id = p.call_id;
  tool_id = p.tool_id;
  content = or_else p.content (output_text p.output);
  is_error = p.is_error;
}

-- The message of a completed item.
unfoldable pub message_of : ItemPayload → Option LlmMessage
message_of (message p) = message_of_role p.role p
message_of (tool_call p) = some (tool (tool_message p))
message_of _ = none

abbrev pub push_optional : Option LlmMessage → List LlmMessage → List LlmMessage
push_optional none rest = rest
push_optional (some m) rest = m ∷ rest

-- The message that an event adds.
unfoldable pub message_in : ThreadBody → Option LlmMessage
unfolding message_of
message_in (item_completed item) = message_of item.payload
message_in _ = none

-- `#messagesFromEvents`
unfoldable pub messages_from_events : List ThreadEvent → List LlmMessage
unfolding message_in
messages_from_events [] = []
messages_from_events (event ∷ events) =
    push_optional (message_in event.body) (messages_from_events events)

pub record CompactionView : Type 0 where
  pub summary : Text
  pub covered_message_count : ℕ
  pub covered_digest : Text

-- `summaryMessage`
unfoldable pub summary_message : CompactionView → LlmMessage
summary_message view = user (
    units "Summary of the earlier conversation ("
    ++ decimal view.covered_message_count
    ++ units " messages):"
    ++ 10 ∷ 10 ∷ view.summary)

module _ (sha256 : Text → Text) where
  -- `#digest`
  unfoldable pub digest : List LlmMessage → Text
  digest history = units "sha256:" ++ sha256 (canonical_json (array (messages_json history)))

  -- `#compactionApplies`
  unfoldable pub compaction_applies : Compaction → List LlmMessage → Bool
  unfolding digest
  compaction_applies c history =
      if ltb (length history) c.covered_message_count
      then false
      else same_text (digest (take c.covered_message_count history)) c.covered_digest

  -- `#loadCompaction`: the last that applies.
  unfoldable pub load_compaction :
      List ThreadEvent → List LlmMessage → Option CompactionView → Option CompactionView
  unfolding compaction_applies
  load_compaction [] history view = view
  load_compaction (event ∷ events) history view = elim event.body [
    | context_compacted c ↦ load_compaction events history (
        if compaction_applies c history
        then some (record {
          summary = c.summary;
          covered_message_count = c.covered_message_count;
          covered_digest = c.covered_digest;
        })
        else view)
    | _ ↦ load_compaction events history view
  ]

  -- `#compactView`
  unfoldable pub compact_view : List LlmMessage → Option CompactionView → List LlmMessage
  unfolding digest summary_message
  compact_view history none = history
  compact_view history (some view) =
      if not (same_text (digest (take view.covered_message_count history)) view.covered_digest)
      then history
      else if leb (length history) view.covered_message_count
      then summary_message view ∷ []
      else summary_message view ∷ drop view.covered_message_count history
