-- ===== src/Agent/Live.antt =====
-- packages/runtime/src/agent-loop.ts: what the live loop records and pushes when something settles.
-- Each function gives the item that it appends as completed, and the message that it pushes.
use bee_agent.Prelude.{ℕ, Bool, true, Option, none, some, List, [], ◌∷◌}
use bee_agent.Prelude.Units.{Text, units}
use bee_agent.Context.Json.{Json, member, no_members, object, string}
use bee_agent.Context.Policy.{LlmMessage, assistant, tool, user}
use bee_agent.Thread.{Item, ItemStatus, MessageRole, MessageToolCall, message, tool_call}
use bee_agent.Agent.Approval.{ToolItem}

-- `ActionResult`
pub record ActionResult : Type 0 where
  pub output : Option Json
  pub content : Text
  pub is_error : Option Bool

-- `...(result.isError === undefined ? {} : { isError: result.isError })` over the old payload
abbrev pub set_flag : Option Bool → Option Bool → Option Bool
set_flag none old = old
set_flag (some flag) old = some flag

-- `#completeToolItem`
unfoldable pub complete_tool_item : ToolItem → ActionResult → ℕ → Item × LlmMessage
complete_tool_item t result now = (
  record t.item {
    status = ItemStatus.completed;
    ended_at = some now;
    payload = tool_call (record t.payload {
      output = result.output;
      content = some result.content;
      is_error = set_flag result.is_error t.payload.is_error;
    });
  },
  tool (record {
    call_id = t.payload.call_id;
    tool_id = t.payload.tool_id;
    content = result.content;
    is_error = result.is_error;
  }),
)

-- `#errorToolItem`
unfoldable pub error_tool_item : ToolItem → Text → ℕ → Item × LlmMessage
error_tool_item t reason now = (
  record t.item {
    status = ItemStatus.completed;
    ended_at = some now;
    payload = tool_call (record t.payload {
      output = some (object (member (units "error") (string reason) no_members));
      content = some reason;
      is_error = some true;
    });
  },
  tool (record {
    call_id = t.payload.call_id;
    tool_id = t.payload.tool_id;
    content = reason;
    is_error = some true;
  }),
)

-- `intents.length > 0 ? { toolCalls: … } : {}`
abbrev pub tool_calls_of : List MessageToolCall → Option (List MessageToolCall)
tool_calls_of [] = none
tool_calls_of (call ∷ calls) = some (call ∷ calls)

-- The outcome of `#generate` that `#drive` records and pushes.
unfoldable pub complete_assistant_item : Item → Text → List MessageToolCall → ℕ → Item × LlmMessage
complete_assistant_item item content calls now = (
  record item {
    status = ItemStatus.completed;
    ended_at = some now;
    payload = message (record {
      role = MessageRole.assistant;
      content = content;
      tool_calls = tool_calls_of calls;
    });
  },
  assistant content (tool_calls_of calls),
)

-- The input of the user in `runTurn`.
unfoldable pub user_input : Item → Text → Item × LlmMessage
user_input item input = (
  record item {
    payload = message (record { role = MessageRole.user; content = input; tool_calls = none });
  },
  user input,
)
