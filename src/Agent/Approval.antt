-- ===== src/Agent/Approval.antt =====
-- The approval that a suspended turn waits for: packages/runtime/src/agent-loop.ts,
-- `#findPendingApproval`.
use bee_agent.Prelude.{
  String, Bool, false, not, ◌&&◌, ◌||◌, Option, none, some, or_else, List, [], ◌∷◌, if◌then◌else◌,
  str_eq,
}
use bee_agent.Prelude.Units.{Text, same_text}
use bee_agent.Thread.{
  ApprovalItemPayload, ApprovalStatus, Item, ItemPayload, MessageToolCall, ThreadBody, ThreadEvent,
  ToolCallItemPayload, approval, item_completed, item_started, tool_call,
}

pub record PendingApproval : Type 0 where
  pub approval_id : String
  pub title : String
  pub call : MessageToolCall
  pub tool_item : Item
  pub approval_item : Item

abbrev completes : String → ThreadBody → Bool
completes id (item_completed item) = str_eq item.id id
completes id _ = false

-- `completed.has(id)`
unfoldable pub is_completed : String → List ThreadEvent → Bool
is_completed id [] = false
is_completed id (event ∷ events) = completes id event.body || is_completed id events

abbrev pub call_of : ToolCallItemPayload → MessageToolCall
call_of p = record { call_id = p.call_id; tool_id = p.tool_id; input = p.input; input_error = none }

-- A tool item that is kept in `activeToolItems`, with its call.
pub record ToolItem : Type 0 where
  pub item : Item
  pub payload : ToolCallItemPayload

module _ (events : List ThreadEvent) where
  abbrev pub kept_call : Text → Item → ItemPayload → Option ToolItem
  kept_call call_id item (tool_call p) =
      if not (is_completed item.id events) && same_text p.call_id call_id
      then some (record { item = item; payload = p })
      else none
  kept_call call_id item _ = none

  abbrev pub kept_item : Text → ThreadBody → Option ToolItem
  kept_item call_id (item_started item) = kept_call call_id item item.payload
  kept_item call_id _ = none

  -- `activeToolItems.get(callId)`: the last item that was set.
  unfoldable pub active_tool_item : Text → List ThreadEvent → Option ToolItem → Option ToolItem
  active_tool_item call_id [] before = before
  active_tool_item call_id (event ∷ rest) before =
      active_tool_item call_id rest
        (elim (kept_item call_id event.body) [ none ↦ before | some found ↦ some found ])

  abbrev pub waits_for : Item → ApprovalItemPayload → Option ToolItem → Option PendingApproval
  waits_for item p none = none
  waits_for item p (some found) = some (record {
    approval_id = or_else p.approval_id item.id;
    title = p.title;
    call = call_of found.payload;
    tool_item = found.item;
    approval_item = item;
  })

  abbrev pub asked :
      Item → ApprovalItemPayload → ApprovalStatus → Option Text → Option PendingApproval
  asked item p ApprovalStatus.pending (some call_id) =
      waits_for item p (active_tool_item call_id events none)
  asked item p _ _ = none

  abbrev pub pending_item : Item → ItemPayload → Option PendingApproval
  pending_item item (approval p) =
      if is_completed item.id events then none else asked item p p.status p.call_id
  pending_item item _ = none

  abbrev pub pending_in : ThreadBody → Option PendingApproval
  pending_in (item_started item) = pending_item item item.payload
  pending_in _ = none

  -- The last loop.
  unfoldable pub first_pending : List ThreadEvent → Option PendingApproval
  first_pending [] = none
  first_pending (event ∷ rest) = elim (pending_in event.body) [
    | some found ↦ some found
    | none ↦ first_pending rest
  ]

-- `#findPendingApproval`
unfoldable pub find_pending_approval : List ThreadEvent → Option PendingApproval
unfolding first_pending
find_pending_approval events = first_pending events events
