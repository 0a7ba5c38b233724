-- ===== src/Tests/Crash.antt =====
-- Instances of the theorems on recovery. The hash is the text itself, so it tells histories apart.
use bee_agent.Prelude.{
  map, ◌≡◌, refl, true, false, none, some, List, [], ◌∷◌, ◌++◌, ok, err, String, ℕ,
}
use bee_agent.Prelude.Units.{Text, units}
use bee_agent.Errors.{checkpoint_mismatch}
use bee_agent.Context.Json.{null}
use bee_agent.Context.Policy.{LlmMessage, user}
use bee_agent.Thread.{
  ApprovalItemPayload, ApprovalStatus, approval, item_started, Turn, TurnStatus, TurnTrigger, Item,
  ItemStatus, MessageRole, ThreadBody, ThreadEvent, message, agent_checkpoint,
  agent_recovery_failed, item_completed, item_delta, tool_call, turn_started,
}
use bee_agent.Agent.{
  LoopState, carried, digest, find_turn, load_compaction, messages_from_events, rebuild_turn,
}
use bee_agent.Agent.Live.{user_input}
use bee_agent.Agent.Recorded.{
  Outcome, asks, completes, settled, Action, batches, messages_of, pushed, recorded,
}
use bee_agent.Agent.Recovery.{
  Interrupted, live_history, page, rebuild_turn_lem, rebuild_turn_refused,
}
use bee_agent.Agent.Approval.{ToolItem, PendingApproval, find_pending_approval}
use bee_agent.Agent.Waiting.{IsWaiting, find_pending_approval-IsWaiting}
use bee_agent.Agent.Uncommitted.{rebuild_turn_uncommitted}

abbrev plain : Text → Text
plain text = text

abbrev turn : Turn
turn = record {
  id = "u-1";
  thread_id = "u-t";
  status = TurnStatus.active;
  trigger = TurnTrigger.user;
  input = some (units "go");
  structure_version = none;
  started_at = 2;
  ended_at = none;
}

abbrev said : String → String → Item
said id content = record {
  id = id;
  thread_id = "u-t";
  turn_id = "u-1";
  status = ItemStatus.completed;
  created_at = 2;
  updated_at = none;
  ended_at = none;
  error = none;
  payload =
      message (record { role = MessageRole.user; content = units content; tool_calls = none });
}

abbrev called : String → Item
called id = record (said id "") {
  payload = tool_call (record {
    tool_id = units "read";
    call_id = units id;
    input = null;
    input_error = none;
    output = none;
    content = some (units id);
    is_error = none;
  });
}

-- The call of `id` before and after it settled.
abbrev open_call : String → ToolItem
open_call id = record {
  item = called id;
  payload = record {
    tool_id = units "read";
    call_id = units id;
    input = null;
    input_error = none;
    output = none;
    content = none;
    is_error = none;
  };
}

abbrev answer : String → Outcome
answer id =
    completes (open_call id) (record { output = none; content = units id; is_error = some false }) 3

abbrev asked : Item × LlmMessage
asked = user_input (said "u-j" "") (units "go")

abbrev at : ℕ → String → ThreadBody → ThreadEvent
at sequence turn_id body = record {
  sequence = sequence;
  thread_id = "u-t";
  turn_id = some turn_id;
  body = body;
}

-- The log: two results of one batch, the one of `b` first.
abbrev interrupted : Text → Interrupted "u-1"
interrupted state_digest = record {
  before = at 1 "u-0" (item_completed (said "u-i" "earlier")) ∷ [];
  start = at 2 "u-1" (turn_started turn);
  turn = turn;
  middle =
      at 3 "u-1" (item_completed asked.0)
      ∷ at 4 "u-1" (item_completed (settled (answer "b")).0)
      ∷ at 5 "u-1" (item_completed (settled (answer "a")).0)
      ∷ [];
  commit = at 6 "u-1" (agent_checkpoint (record { step_index = 1; state_digest = state_digest }));
  checkpoint = record { step_index = 1; state_digest = state_digest };
  after = at 7 "u-1" (item_delta "u-k" "late") ∷ [];
  is_start = refl;
  is_turn = refl;
  is_commit = refl;
  earlier = ((refl, refl, refl), tt);
  within = (
    (refl, refl, refl),
    ((refl, refl, refl), ((refl, refl, refl), ((refl, refl, refl), ((refl, refl, refl), tt)))),
  );
  past = ((refl, refl, refl), tt);
}

abbrev actions : List Outcome → List Action
actions model =
    asks (said "u-j" "") (units "go") ∷ batches (answer "b" ∷ answer "a" ∷ []) model ∷ []

abbrev history : List Action → List LlmMessage
history performed = user (units "earlier") ∷ pushed performed

abbrev in_order : List Action
in_order = actions (answer "b" ∷ answer "a" ∷ [])

abbrev crossed : List Action
crossed = actions (answer "a" ∷ answer "b" ∷ [])

abbrev kept : Interrupted "u-1"
kept = interrupted (digest plain (history in_order))

rebuild_turn_lem_example :
    (s : LoopState) × (rebuild_turn plain (page plain "u-1" kept) "u-1" ≡ ([], ok s))
    × (s.history ≡ live_history plain "u-1" kept in_order)
    × (s.step_index ≡ 1)
unfolding messages_from_events
rebuild_turn_lem_example =
    rebuild_turn_lem plain "u-1" kept in_order refl (refl, (refl, (refl, tt)), tt) refl

abbrev mixed : Interrupted "u-1"
mixed = interrupted (digest plain (history crossed))

rebuild_turn_refused_example : rebuild_turn plain (page plain "u-1" mixed) "u-1" ≡ (
  agent_recovery_failed (record {
    checkpoint_sequence = 6;
    expected_digest = digest plain (history crossed);
    actual_digest = digest plain (user (units "earlier") ∷ messages_of (recorded crossed));
  })
      ∷ [],
  err (
      checkpoint_mismatch 6
        (digest plain (history crossed))
        (digest plain (user (units "earlier") ∷ messages_of (recorded crossed)))),
)
unfolding bee_agent.Prelude.Units.same_text digest bee_agent.Context.Json.canonical_json
    messages_from_events bee_agent.Prelude.Sort.sort_by user_input
    bee_agent.Agent.Live.complete_tool_item
rebuild_turn_refused_example =
    rebuild_turn_refused plain "u-1" mixed (history crossed) crossed refl refl refl

-- The tool item and the approval of one call, and the answer to another.
abbrev asking : ApprovalItemPayload
asking = record {
  title = "read it";
  detail = none;
  status = ApprovalStatus.pending;
  approval_id = none;
  call_id = some (units "a");
  tool_id = none;
}

abbrev suspended : List ThreadEvent
suspended =
    at 1 "u-1" (item_started (called "a"))
    ∷ at 2 "u-1" (item_completed (called "b"))
    ∷ at 3 "u-1" (item_started (record (said "u-p" "") { payload = approval asking }))
    ∷ []

abbrev awaited : PendingApproval
awaited = record {
  approval_id = "u-p";
  title = "read it";
  call = record { call_id = units "a"; tool_id = units "read"; input = null; input_error = none };
  tool_item = called "a";
  approval_item = record (said "u-p" "") { payload = approval asking };
}

find_pending_approval-IsWaiting_example : IsWaiting suspended awaited
unfolding find_pending_approval bee_agent.Agent.Approval.is_completed
    bee_agent.Agent.Approval.active_tool_item bee_agent.Prelude.Units.same_text
find_pending_approval-IsWaiting_example = find_pending_approval-IsWaiting suspended awaited refl

abbrev first_turn : List ThreadEvent
first_turn = at 1 "u-0" (item_completed (said "u-i" "earlier")) ∷ []

abbrev early : List ThreadEvent
early =
    at 1 "u-0" (item_completed (said "u-i" "earlier"))
    ∷ at 2 "u-1" (turn_started turn)
    ∷ at 3 "u-1" (item_completed (said "u-j" "go"))
    ∷ []

rebuild_turn_uncommitted_example :
    (current : Turn) × (find_turn
        (at 2 "u-1" (turn_started turn) ∷ at 3 "u-1" (item_completed (said "u-j" "go")) ∷ [])
        none
        none
      ≡ some current)
    × (rebuild_turn plain early "u-1" ≡ (
      [],
      ok (record {
        turn = current;
        history = messages_from_events first_turn;
        step_index = 0;
        compaction = load_compaction plain early (messages_from_events first_turn) none;
        compaction_attempts = 0;
      }),
    ))
rebuild_turn_uncommitted_example =
    rebuild_turn_uncommitted plain "u-1" first_turn
      (at 3 "u-1" (item_completed (said "u-j" "go")) ∷ []) (at 2 "u-1" (turn_started turn)) turn
      refl refl refl (refl, (refl, (refl, tt))) ((refl, refl, refl), tt) ((refl, λ own. refl), tt)

-- The input is not among the recovered messages.
lost_input : carried "u-1" early ≡ user (units "earlier") ∷ []
unfolding carried bee_agent.Agent.started_sequence messages_from_events
lost_input = refl
