-- ===== src/Agent/Rebuild.antt =====
-- packages/runtime/src/agent-loop.ts: `#rebuild` with the helpers that it calls.
use bee_agent.Prelude.{
  ℕ, String, Bool, true, false, not, Option, none, some, List, [], ◌∷◌, ◌++◌, Result, ok, err, ◌>>◌,
  if◌then◌else◌, leb, ltb, str_eq, filter,
}
use bee_agent.Prelude.Units.{Text, same_text}
use bee_agent.Errors.{Error, turn_not_found, checkpoint_mismatch}
use bee_agent.Context.Policy.{LlmMessage}
use bee_agent.Thread.{
  AgentCheckpoint, ThreadBody, ThreadEvent, Turn, agent_checkpoint, agent_recovery_failed,
  turn_cancelled, turn_completed, turn_failed, turn_started,
}
use bee_agent.Agent.History.{CompactionView, digest, load_compaction, messages_from_events}

-- `'turnId' in event && event.turnId === turnId`
abbrev pub of_turn : String → ThreadEvent → Bool
of_turn turn_id event = elim event.turn_id [ none ↦ false | some t ↦ str_eq t turn_id ]

-- `event.event === 'turn.started' && event.turn.id === turnId`
abbrev pub starts : String → ThreadBody → Bool
starts turn_id (turn_started turn) = str_eq turn.id turn_id
starts turn_id _ = false

-- `page.events.find(…)?.sequence`
unfoldable pub started_sequence : String → List ThreadEvent → Option ℕ
started_sequence turn_id [] = none
started_sequence turn_id (event ∷ events) =
    if starts turn_id event.body then some event.sequence else started_sequence turn_id events

abbrev pub started_in : ThreadBody → Option Turn → Option Turn
started_in (turn_started turn) before = some turn
started_in _ before = before

abbrev pub ended_in : ThreadBody → Option Turn → Option Turn
ended_in (turn_completed turn) before = some turn
ended_in (turn_failed turn _) before = some turn
ended_in (turn_cancelled turn) before = some turn
ended_in _ before = before

-- `#findTurn`, with the two variables of its loop.
unfoldable pub find_turn : List ThreadEvent → (started terminal : Option Turn) → Option Turn
find_turn [] started none = started
find_turn [] started (some turn) = some turn
find_turn (event ∷ events) started terminal =
    find_turn events (started_in event.body started) (ended_in event.body terminal)

pub record Commit : Type 0 where
  pub sequence : ℕ
  pub checkpoint : AgentCheckpoint

-- `last?.sequence ?? 0` and `last?.stepIndex ?? 0`
abbrev pub commit_sequence : Option Commit → ℕ
commit_sequence none = 0
commit_sequence (some c) = c.sequence

abbrev pub committed_step : Option Commit → ℕ
committed_step none = 0
committed_step (some c) = c.checkpoint.step_index

abbrev pub is_checkpoint : ThreadBody → Bool
is_checkpoint (agent_checkpoint _) = true
is_checkpoint _ = false

abbrev pub commit_in : ℕ → ThreadBody → Option Commit → Option Commit
commit_in sequence (agent_checkpoint checkpoint) before =
    some (record { sequence = sequence; checkpoint = checkpoint })
commit_in sequence _ before = before

-- `checkpoints.at(-1)`
unfoldable pub last_checkpoint : List ThreadEvent → Option Commit → Option Commit
last_checkpoint [] last = last
last_checkpoint (event ∷ events) last =
    last_checkpoint events (commit_in event.sequence event.body last)

-- `#rebuildHistory`
unfoldable pub rebuild_history : List ThreadEvent → ℕ → List LlmMessage
rebuild_history events commit =
    messages_from_events (filter (λ (e : ThreadEvent). leb e.sequence commit) events)

-- What came before the turn.
unfoldable pub carried : String → List ThreadEvent → List LlmMessage
carried turn_id page = elim (started_sequence turn_id page) [
  | none ↦ []
  | some k ↦ messages_from_events (filter (λ (e : ThreadEvent). ltb e.sequence k) page)
]

pub record LoopState : Type 0 where
  pub turn : Turn
  pub history : List LlmMessage
  pub step_index : ℕ
  pub compaction : Option CompactionView
  pub compaction_attempts : ℕ

module _ (sha256 : Text → Text) where
  -- The check of a checkpoint against the rebuilt history, with the events that it appends.
  unfoldable pub verify :
      Option Commit → List LlmMessage → List ThreadBody × Result Error (Unit {0})
  unfolding digest
  verify none history = ([], ok tt)
  verify (some commit) history =
      let actual = digest sha256 history in
      let expected = commit.checkpoint.state_digest in
      if not (same_text actual expected)
      then (
        agent_recovery_failed (record {
          checkpoint_sequence = commit.sequence;
          expected_digest = expected;
          actual_digest = actual;
        })
            ∷ [],
        err (checkpoint_mismatch commit.sequence expected actual),
      )
      else ([], ok tt)

  -- The rest of `#rebuild`, with its local variables.
  unfoldable pub finish_rebuild :
      (turn_id : String) (turn : Option Turn) (last : Option Commit) (history : List LlmMessage)
      (page : List ThreadEvent)
      → List ThreadBody × Result Error LoopState
  unfolding verify
  finish_rebuild turn_id none last history page = ([], err (turn_not_found turn_id))
  finish_rebuild turn_id (some turn) last history page =
      let checked = verify last history in
      (
        checked.0,
        checked.1
            >> ok (record {
              turn = turn;
              history = history;
              step_index = committed_step last;
              compaction = load_compaction sha256 page history none;
              compaction_attempts = 0;
            }),
      )

  -- `#rebuild` over the page that it reads, up to the pending approval: the events that it appends,
  -- and what it returns.
  unfoldable pub rebuild_turn : List ThreadEvent → String → List ThreadBody × Result Error LoopState
  unfolding finish_rebuild
  rebuild_turn page turn_id =
      let events = filter (of_turn turn_id) page in
      let last = last_checkpoint events none in
      finish_rebuild turn_id (find_turn events none none) last
        (carried turn_id page ++ rebuild_history events (commit_sequence last)) page
