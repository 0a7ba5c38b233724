-- ===== src/Agent/Recovery.antt =====
-- Recovery: what `#rebuild` makes of the events of a thread.
use bee_agent.Prelude.{
  ℕ, String, ◌≡◌, refl, ap, ◌∙◌, true, false, none, some, List, [], ◌∷◌, ◌++◌, leb, ltb, str_eq,
  str_eq_iff, filter, map, ok, err, ◌>>◌, All, All-append,
}
use mathlib.Core.List.{append-nil}
use bee_agent.Prelude.Units.{Text, same_text, same_text_refl}
use bee_agent.Errors.{checkpoint_mismatch}
use bee_agent.Context.Policy.{LlmMessage}
use bee_agent.Thread.{
  AgentCheckpoint, ThreadEvent, Turn, agent_checkpoint, agent_recovery_failed, turn_started,
}
use bee_agent.Agent.{
  message_in, message_in, Commit, LoopState, carried, digest, find_turn, is_checkpoint,
  last_checkpoint, load_compaction, messages_from_events, of_turn, rebuild_history, finish_rebuild,
  rebuild_turn, started_sequence, starts, verify,
}
use bee_agent.Agent.Recorded.{
  Action, Faithful, messages_from_events-map, messages_of, pushed, recorded, recorded-Faithful,
}
use bee_agent.Agent.Scanning.{
  keep_middle, keep_first, All-filter, All-map, find_turn-some, last_checkpoint-append,
  last_checkpoint_none, messages-append,
}

module _ (turn_id : String) (k : ℕ) where
  -- An event from before the turn started, at sequence `k`.
  abbrev pub Earlier : ThreadEvent → Type 0
  Earlier e =
      (ltb e.sequence k ≡ true) × (of_turn turn_id e ≡ false) × (starts turn_id e.body ≡ false)

  -- An event of the turn, up to the sequence `n`.
  abbrev pub Within : ℕ → ThreadEvent → Type 0
  Within n e = (ltb e.sequence k ≡ false) × (leb e.sequence n ≡ true) × (of_turn turn_id e ≡ true)

  -- An event after the last checkpoint, at sequence `n`.
  abbrev pub Past : ℕ → ThreadEvent → Type 0
  Past n e =
      (ltb e.sequence k ≡ false) × (leb e.sequence n ≡ false) × (is_checkpoint e.body ≡ false)

-- A thread with a turn that has a checkpoint: what came before the turn, its start, its events, the
-- checkpoint, and what was appended after it.
pub record Interrupted (turn_id : String) : Type 0 where
  pub before : List ThreadEvent
  pub start : ThreadEvent
  pub turn : Turn
  pub middle : List ThreadEvent
  pub commit : ThreadEvent
  pub checkpoint : AgentCheckpoint
  pub after : List ThreadEvent
  pub is_start : start.body ≡ turn_started turn
  pub is_turn : turn.id ≡ turn_id
  pub is_commit : commit.body ≡ agent_checkpoint checkpoint
  pub earlier : All (Earlier turn_id start.sequence) before
  pub within : All (Within turn_id start.sequence commit.sequence) (start ∷ middle ++ commit ∷ [])
  pub past : All (Past turn_id start.sequence commit.sequence) after

module _ (sha256 : Text → Text) (turn_id : String) (i : Interrupted turn_id) where
  abbrev own : List ThreadEvent
  own = i.start ∷ i.middle ++ i.commit ∷ []

  -- What `readThreadEvents` returns.
  abbrev pub page : List ThreadEvent
  page = i.before ++ (own ++ i.after)

  abbrev later : List ThreadEvent
  later = filter (of_turn turn_id) i.after

  own_events : filter (of_turn turn_id) page ≡ own ++ later
  own_events =
      keep_middle (of_turn turn_id) i.before own i.after (All-map (λ e h. h.1) i.before i.earlier)
        (All-map (λ e h. h.2) own i.within)

  before_page : filter (λ (e : ThreadEvent). ltb e.sequence i.start.sequence) page ≡ i.before
  before_page =
      keep_first (λ (e : ThreadEvent). ltb e.sequence i.start.sequence) i.before (own ++ i.after)
        (All-map (λ e h. h.0) i.before i.earlier)
        (All-append _ own i.after (All-map (λ e h. h.0) own i.within)
          (All-map (λ e h. h.0) i.after i.past))

  committed : filter (λ (e : ThreadEvent). leb e.sequence i.commit.sequence) (own ++ later) ≡ own
  committed =
      keep_first (λ (e : ThreadEvent). leb e.sequence i.commit.sequence) own later
        (All-map (λ e h. h.1) own i.within)
        (All-map (λ e h. h.1) later (All-filter (of_turn turn_id) _ i.after i.past))

  last_commit :
      last_checkpoint (own ++ later) none
      ≡ some (record { sequence = i.commit.sequence; checkpoint = i.checkpoint })
  unfolding last_checkpoint
  last_commit =
      last_checkpoint-append own later none
      ∙ last_checkpoint_none later (last_checkpoint own none)
          (All-map (λ e h. h.2) later (All-filter (of_turn turn_id) _ i.after i.past))
      ∙ last_checkpoint-append (i.start ∷ i.middle) (i.commit ∷ []) none
      ∙ rw i.is_commit refl

  started : started_sequence turn_id page ≡ some i.start.sequence
  unfolding started_sequence
  started = started_after i.before i.earlier
    where
      started_after :
          (before : List ThreadEvent)
          → All (Earlier turn_id i.start.sequence) before
          → started_sequence turn_id (before ++ (own ++ i.after)) ≡ some i.start.sequence
      started_after [] h =
          let e : str_eq i.turn.id turn_id ≡ true = (str_eq_iff i.turn.id turn_id).1 i.is_turn in
          rw (started_sequence, i.is_start, e) refl
      started_after (x ∷ xs) h = rw h.0.2 (started_after xs h.1)

  messages_own : messages_from_events own ≡ messages_from_events i.middle
  unfolding messages_from_events message_in
  messages_own =
      rw (i.is_start, messages-append i.middle (i.commit ∷ []), i.is_commit)
        (append-nil (messages_from_events i.middle))

  -- The history that a recovery rebuilds.
  abbrev pub recovered_history : List LlmMessage
  recovered_history = messages_from_events i.before ++ messages_from_events i.middle

  found : (turn : Turn) × (find_turn (own ++ later) none none ≡ some turn)
  unfolding find_turn
  found = rw i.is_start (find_turn-some (i.middle ++ i.commit ∷ [] ++ later) i.turn none)

  messages_before : carried turn_id page ≡ messages_from_events i.before
  unfolding carried
  messages_before = rw (carried, started, before_page) refl

  history_page : rebuild_history (own ++ later) i.commit.sequence ≡ messages_from_events i.middle
  unfolding rebuild_history
  history_page = ap messages_from_events committed ∙ messages_own

  abbrev pub last_commit_of : Commit
  last_commit_of = record { sequence = i.commit.sequence; checkpoint = i.checkpoint }

  -- What the recovery returns, once the digest is accepted.
  abbrev pub recovered : Turn → LoopState
  recovered turn = record {
    turn = turn;
    history = recovered_history;
    step_index = i.checkpoint.step_index;
    compaction = load_compaction sha256 page recovered_history none;
    compaction_attempts = 0;
  }

  rebuilt :
      (turn : Turn) × (rebuild_turn sha256 page turn_id ≡ (
        (verify sha256 (some last_commit_of) recovered_history).0,
        (verify sha256 (some last_commit_of) recovered_history).1 >> ok (recovered turn),
      ))
  unfolding rebuild_turn finish_rebuild
  rebuilt =
      let (turn, e) = found in
      (turn, rw (rebuild_turn, own_events, last_commit, messages_before, history_page, e) refl)

  -- The history of the live loop at the checkpoint.
  abbrev pub live_history : List Action → List LlmMessage
  live_history actions = messages_from_events i.before ++ pushed actions

  -- After a crash, the events of a turn up to its last checkpoint give back the history that the
  -- live loop had there, and its step, and the digest is accepted: where the loop carried what came
  -- before the turn, every parallel batch completed in model order, and no item of a call had an
  -- error flag before the call settled. What was appended after the checkpoint is left out.
  pub rebuild_turn_lem :
      (actions : List Action)
      → map (λ (e : ThreadEvent). e.body) i.middle ≡ recorded actions
      → Faithful actions
      → i.checkpoint.state_digest ≡ digest sha256 (live_history actions)
      → (s : LoopState) × (rebuild_turn sha256 page turn_id ≡ ([], ok s))
        × (s.history ≡ live_history actions)
        × (s.step_index ≡ i.checkpoint.step_index)
  unfolding verify
  rebuild_turn_lem actions log ordered digested =
      let (turn, result) = rebuilt in
      let e : recovered_history ≡ live_history actions =
        ap (λ ms. messages_from_events i.before ++ ms)
          (messages_from_events-map i.middle
            ∙ ap messages_of log
            ∙ recorded-Faithful actions ordered) in
      let accepted : same_text (digest sha256 recovered_history) i.checkpoint.state_digest ≡ true =
        rw (digested, e) (same_text_refl (digest sha256 (live_history actions))) in
      (recovered turn, result ∙ rw accepted refl, e, refl)

  -- Where a parallel batch completed in another order than the model's, or the turn did not carry
  -- what came before it, so that the hash tells the history in the order of the events from the
  -- live one, the same recovery is refused with the mismatch of the two digests, and
  -- an event that tells it.
  pub rebuild_turn_refused :
      (live : List LlmMessage) (actions : List Action)
      → map (λ (e : ThreadEvent). e.body) i.middle ≡ recorded actions
      → i.checkpoint.state_digest ≡ digest sha256 live
      → same_text
          (digest sha256 (messages_from_events i.before ++ messages_of (recorded actions)))
          (digest sha256 live)
        ≡ false
      → rebuild_turn sha256 page turn_id ≡ (
        agent_recovery_failed (record {
          checkpoint_sequence = i.commit.sequence;
          expected_digest = digest sha256 live;
          actual_digest =
              digest sha256 (messages_from_events i.before ++ messages_of (recorded actions));
        })
            ∷ [],
        err (
            checkpoint_mismatch i.commit.sequence
              (digest sha256 live)
              (digest sha256 (messages_from_events i.before ++ messages_of (recorded actions)))),
      )
  unfolding verify
  rebuild_turn_refused live actions log digested apart =
      let (turn, result) = rebuilt in
      let e : recovered_history ≡ messages_from_events i.before ++ messages_of (recorded actions) =
        ap (λ ms. messages_from_events i.before ++ ms)
          (messages_from_events-map i.middle ∙ ap messages_of log) in
      result ∙ rw (e, digested, apart) refl
