-- ===== src/Agent/Uncommitted.antt =====
-- Recovery of a turn that has no checkpoint yet.
use bee_agent.Prelude.{
  ℕ, String, ◌≡◌, refl, ap, subst, true, false, none, some, List, [], ◌∷◌, ◌++◌, arith, leb, ltb,
  str_eq, str_eq_iff, filter, ok, All, Bool-cases, inl, inr,
}
use mathlib.Core.List.{append-nil}
use bee_agent.Prelude.Units.{Text}
use bee_agent.Thread.{ThreadEvent, Turn, turn_started}
use bee_agent.Agent.{
  carried, find_turn, finish_rebuild, is_checkpoint, load_compaction, messages_from_events, of_turn,
  rebuild_history, rebuild_turn, started_sequence, verify,
}
use bee_agent.Agent.Scanning.{
  All-filter, All-map, filter_none, find_turn-some, keep_first, keep_middle, last_checkpoint_none,
}
use bee_agent.Agent.Recovery.{Earlier}

uncommitted :
    (events : List ThreadEvent)
    → All (λ e. leb e.sequence 0 ≡ false) events
    → rebuild_history events 0 ≡ []
unfolding rebuild_history messages_from_events
uncommitted events h =
    ap messages_from_events (filter_none (λ (e : ThreadEvent). leb e.sequence 0) events h)

-- An event after the start of the turn, at sequence `k`: no checkpoint of the turn.
abbrev pub Unsettled : String → ℕ → ThreadEvent → Type 0
Unsettled turn_id k e =
    (ltb e.sequence k ≡ false) × (of_turn turn_id e ≡ true → is_checkpoint e.body ≡ false)

module _ (turn_id : String) (start : ThreadEvent) (turn : Turn) (rest : List ThreadEvent)
    (is_start : start.body ≡ turn_started turn) (is_turn : turn.id ≡ turn_id) where
  found_start :
      (before : List ThreadEvent)
      → All (Earlier turn_id start.sequence) before
      → started_sequence turn_id (before ++ start ∷ rest) ≡ some start.sequence
  unfolding started_sequence
  found_start [] h =
      let e : str_eq turn.id turn_id ≡ true = (str_eq_iff turn.id turn_id).1 is_turn in
      rw (started_sequence, is_start, e) refl
  found_start (x ∷ xs) h = rw h.0.2 (found_start xs h.1)

  carried-before :
      (before : List ThreadEvent)
      → All (Earlier turn_id start.sequence) before
      → All (Unsettled turn_id start.sequence) rest
      → carried turn_id (before ++ start ∷ rest) ≡ messages_from_events before
  unfolding carried
  carried-before before earlier after =
      rw
        (
          carried,
          found_start before earlier,
          keep_first (λ (e : ThreadEvent). ltb e.sequence start.sequence) before (start ∷ rest)
              (All-map (λ e h. h.0) before earlier) (ground arith, All-map (λ e h. h.0) rest after),
        )
        refl

  bare :
      (events : List ThreadEvent)
      → All (Unsettled turn_id start.sequence) events
      → All (λ e. is_checkpoint e.body ≡ false) (filter (of_turn turn_id) events)
  bare [] h = tt
  bare (e ∷ es) h = elim (Bool-cases (of_turn turn_id e)) [
    | inl own ↦ rw own (h.0.1 own, bare es h.1)
    | inr other ↦ rw other (bare es h.1)
  ]

-- A turn without a checkpoint is rebuilt, at step 0, to the messages of the events before its start
-- and of no others: of what the turn recorded itself, the input of the user included, nothing comes
-- back. The events of the turn start with its start, and the sequences of the thread at 1.
pub rebuild_turn_uncommitted :
    (sha256 : Text → Text) (turn_id : String) (before rest : List ThreadEvent) (start : ThreadEvent)
    (turn : Turn)
    → start.body ≡ turn_started turn
    → turn.id ≡ turn_id
    → of_turn turn_id start ≡ true
    → All (λ e. leb e.sequence 0 ≡ false) (before ++ start ∷ rest)
    → All (Earlier turn_id start.sequence) before
    → All (Unsettled turn_id start.sequence) rest
    → (current : Turn) × (find_turn (start ∷ filter (of_turn turn_id) rest) none none
        ≡ some current)
      × (rebuild_turn sha256 (before ++ start ∷ rest) turn_id ≡ (
        [],
        ok (record {
          turn = current;
          history = messages_from_events before;
          step_index = 0;
          compaction =
              load_compaction sha256 (before ++ start ∷ rest) (messages_from_events before) none;
          compaction_attempts = 0;
        }),
      ))
unfolding rebuild_turn finish_rebuild verify find_turn
rebuild_turn_uncommitted sha256 turn_id before rest start turn is_start is_turn own positive earlier
      after =
    let page = before ++ start ∷ rest in
    let events = start ∷ filter (of_turn turn_id) rest in
    let of_page : filter (of_turn turn_id) page ≡ events =
      keep_middle (of_turn turn_id) before (start ∷ []) rest (All-map (λ e h. h.1) before earlier)
        (own, tt) in
    let unsettled : All (λ e. is_checkpoint e.body ≡ false) events =
      (rw is_start refl, bare turn_id start turn rest is_start is_turn rest after) in
    let none_own : rebuild_history events 0 ≡ [] = uncommitted events (
      subst (All (λ e. leb e.sequence 0 ≡ false)) of_page
        (All-filter (of_turn turn_id) _ page positive)) in
    let (current, e) : (t : Turn) × (find_turn events none none ≡ some t) =
      rw is_start (find_turn-some (filter (of_turn turn_id) rest) turn none) in
    (
      current,
      e,
      rw
          (
            rebuild_turn,
            of_page,
            last_checkpoint_none events none unsettled,
            e,
            none_own,
            carried-before turn_id start turn rest is_start is_turn before earlier after,
            append-nil (messages_from_events before),
          )
          refl,
    )
