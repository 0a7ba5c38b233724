-- ===== src/Thread/Wire.antt =====
-- Which stored events have a wire form, and what each of the two failures says.
use bee_agent.Prelude.{
  ℕ, suc, ◌≤◌, String, ◌≡◌, refl, ◌⊎◌, inl, inr, Bool, true, false, none, some, List, [], ◌∷◌,
  arith, if◌then◌else◌, any_of, str_eq, ok, err, Bool-cases, All,
}
use bee_agent.Errors.{unknown_thread_event_type}
use bee_agent.Chronicle.{NewEvent, StoredEvent, stamp}
use bee_agent.Thread.Protocol.{
  ThreadBody, ThreadEvent, thread_created, thread_renamed, turn_started, turn_completed,
  turn_failed, turn_cancelled, item_started, item_delta, item_completed, item_failed,
  agent_checkpoint, agent_recovery_failed, context_compacted, foreign,
}
use bee_agent.Thread.Schema.{on_thread, payload_schema, thread_event_schema}
use bee_agent.Thread.Build.{thread_event_type, thread_event_types}
use bee_agent.Thread.Store.{to_thread_event}
use bee_agent.Thread.Pages.{Converts}

-- `(THREAD_EVENT_TYPES as readonly string[]).includes(type)`
abbrev pub is_thread_type : String → Bool
is_thread_type type = any_of (str_eq type) thread_event_types

pub to_thread_event_unknown :
    (is_uuid : String → Bool) (row : StoredEvent ThreadBody)
    → is_thread_type (thread_event_type row.body) ≡ false
    → to_thread_event is_uuid row ≡ err (unknown_thread_event_type (thread_event_type row.body))
unfolding to_thread_event
to_thread_event_unknown is_uuid row h = rw h refl

-- What a thread's own event looks like on the wire.
abbrev pub wire : String → ℕ → NewEvent ThreadBody → ThreadEvent
wire thread_id sequence event = record {
  sequence = sequence;
  thread_id = thread_id;
  turn_id = if on_thread event.body then none else event.turn_id;
  body = event.body;
}

abbrev pub wires : String → ℕ → List (NewEvent ThreadBody) → List ThreadEvent
wires thread_id sequence [] = []
wires thread_id sequence (event ∷ events) =
    wire thread_id sequence event ∷ wires thread_id (suc sequence) events

module _ (is_uuid : String → Bool) where
  -- An event of this thread, with its payload valid and its turn named where it has one.
  pub record Scoped (thread_id : String) (event : NewEvent ThreadBody) : Type 0 where
    pub fits : payload_schema is_uuid event.body ≡ true
    pub thread : event.thread_id ≡ some thread_id
    pub uuid : is_uuid thread_id ≡ true
    pub turn :
        (on_thread event.body ≡ true)
        ⊎ ((turn_id : String) × (event.turn_id ≡ some turn_id) × (is_uuid turn_id ≡ true))

  pub known :
      (body : ThreadBody)
      → payload_schema is_uuid body ≡ true
      → is_thread_type (thread_event_type body) ≡ true
  unfolding thread_event_types payload_schema
  known (thread_created _) h = refl
  known (thread_renamed _) h = refl
  known (turn_started _) h = refl
  known (turn_completed _) h = refl
  known (turn_failed _ _) h = refl
  known (turn_cancelled _) h = refl
  known (item_started _) h = refl
  known (item_delta _ _) h = refl
  known (item_completed _) h = refl
  known (item_failed _ _) h = refl
  known (agent_checkpoint _) h = refl
  known (agent_recovery_failed _) h = refl
  known (context_compacted _) h = refl
  known (foreign _) h = absurd (cc h)

  wire-valid :
      (thread_id : String) (sequence : ℕ) (event : NewEvent ThreadBody)
      → Scoped thread_id event
      → 1 ≤ sequence
      → thread_event_schema is_uuid (wire thread_id sequence event) ≡ true
  unfolding thread_event_schema
  wire-valid thread_id sequence event scoped h = elim scoped.turn [
    | inl e ↦ ground (arith, scoped.fits, scoped.uuid)
    | inr (turn_id, e, u) ↦ elim (Bool-cases (on_thread event.body)) [
      | inl o ↦ ground (arith, scoped.fits, scoped.uuid)
      | inr o ↦ ground (arith, scoped.fits, scoped.uuid)
    ]
  ]

  pub to_thread_event-Scoped :
      (thread_id : String) (row : StoredEvent ThreadBody)
      → Scoped thread_id row.event
      → 1 ≤ row.sequence
      → to_thread_event is_uuid row ≡ ok (wire thread_id row.sequence row.event)
  unfolding to_thread_event
  to_thread_event-Scoped thread_id row scoped h =
      rw
        (
          known row.body scoped.fits,
          scoped.thread,
          wire-valid thread_id row.sequence row.event scoped h,
        )
        refl

  -- The rows of a batch have wire forms, numbered like them.
  pub Converts-stamp :
      (thread_id stream : String) (k now : ℕ) (events : List (NewEvent ThreadBody))
      → All (Scoped thread_id) events
      → 1 ≤ k
      → Converts is_uuid (stamp stream k now events) (wires thread_id k events)
  unfolding stamp
  Converts-stamp thread_id stream k now [] h low = tt
  Converts-stamp thread_id stream k now (event ∷ events) h low = (
    to_thread_event-Scoped thread_id _ h.0 low,
    Converts-stamp thread_id stream (suc k) now events h.1 (omega arith),
  )
