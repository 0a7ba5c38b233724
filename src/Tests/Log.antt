-- ===== src/Tests/Log.antt =====
-- Instances of the theorems on the event store.
use bee_agent.Prelude.{◌≡◌, refl, ◌↔◌, [], ◌∷◌, ok, All, drop}
use bee_agent.Chronicle.{Db, NewEvent, append, rows, read_stream, stamp, validate_all}
use bee_agent.Chronicle.Appending.{Appended, append-Appended}
use bee_agent.Chronicle.Outcome.{Outcome, append_locked-Outcome}
use bee_agent.Chronicle.Retry.{append_retry}
use bee_agent.Events.{Body}
use bee_agent.Tests.Fixtures.{kanban_registry, store_1, store_2, row_2, kanban_1, kanban_2}

-- The event that makes the task triaged.
abbrev event_2 : NewEvent Body
event_2 = row_2.event

abbrev db_1 : Db Body
db_1 = store_1.chronicle

append-Appended_example :
    (db' : Db Body) × (append kanban_registry db_1 "kanban:u-1" (event_2 ∷ []) 2 2
      ≡ ok (stamp "kanban:u-1" 2 2 (event_2 ∷ []), db'))
    × Appended db_1 "kanban:u-1" (stamp "kanban:u-1" 2 2 (event_2 ∷ [])) db'
unfolding validate_all bee_agent.Chronicle.validate_new bee_agent.Prelude.Map.get
    bee_agent.Chronicle.new_chronicle_event bee_agent.Chronicle.get_latest_sequence
    bee_agent.Chronicle.envelope_schema bee_agent.Events.kanban_payload_schema
    bee_agent.Kanban.Task.task_schema
append-Appended_example =
    append-Appended kanban_registry db_1 "kanban:u-1" event_2 [] 2 2 kanban_1.chronicle refl refl

-- The same call again, once the event is stored.
append_locked-Outcome_example : Outcome store_2.chronicle "kanban:u-1" (event_2 ∷ []) 2 7
append_locked-Outcome_example =
    append_locked-Outcome store_2.chronicle "kanban:u-1" event_2 [] 2 7 kanban_2.chronicle

append_retry_example :
    append kanban_registry store_2.chronicle "kanban:u-1" (event_2 ∷ []) 2 7
    ≡ ok (stamp "kanban:u-1" 2 2 (event_2 ∷ []), store_2.chronicle)
unfolding validate_all bee_agent.Chronicle.validate_new bee_agent.Prelude.Map.get
    bee_agent.Chronicle.new_chronicle_event bee_agent.Chronicle.get_latest_sequence rows stamp
    bee_agent.Chronicle.envelope_schema bee_agent.Events.kanban_payload_schema
    bee_agent.Kanban.Task.task_schema
append_retry_example =
    append_retry kanban_registry db_1 store_2.chronicle "kanban:u-1" event_2 [] 2 2 7 []
      kanban_1.chronicle kanban_2.chronicle refl refl refl
