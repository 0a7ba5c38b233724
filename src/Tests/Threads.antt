-- ===== src/Tests/Threads.antt =====
-- Instances of the theorems on threads.
use bee_agent.Prelude.{
  map, ℕ, suc, ◌+◌, String, ◌≡◌, refl, true, false, Bool, Option, none, some, List, [], ◌∷◌, ◌≤◌,
  ok, err, take, length, arith,
}
use bee_agent.Prelude.Text.{has_prefix}
use bee_agent.Errors.{unknown_thread_event_type}
use bee_agent.Chronicle.{
  Db, NewEvent, StoredEvent, Registration, Registry, append, rows, empty, get_latest_sequence,
  stamp,
}
use bee_agent.Chronicle.Appending.{IsChronicle, empty-IsChronicle}
use bee_agent.Tests.Fixtures.{call_at}
use bee_agent.Chronicle.Outcome.{append-IsChronicle}
use bee_agent.Thread.Registering.{entry}
use bee_agent.Thread.Pages.{Room, Converts}
use bee_agent.Thread.Paging.{follow, follow_all}
use bee_agent.Thread.Listed.{Listed, list_thread_summaries-Listed}
use bee_agent.Thread.{
  Thread, Turn, TurnStatus, TurnTrigger, Item, ItemStatus, MessageRole, ThreadBody, ThreadEvent,
  ThreadSummary, message, foreign, thread_event_types, thread_stream_id, thread_event_type,
  register_thread_chronicle_events, thread_created_event, thread_renamed_event, turn_started_event,
  item_completed_event, append_thread_events, read_thread_events, list_thread_summaries,
}
use bee_agent.Thread.Building.{Built, creation, starting}
use bee_agent.Thread.Wire.{wires}
use bee_agent.Thread.Roundtrip.{append_thread_events-read_thread_events, read_thread_events_unknown}

abbrev is_id : String → Bool
is_id t = has_prefix t "u"

abbrev fresh : Registry ThreadBody
fresh = record { type_of = thread_event_type; is_uuid = is_id; types = [] }

abbrev anything : Registration ThreadBody
anything = record { payload = λ _. true; ignorable = false }

abbrev new_db : Db ThreadBody
new_db = empty

abbrev thread_t : Thread
thread_t = record {
  id = "u-t";
  title = 72 ∷ 105 ∷ [];
  workspace_id = none;
  memory_view = none;
  created_at = 1;
  updated_at = 1;
}

abbrev turn_1 : Turn
turn_1 = record {
  id = "u-1";
  thread_id = "u-t";
  status = TurnStatus.active;
  trigger = TurnTrigger.user;
  input = some (104 ∷ 105 ∷ []);
  structure_version = some "v1";
  started_at = 2;
  ended_at = none;
}

abbrev created_t : NewEvent ThreadBody
created_t = thread_created_event (call_at "ue-1" 1) none thread_t

abbrev started_1 : NewEvent ThreadBody
started_1 = turn_started_event (call_at "ue-2" 2) none turn_1

abbrev registered : Registry ThreadBody
registered = record fresh { types = map (λ type. (type, entry is_id)) thread_event_types }

registering : register_thread_chronicle_events is_id fresh ≡ ok registered
unfolding register_thread_chronicle_events thread_event_types bee_agent.Chronicle.register
    bee_agent.Prelude.Map.get bee_agent.Prelude.Map.set
registering = refl

Built-created : Built is_id "u-t" created_t
unfolding bee_agent.Thread.thread_schema
Built-created = creation (call_at "ue-1" 1) none thread_t refl refl

Built-started : Built is_id "u-t" started_1
unfolding bee_agent.Thread.turn_schema
Built-started = starting (call_at "ue-2" 2) none turn_1 refl refl

append_thread_events-read_thread_events_example :
    (stored : List (StoredEvent ThreadBody)) × (db' : Db ThreadBody) × (append_thread_events
        registered new_db "u-t"
        (created_t ∷ started_1 ∷ [])
        2
      ≡ ok (stored, db'))
    × (read_thread_events is_id db' "u-t" (record {
      after = some (get_latest_sequence new_db (thread_stream_id "u-t"));
      limit = none;
    })
        ≡ ok (record {
          events =
              wires "u-t"
                (get_latest_sequence new_db (thread_stream_id "u-t") + 1)
                (created_t ∷ started_1 ∷ []);
          has_more = false;
        }))
unfolding bee_agent.Chronicle.envelope_schema thread_created_event bee_agent.Thread.base_event
    bee_agent.Chronicle.new_chronicle_event turn_started_event
append_thread_events-read_thread_events_example =
    append_thread_events-read_thread_events is_id fresh registered new_db "u-t" created_t
      (started_1 ∷ []) 2 registering refl (refl, (refl, tt)) empty-IsChronicle
      (Built-created, (Built-started, tt))

-- Both events are stored.
abbrev log_2 : List (StoredEvent ThreadBody)
log_2 = stamp "thread:u-t" 1 2 (created_t ∷ started_1 ∷ [])

abbrev db_2 : Db ThreadBody
db_2 = record { streams = ("thread:u-t", 2) ∷ []; events = ("thread:u-t", log_2) ∷ [] }

appending :
    append registered new_db "thread:u-t" (created_t ∷ started_1 ∷ []) 1 2 ≡ ok (log_2, db_2)
unfolding append bee_agent.Chronicle.validate_all bee_agent.Chronicle.validate_new
    bee_agent.Prelude.Map.get thread_event_types thread_created_event bee_agent.Thread.base_event
    bee_agent.Chronicle.new_chronicle_event bee_agent.Thread.payload_schema turn_started_event
    bee_agent.Chronicle.append_locked bee_agent.Prelude.Map.set bee_agent.Chronicle.insert_rows
    stamp bee_agent.Chronicle.insert_row bee_agent.Chronicle.last_sequence
    bee_agent.Chronicle.envelope_schema
appending = refl

IsChronicle-2 : IsChronicle db_2
IsChronicle-2 =
    append-IsChronicle registered new_db "thread:u-t" (created_t ∷ started_1 ∷ []) 1 2
      empty-IsChronicle appending

Converts-log :
    Converts is_id (rows db_2 (thread_stream_id "u-t")) (wires "u-t" 1 (created_t ∷ started_1 ∷ []))
unfolding rows bee_agent.Prelude.Map.get thread_stream_id stamp bee_agent.Thread.to_thread_event
    thread_event_types thread_created_event bee_agent.Thread.base_event
    bee_agent.Chronicle.new_chronicle_event bee_agent.Thread.thread_event_schema turn_started_event
Converts-log = (refl, (refl, tt))

follow_all_example :
    follow is_id db_2 "u-t" 1 (suc (length (wires "u-t" 1 (created_t ∷ started_1 ∷ [])))) 0
    ≡ some (wires "u-t" 1 (created_t ∷ started_1 ∷ []))
follow_all_example =
    follow_all is_id db_2 "u-t" 1 (wires "u-t" 1 (created_t ∷ started_1 ∷ [])) IsChronicle-2
      Converts-log (omega arith)

list_thread_summaries-Listed_example : Listed db_2 (list_thread_summaries db_2)
list_thread_summaries-Listed_example = list_thread_summaries-Listed db_2 IsChronicle-2

-- The stream of a thread with an event of another package in it.
abbrev alien : NewEvent ThreadBody
alien = record created_t { event_id = "ue-3"; body = foreign "memory.recorded" }

abbrev open_registry : Registry ThreadBody
open_registry = record registered { types = ("memory.recorded", anything) ∷ registered.types }

abbrev log_3 : List (StoredEvent ThreadBody)
log_3 = stamp "thread:u-t" 1 3 (created_t ∷ alien ∷ [])

abbrev db_3 : Db ThreadBody
db_3 = record { streams = ("thread:u-t", 2) ∷ []; events = ("thread:u-t", log_3) ∷ [] }

appending_3 :
    append open_registry new_db "thread:u-t" (created_t ∷ alien ∷ []) 1 3 ≡ ok (log_3, db_3)
unfolding append bee_agent.Chronicle.validate_all bee_agent.Chronicle.validate_new
    bee_agent.Prelude.Map.get thread_created_event bee_agent.Thread.base_event
    bee_agent.Chronicle.new_chronicle_event thread_event_types bee_agent.Thread.payload_schema
    bee_agent.Chronicle.append_locked bee_agent.Prelude.Map.set bee_agent.Chronicle.insert_rows
    stamp bee_agent.Chronicle.insert_row bee_agent.Chronicle.last_sequence
    bee_agent.Chronicle.envelope_schema
appending_3 = refl

IsChronicle-3 : IsChronicle db_3
IsChronicle-3 =
    append-IsChronicle open_registry new_db "thread:u-t" (created_t ∷ alien ∷ []) 1 3
      empty-IsChronicle appending_3

abbrev first_row : StoredEvent ThreadBody
first_row = record { event = created_t; stream_id = "thread:u-t"; sequence = 1; ingest_time = 3 }

abbrev alien_row : StoredEvent ThreadBody
alien_row = record { event = alien; stream_id = "thread:u-t"; sequence = 2; ingest_time = 3 }

read_thread_events_unknown_example :
    (Room none 2
      → read_thread_events is_id db_3 "u-t" (record { after = none; limit = none })
        ≡ err (unknown_thread_event_type "memory.recorded"))
    × ((n : ℕ)
        → none ≡ some n
        → n ≤ 1
        → read_thread_events is_id db_3 "u-t" (record { after = none; limit = none })
          ≡ ok (record { events = take n (wires "u-t" 1 (created_t ∷ [])); has_more = true }))
unfolding rows bee_agent.Prelude.Map.get thread_stream_id stamp bee_agent.Thread.to_thread_event
    thread_event_types thread_created_event bee_agent.Thread.base_event
    bee_agent.Chronicle.new_chronicle_event bee_agent.Thread.thread_event_schema
read_thread_events_unknown_example =
    read_thread_events_unknown is_id db_3 "u-t" none (first_row ∷ []) [] alien_row
      (wires "u-t" 1 (created_t ∷ [])) refl IsChronicle-3 (refl, tt) refl
