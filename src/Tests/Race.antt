-- ===== src/Tests/Race.antt =====
-- Two overlapping calls of `create` with one key.
use bee_agent.Prelude.{String, ◌≡◌, refl, some, ok, [], ◌∷◌}
use bee_agent.Chronicle.{StoredEvent, empty}
use bee_agent.Kanban.Task.{KanbanTask}
use bee_agent.Kanban.Store.{KanbanStore, create, get, opened}
use bee_agent.Kanban.Store.Race.{finish_create, create_race}
use bee_agent.Events.{Body, Call, kanban_task_created_event}
use bee_agent.Tests.Fixtures.{env, call_at, blank_init, task_1, row_1, store_1, differ}

abbrev second : Call
second = record { event_id = "ue-2"; fresh_id = "u-2"; now = 2 }

abbrev twin : KanbanTask
twin = record task_1 { id = "u-2"; created_at = 2; updated_at = 2 }

abbrev twin_row : StoredEvent Body
twin_row = record {
  event = kanban_task_created_event second twin;
  stream_id = "kanban:u-2";
  sequence = 1;
  ingest_time = 2;
}

abbrev store_twins : KanbanStore
store_twins = record {
  chronicle = record {
    streams = ("kanban:u-1", 1) ∷ ("kanban:u-2", 1) ∷ [];
    events = ("kanban:u-1", row_1 ∷ []) ∷ ("kanban:u-2", twin_row ∷ []) ∷ [];
  };
  tasks = ("u-1", task_1) ∷ ("u-2", twin) ∷ [];
  idempotency = ("key", "u-2") ∷ [];
}

first_finishes :
    finish_create env (call_at "ue-1" 1) blank_init (opened empty) ≡ ok (task_1, store_1)
unfolding finish_create bee_agent.Kanban.Construct.new_kanban_task bee_agent.Kanban.Task.task_schema
    bee_agent.Kanban.Store.commit bee_agent.Chronicle.append bee_agent.Chronicle.validate_all
    bee_agent.Chronicle.validate_new bee_agent.Prelude.Map.get
    bee_agent.Chronicle.new_chronicle_event bee_agent.Chronicle.append_locked
    bee_agent.Prelude.Map.set bee_agent.Events.kanban_stream_id bee_agent.Chronicle.insert_rows
    bee_agent.Chronicle.stamp bee_agent.Chronicle.insert_row bee_agent.Chronicle.last_sequence
    bee_agent.Chronicle.envelope_schema bee_agent.Events.kanban_payload_schema
first_finishes = refl

second_finishes : finish_create env second blank_init store_1 ≡ ok (twin, store_twins)
unfolding finish_create bee_agent.Kanban.Construct.new_kanban_task bee_agent.Kanban.Task.task_schema
    bee_agent.Kanban.Store.commit bee_agent.Chronicle.append bee_agent.Chronicle.validate_all
    bee_agent.Chronicle.validate_new bee_agent.Prelude.Map.get
    bee_agent.Chronicle.new_chronicle_event bee_agent.Chronicle.append_locked
    bee_agent.Events.kanban_stream_id bee_agent.Prelude.Map.set bee_agent.Chronicle.insert_rows
    bee_agent.Chronicle.stamp bee_agent.Chronicle.insert_row bee_agent.Chronicle.last_sequence
    bee_agent.Chronicle.envelope_schema bee_agent.Events.kanban_payload_schema
second_finishes = refl

create_race_example :
    (create env (call_at "ue-1" 1) blank_init (opened empty) ≡ ok (task_1, store_1))
    × (get store_twins "u-1" ≡ some task_1)
    × (task_1.idempotency_key ≡ some "key")
    × (get store_twins "u-2" ≡ some twin)
    × (twin.idempotency_key ≡ some "key")
unfolding bee_agent.Kanban.Store.existing bee_agent.Prelude.Map.get
create_race_example =
    create_race env (call_at "ue-1" 1) second blank_init "key" (opened empty) refl refl
      first_finishes second_finishes (differ "u-2" "u-1" refl)
