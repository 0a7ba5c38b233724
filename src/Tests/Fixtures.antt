-- ===== src/Tests/Fixtures.antt =====
-- A registry of the kanban events, two tasks and a store that has performed operations on them.
use bee_agent.Prelude.{
  ℕ, String, Bool, ◌≡◌, refl, ◌≢◌, true, false, Option, none, some, List, [], ◌∷◌, ok, All, str_eq,
  str_eq_iff, Bool-cases, inl, inr,
}
use bee_agent.Prelude.Map
use bee_agent.Prelude.Text.{has_prefix}
use bee_agent.Chronicle.{Db, StoredEvent, Registration, Registry, empty, rows}
use bee_agent.Kanban.Status.{KanbanTaskStatus, inbox, triaged, ready, running}
use bee_agent.Kanban.Task.{KanbanTask, KanbanPriority, KanbanClaimLease}
use bee_agent.Kanban.Construct.{NewKanbanTaskInit}
use bee_agent.Kanban.Transition.{KanbanTransitionCommand}
use bee_agent.Kanban.Store.{Env, KanbanStore, KanbanTaskUpdate, opened, transition}
use bee_agent.Kanban.Store.Invariant.{IsKanban, Fresh}
use bee_agent.Kanban.Store.History.{
  creates, transitions, perform, Reach, start, next, Reach-IsKanban,
}
use bee_agent.Kanban.Store.Progress.{Registered}
use bee_agent.Events.{
  Body, Call, type_of, kanban_payload_schema, register_kanban_chronicle_events,
  kanban_task_created_event, kanban_task_status_changed_event, task_created, task_status_changed,
  task_lease_renewed, task_updated, task_commented, trigger_registered, trigger_triggered,
  trigger_removed, other,
}

abbrev pub anything : Registration Body
anything = record { payload = λ _. true; ignorable = false }

-- A uuid here is a text that starts with "u".
abbrev is_uuid : String → Bool
is_uuid t = has_prefix t "u"

abbrev kanban_entry : Registration Body
kanban_entry = record { payload = kanban_payload_schema is_uuid; ignorable = false }

abbrev pub kanban_registry : Registry Body
kanban_registry = record {
  type_of = type_of;
  is_uuid = is_uuid;
  types =
      ("kanban.task.created", kanban_entry)
      ∷ ("kanban.task.status_changed", kanban_entry)
      ∷ ("kanban.task.lease_renewed", kanban_entry)
      ∷ ("kanban.task.updated", kanban_entry)
      ∷ ("kanban.task.commented", kanban_entry)
      ∷ [];
}

registering :
    register_kanban_chronicle_events is_uuid
      (record { type_of = type_of; is_uuid = is_uuid; types = [] })
    ≡ ok kanban_registry
unfolding register_kanban_chronicle_events bee_agent.Chronicle.register Map.get Map.set
registering = refl

abbrev pub env : Env
env = record { registry = kanban_registry; is_uuid = is_uuid }

abbrev pub call_at : String → ℕ → Call
call_at id now = record { event_id = id; fresh_id = "u-1"; now = now }

abbrev pub blank_init : NewKanbanTaskInit
blank_init = record {
  title = "write the report";
  priority = none;
  goal = none;
  acceptance_criteria = none;
  labels = none;
  dependencies = none;
  source = none;
  workspace = none;
  required_capabilities = none;
  budget = none;
  scheduled_at = none;
  deadline = none;
  idempotency_key = some "key";
  id = none;
  now = none;
}

abbrev pub move_to : KanbanTaskStatus → ℕ → KanbanTransitionCommand
move_to to version = record {
  to = to;
  expected_version = version;
  reason = none;
  at = none;
  claim = none;
}

abbrev pub rename_at : ℕ → KanbanTaskUpdate
rename_at version = record {
  expected_version = version;
  at = none;
  title = some "write a short report";
  goal = none;
  acceptance_criteria = none;
  priority = none;
  labels = none;
  deadline = none;
  scheduled_at = none;
}

abbrev pub lease_of : String → KanbanClaimLease
lease_of id = record { claimant = "worker"; lease_id = id; claimed_at = 5; expires_at = 50 }

-- One stream whose rows avoid the id of the call.
pub fresh_one :
    (call : Call) (streams : Map.Map ℕ) (k : String) (l : List (StoredEvent Body))
    → All (λ row. row.event_id ≢ call.event_id) l
    → Fresh call (record { streams = streams; events = (k, l) ∷ [] })
unfolding rows Map.get
fresh_one call streams k l h stream = elim (Bool-cases (str_eq k stream)) [
  | inl e ↦ rw e h
  | inr e ↦ rw e tt
]

abbrev pub task_1 : KanbanTask
task_1 = record {
  id = "u-1";
  title = "write the report";
  goal = none;
  acceptance_criteria = [];
  priority = KanbanPriority.medium;
  labels = [];
  dependencies = [];
  source = none;
  workspace = none;
  required_capabilities = [];
  budget = none;
  scheduled_at = none;
  deadline = none;
  idempotency_key = some "key";
  status = inbox;
  claim = none;
  artifact_refs = [];
  trajectory_refs = [];
  comments = [];
  version = 1;
  created_at = 1;
  updated_at = 1;
  ended_at = none;
}

abbrev pub row_1 : StoredEvent Body
row_1 = record {
  event = kanban_task_created_event (call_at "ue-1" 1) task_1;
  stream_id = "kanban:u-1";
  sequence = 1;
  ingest_time = 1;
}

abbrev pub store_1 : KanbanStore
store_1 = record {
  chronicle = record { streams = ("kanban:u-1", 1) ∷ []; events = ("kanban:u-1", row_1 ∷ []) ∷ [] };
  tasks = ("u-1", task_1) ∷ [];
  idempotency = ("key", "u-1") ∷ [];
}

pub creating :
    perform env (call_at "ue-1" 1) (creates blank_init) (opened empty) ≡ ok (task_1, store_1)
unfolding perform bee_agent.Kanban.Store.create Map.get bee_agent.Kanban.Construct.new_kanban_task
    bee_agent.Kanban.Task.task_schema bee_agent.Chronicle.append bee_agent.Chronicle.validate_all
    bee_agent.Chronicle.validate_new bee_agent.Chronicle.new_chronicle_event
    bee_agent.Chronicle.append_locked Map.set bee_agent.Events.kanban_stream_id
    bee_agent.Chronicle.insert_rows bee_agent.Chronicle.stamp bee_agent.Chronicle.insert_row
    bee_agent.Chronicle.last_sequence bee_agent.Chronicle.envelope_schema kanban_payload_schema
creating = refl

-- The task moves on: triaged, ready, running under the lease `u-7`.
abbrev moved : KanbanTaskStatus → Option KanbanClaimLease → (version now : ℕ) → KanbanTask
moved status claim version now = record task_1 {
  status = status;
  claim = claim;
  version = version;
  updated_at = now;
}

abbrev moved_row : String → KanbanTaskStatus → KanbanTask → StoredEvent Body
moved_row id from t = record {
  event = kanban_task_status_changed_event (call_at id t.updated_at) from t none;
  stream_id = "kanban:u-1";
  sequence = t.version;
  ingest_time = t.updated_at;
}

abbrev pub store_with : KanbanTask → List (StoredEvent Body) → KanbanStore
store_with t log = record {
  chronicle = record {
    streams = ("kanban:u-1", t.version) ∷ [];
    events = ("kanban:u-1", log) ∷ [];
  };
  tasks = ("u-1", t) ∷ [];
  idempotency = ("key", "u-1") ∷ [];
}

abbrev pub task_2 : KanbanTask
task_2 = moved triaged none 2 2

abbrev pub row_2 : StoredEvent Body
row_2 = moved_row "ue-2" inbox task_2

abbrev pub store_2 : KanbanStore
store_2 = store_with task_2 (row_1 ∷ row_2 ∷ [])

abbrev pub task_3 : KanbanTask
task_3 = moved ready none 3 3

abbrev pub row_3 : StoredEvent Body
row_3 = moved_row "ue-3" triaged task_3

abbrev pub store_3 : KanbanStore
store_3 = store_with task_3 (row_1 ∷ row_2 ∷ row_3 ∷ [])

abbrev pub claim_it : KanbanTransitionCommand
claim_it = record (move_to running 3) { claim = some (lease_of "u-7") }

abbrev pub task_4 : KanbanTask
task_4 = moved running (some (lease_of "u-7")) 4 5

abbrev pub row_4 : StoredEvent Body
row_4 = moved_row "ue-4" ready task_4

abbrev pub store_4 : KanbanStore
store_4 = store_with task_4 (row_1 ∷ row_2 ∷ row_3 ∷ row_4 ∷ [])

pub triaging :
    transition env (call_at "ue-2" 2) "u-1" (move_to triaged 1) store_1 ≡ ok (task_2, store_2)
unfolding transition Map.get bee_agent.Kanban.Transition.apply_transition
    bee_agent.Kanban.Status.can_transition bee_agent.Chronicle.append
    bee_agent.Chronicle.validate_all bee_agent.Chronicle.validate_new
    bee_agent.Chronicle.new_chronicle_event bee_agent.Chronicle.append_locked
    bee_agent.Events.kanban_stream_id bee_agent.Chronicle.insert_rows bee_agent.Chronicle.stamp
    bee_agent.Chronicle.insert_row bee_agent.Kanban.Status.is_terminal Map.set
    bee_agent.Chronicle.last_sequence bee_agent.Chronicle.envelope_schema kanban_payload_schema
    bee_agent.Kanban.Task.task_schema
triaging = refl

pub readying :
    transition env (call_at "ue-3" 3) "u-1" (move_to ready 2) store_2 ≡ ok (task_3, store_3)
unfolding transition Map.get bee_agent.Kanban.Transition.apply_transition
    bee_agent.Kanban.Status.can_transition bee_agent.Chronicle.append
    bee_agent.Chronicle.validate_all bee_agent.Chronicle.validate_new
    bee_agent.Chronicle.new_chronicle_event bee_agent.Chronicle.append_locked
    bee_agent.Events.kanban_stream_id bee_agent.Chronicle.insert_rows bee_agent.Chronicle.stamp
    bee_agent.Chronicle.insert_row bee_agent.Kanban.Status.is_terminal Map.set
    bee_agent.Chronicle.last_sequence bee_agent.Chronicle.envelope_schema kanban_payload_schema
    bee_agent.Kanban.Task.task_schema
readying = refl

pub claiming : transition env (call_at "ue-4" 5) "u-1" claim_it store_3 ≡ ok (task_4, store_4)
unfolding transition Map.get bee_agent.Kanban.Transition.apply_transition
    bee_agent.Kanban.Status.can_transition bee_agent.Chronicle.append
    bee_agent.Chronicle.validate_all bee_agent.Chronicle.validate_new
    bee_agent.Chronicle.new_chronicle_event bee_agent.Chronicle.append_locked
    bee_agent.Events.kanban_stream_id bee_agent.Chronicle.insert_rows bee_agent.Chronicle.stamp
    bee_agent.Chronicle.insert_row bee_agent.Kanban.Status.is_terminal Map.set
    bee_agent.Chronicle.last_sequence bee_agent.Chronicle.envelope_schema kanban_payload_schema
    bee_agent.Kanban.Task.task_schema
claiming = refl

pub differ : (a b : String) → str_eq a b ≡ false → a ≢ b
differ a b e h = cc (e, (str_eq_iff a b).1 h)

-- The event ids of the next calls are fresh.
pub fresh_1 : (now : ℕ) → Fresh (call_at "ue-2" now) store_1.chronicle
unfolding bee_agent.Chronicle.new_chronicle_event
fresh_1 now = fresh_one (call_at "ue-2" now) _ "kanban:u-1" _ (differ "ue-1" "ue-2" refl, tt)

pub fresh_2 : (now : ℕ) → Fresh (call_at "ue-3" now) store_2.chronicle
unfolding bee_agent.Chronicle.new_chronicle_event
fresh_2 now =
    fresh_one (call_at "ue-3" now) _ "kanban:u-1" _
      (differ "ue-1" "ue-3" refl, (differ "ue-2" "ue-3" refl, tt))

pub fresh_3 : (now : ℕ) → Fresh (call_at "ue-4" now) store_3.chronicle
unfolding bee_agent.Chronicle.new_chronicle_event
fresh_3 now =
    fresh_one (call_at "ue-4" now) _ "kanban:u-1" _
      (differ "ue-1" "ue-4" refl, (differ "ue-2" "ue-4" refl, (differ "ue-3" "ue-4" refl, tt)))

pub fresh_4 : (now : ℕ) → Fresh (call_at "ue-5" now) store_4.chronicle
unfolding bee_agent.Chronicle.new_chronicle_event
fresh_4 now = fresh_one (call_at "ue-5" now) _ "kanban:u-1" _ (
  differ "ue-1" "ue-5" refl,
  (differ "ue-2" "ue-5" refl, (differ "ue-3" "ue-5" refl, (differ "ue-4" "ue-5" refl, tt))),
)

-- Every one of these stores is the end of a history.
pub Reach-1 : Reach env store_1
unfolding rows Map.get
Reach-1 = next start (call_at "ue-1" 1) (creates blank_init) (λ _. tt) creating

pub Reach-2 : Reach env store_2
unfolding perform
Reach-2 =
    next Reach-1 (call_at "ue-2" 2) (transitions "u-1" (move_to triaged 1)) (fresh_1 2) triaging

pub Reach-3 : Reach env store_3
unfolding perform
Reach-3 = next Reach-2 (call_at "ue-3" 3) (transitions "u-1" (move_to ready 2)) (fresh_2 3) readying

pub Reach-4 : Reach env store_4
unfolding perform
Reach-4 = next Reach-3 (call_at "ue-4" 5) (transitions "u-1" claim_it) (fresh_3 5) claiming

pub kanban_1 : IsKanban store_1
kanban_1 = Reach-IsKanban env store_1 Reach-1

pub kanban_3 : IsKanban store_3
kanban_3 = Reach-IsKanban env store_3 Reach-3

pub kanban_4 : IsKanban store_4
kanban_4 = Reach-IsKanban env store_4 Reach-4

pub kanban_2 : IsKanban store_2
kanban_2 = Reach-IsKanban env store_2 Reach-2

pub Registered-env : Registered env
unfolding kanban_payload_schema Map.get
Registered-env = record { types = refl; same_uuid = refl; entries = by_body }
  where
    by_body :
        (b : Body)
        → kanban_payload_schema is_uuid b ≡ true
        → Map.get (type_of b) kanban_registry.types ≡ some kanban_entry
    by_body (task_created _) h = refl
    by_body (task_status_changed _ _ _ _) h = refl
    by_body (task_lease_renewed _ _) h = refl
    by_body (task_updated _) h = refl
    by_body (task_commented _) h = refl
    by_body (trigger_registered _) h = absurd (cc h)
    by_body (trigger_triggered _) h = absurd (cc h)
    by_body (trigger_removed _ _) h = absurd (cc h)
    by_body (other _) h = absurd (cc h)
