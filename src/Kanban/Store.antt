-- ===== src/Kanban/Store.antt =====
-- packages/kanban/src/store.ts: `ChronicleKanbanStore`, a projection over the Chronicle. An error
-- leaves the store as it was, so it carries no state.
pub mod Listing
pub mod Listed
pub mod Invariant
pub mod Commit
pub mod Committed
pub mod Operations
pub mod Edits
pub mod Creation
pub mod History
pub mod Progress
pub mod Guards
pub mod Race
pub mod CommentLog
pub mod Partial
pub mod Rebuild
use bee_agent.Prelude.{
  ℕ, ◌+◌, String, Bool, Option, none, some, List, [], ◌∷◌, ◌++◌, Result, ok, err, guard, require,
  ◌>>=◌, ◌>>◌, or_else, if◌then◌else◌, ◌==◌,
}
use bee_agent.Prelude.Map
use bee_agent.Prelude.Map.{Map}
use bee_agent.Prelude.Text.{has_prefix}
use bee_agent.Errors.{Error, task_not_found, lease_lost, version_conflict}
use bee_agent.Chronicle.{Db, NewEvent, Registry, append, list_streams, read_stream}
use bee_agent.Kanban.Task.{KanbanTask, KanbanPriority, KanbanComment}
use bee_agent.Kanban.Transition.{KanbanTransitionCommand, apply_transition}
use bee_agent.Kanban.Construct.{NewKanbanTaskInit, new_kanban_task, parse_task}
use bee_agent.Kanban.Fold.{holds_lease, renewed, with_comment, fold_stream}
use bee_agent.Events.{
  Body, Call, kanban_stream_id, kanban_task_created_event, kanban_task_status_changed_event,
  kanban_task_lease_renewed_event, kanban_task_updated_event, kanban_task_commented_event,
}

-- What the store is built with: the registry of event types, and zod's uuid test.
pub record Env : Type 0 where
  pub registry : Registry Body
  pub is_uuid : String → Bool

pub record KanbanStore : Type 0 where
  pub chronicle : Db Body
  pub tasks : Map KanbanTask
  pub idempotency : Map String

abbrev pub opened : Db Body → KanbanStore
opened db = record { chronicle = db; tasks = []; idempotency = [] }

unfoldable pub get : KanbanStore → String → Option KanbanTask
get s task_id = Map.get task_id s.tasks

-- `#index`
remember : Option String → String → Map String → Map String
remember none id m = m
remember (some key) id m = Map.set key id m

unfoldable pub index : KanbanTask → KanbanStore → KanbanStore
unfolding remember
index task s = record s {
  tasks = Map.set task.id task s.tasks;
  idempotency = remember task.idempotency_key task.id s.idempotency;
}

-- `#commit`, for the one event that each operation writes
unfoldable pub commit :
    Env
    → Call
    → String
    → NewEvent Body
    → ℕ
    → KanbanTask
    → KanbanStore
    → Result Error (KanbanTask × KanbanStore)
unfolding index
commit env call task_id event expected next s = do
  written ←
      append env.registry s.chronicle (kanban_stream_id task_id) (event ∷ []) expected call.now
  ok (next, index next (record s { chronicle = written.1 }))

-- The task that `create` returns for a key it has seen.
unfoldable pub existing : KanbanStore → Option String → Option KanbanTask
unfolding get
existing s none = none
existing s (some key) = elim (Map.get key s.idempotency) [ none ↦ none | some id ↦ get s id ]

unfoldable pub create :
    Env → Call → NewKanbanTaskInit → KanbanStore → Result Error (KanbanTask × KanbanStore)
unfolding existing commit
create env call init s = elim (existing s init.idempotency_key) [
  | some task ↦ ok (task, s)
  | none ↦ do
    task ← new_kanban_task env.is_uuid call.fresh_id call.now init
    commit env call task.id (kanban_task_created_event call task) 1 task s
]

unfoldable pub transition :
    Env
    → Call
    → String
    → KanbanTransitionCommand
    → KanbanStore
    → Result Error (KanbanTask × KanbanStore)
unfolding get commit
transition env call task_id command s = do
  current ← require (get s task_id) (task_not_found task_id)
  next ← apply_transition call.now current command
  commit env call task_id (kanban_task_status_changed_event call current.status next command.reason)
      (command.expected_version + 1) next s

unfoldable pub renew_lease :
    Env
    → Call
    → String
    → (lease_id : String) → (expires_at : ℕ) → KanbanStore
    → Result Error (KanbanTask × KanbanStore)
unfolding get commit
renew_lease env call task_id lease_id expires_at s = do
  current ← require (get s task_id) (task_not_found task_id)
  guard (holds_lease current lease_id) (lease_lost task_id lease_id)
  commit env call task_id (kanban_task_lease_renewed_event call task_id lease_id expires_at)
      (current.version + 1) (renewed current expires_at) s

pub record KanbanTaskUpdate : Type 0 where
  pub expected_version : ℕ
  pub at : Option ℕ
  pub title : Option String
  pub goal : Option String
  pub acceptance_criteria : Option (List String)
  pub priority : Option KanbanPriority
  pub labels : Option (List String)
  pub deadline : Option ℕ
  pub scheduled_at : Option ℕ

-- `patch.x !== undefined ? { x: patch.x } : {}` over an optional field
given {ℓ} : {A : Type ℓ} → Option A → Option A → Option A
given none old = old
given (some a) old = some a

-- The object that `update` parses.
unfoldable pub patched : ℕ → KanbanTask → KanbanTaskUpdate → KanbanTask
unfolding given
patched clock current patch = record current {
  title = or_else patch.title current.title;
  goal = given patch.goal current.goal;
  acceptance_criteria = or_else patch.acceptance_criteria current.acceptance_criteria;
  priority = or_else patch.priority current.priority;
  labels = or_else patch.labels current.labels;
  deadline = given patch.deadline current.deadline;
  scheduled_at = given patch.scheduled_at current.scheduled_at;
  version = current.version + 1;
  updated_at = or_else patch.at clock;
}

unfoldable pub update :
    Env → Call → String → KanbanTaskUpdate → KanbanStore → Result Error (KanbanTask × KanbanStore)
unfolding get commit patched
update env call task_id patch s = do
  current ← require (get s task_id) (task_not_found task_id)
  guard (patch.expected_version == current.version)
      (version_conflict task_id patch.expected_version current.version)
  next ← parse_task env.is_uuid (patched call.now current patch)
  commit env call task_id (kanban_task_updated_event call next) (current.version + 1) next s

unfoldable pub new_comment : Call → String → String → Option ℕ → KanbanComment
new_comment call author body at = record {
  id = call.fresh_id;
  author = author;
  body = body;
  at = or_else at call.now;
}

-- `comment`: beside what `foldTask` does, it moves `updatedAt`.
unfoldable pub comment :
    Env
    → Call
    → String
    → (author body : String) → (at : Option ℕ) → KanbanStore
    → Result Error (KanbanTask × KanbanStore)
unfolding get commit new_comment with_comment
comment env call task_id author body at s = do
  current ← require (get s task_id) (task_not_found task_id)
  let note = new_comment call author body at
  let next = record (with_comment current note) { updated_at = note.at }
  commit env call task_id (kanban_task_commented_event call task_id note) (current.version + 1) next
      s

-- The body of the loop of `rebuild` on one stream.
rebuild_stream : Db Body → String → KanbanStore → Result Error KanbanStore
unfolding fold_stream index
rebuild_stream db stream s =
    if has_prefix stream "kanban:"
    then (do
      task ← fold_stream none (read_stream db stream 0)
      ok (elim task [ none ↦ s | some t ↦ index t s ]))
    else ok s

unfoldable pub rebuild_streams : Db Body → List String → KanbanStore → Result Error KanbanStore
unfolding rebuild_stream
rebuild_streams db [] s = ok s
rebuild_streams db (stream ∷ streams) s = do
  s' ← rebuild_stream db stream s
  rebuild_streams db streams s'

unfoldable pub rebuild : Db Body → Result Error KanbanStore
unfolding rebuild_streams
rebuild db = rebuild_streams db (list_streams db) (opened db)
