-- ===== src/Kanban/Store/Race.antt =====
-- Two overlapping `create` calls with one key: `create` looks the key up, then waits for the log
-- before it indexes the key.
use bee_agent.Prelude.{
  String, ◌≡◌, ◌≢◌, ap, ◌∙◌, some, none, ok, Result, ◌>>=◌, >>=-eq-ok, str_eq_iff, str_eq_refl,
  arith,
}
use bee_agent.Errors.{Error}
use bee_agent.Kanban.Task.{KanbanTask}
use bee_agent.Kanban.Construct.{NewKanbanTaskInit, new_kanban_task, drafted}
use bee_agent.Kanban.Store.{KanbanStore, Env, get, existing, create, commit}
use bee_agent.Kanban.Store.Commit.{commit-get}
use bee_agent.Kanban.Store.Creation.{new_kanban_task-eq-ok}
use bee_agent.Events.{Call, kanban_task_created_event}

-- `create` after the lookup found nothing.
unfoldable pub finish_create :
    Env → Call → NewKanbanTaskInit → KanbanStore → Result Error (KanbanTask × KanbanStore)
finish_create env call init s = do
  task ← new_kanban_task env.is_uuid call.fresh_id call.now init
  commit env call task.id (kanban_task_created_event call task) 1 task s

create-finish_create :
    (env : Env) (call : Call) (init : NewKanbanTaskInit) (s : KanbanStore)
    → existing s init.idempotency_key ≡ none
    → create env call init s ≡ finish_create env call init s
unfolding create finish_create
create-finish_create env call init s absent = rw (create, absent)

-- What a finished `create` leaves.
record Finished (call : Call) (init : NewKanbanTaskInit) (s : KanbanStore) (t : KanbanTask)
    (s' : KanbanStore) : Type 0 where
  key : t.idempotency_key ≡ init.idempotency_key
  here : get s' t.id ≡ some t
  others : (id : String) → t.id ≢ id → get s' id ≡ get s id

finish_create-Finished :
    (env : Env) (call : Call) (init : NewKanbanTaskInit) (s : KanbanStore) {t : KanbanTask}
    {s' : KanbanStore}
    → finish_create env call init s ≡ ok (t, s')
    → Finished call init s t s'
unfolding finish_create drafted
finish_create-Finished env call init s {t} {s'} h =
    let (task, made, committing) =
      >>=-eq-ok (new_kanban_task env.is_uuid call.fresh_id call.now init) _ h in
    let (same, _) = new_kanban_task-eq-ok env.is_uuid call.fresh_id call.now init made in
    let (result, reads) =
      commit-get env call task.id (kanban_task_created_event call task) 1 task s committing in
    record {
      key = ap (λ (u : KanbanTask). u.idempotency_key) (result ∙ same);
      here = reads t.id ∙ rw (result, str_eq_refl task.id);
      others = λ id apart.
          reads id ∙ ground (arith, str_eq_iff task.id id, ap (λ (u : KanbanTask). u.id) result);
    }

-- If the key is not known when both calls look it up, and both finish, one after the other, with
-- tasks of different ids, the first does what `create` does, and the store ends with two tasks of
-- that key.
pub create_race :
    (env : Env) (call call' : Call) (init : NewKanbanTaskInit) (key : String) (s : KanbanStore)
    {a b : KanbanTask} {s' s'' : KanbanStore}
    → init.idempotency_key ≡ some key
    → existing s init.idempotency_key ≡ none
    → finish_create env call init s ≡ ok (a, s')
    → finish_create env call' init s' ≡ ok (b, s'')
    → b.id ≢ a.id
    → (create env call init s ≡ ok (a, s'))
      × (get s'' a.id ≡ some a)
      × (a.idempotency_key ≡ some key)
      × (get s'' b.id ≡ some b)
      × (b.idempotency_key ≡ some key)
create_race env call call' init key s {s' = s'} k absent h h' apart =
    let first = finish_create-Finished env call init s h in
    let second = finish_create-Finished env call' init s' h' in
    (
      create-finish_create env call init s absent ∙ h,
      second.others _ apart ∙ first.here,
      first.key ∙ k,
      second.here,
      second.key ∙ k,
    )
