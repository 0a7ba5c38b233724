-- ===== src/Kanban/Store/History.antt =====
-- Every history of operations keeps the invariant, and versions guard against lost updates.
use bee_agent.Prelude.{
  ℕ, String, ◌≡◌, ◌≢◌, refl, sym, subst, inl, inr, Option, none, some, ok, Result, Option-cases,
}
use bee_agent.Errors.{Error}
use bee_agent.Prelude.Map
use bee_agent.Chronicle.{NewEvent, empty, rows, get_latest_sequence}
use bee_agent.Kanban.Task.{KanbanTask}
use bee_agent.Kanban.Construct.{NewKanbanTaskInit}
use bee_agent.Kanban.Transition.{KanbanTransitionCommand}
use bee_agent.Kanban.Store.{
  KanbanStore, Env, KanbanTaskUpdate, opened, get, existing, create, transition, renew_lease,
  update, comment,
}
use bee_agent.Kanban.Store.Invariant.{IsKanban, Fresh}
use bee_agent.Kanban.Store.Committed.{Committed}
use bee_agent.Kanban.Store.Operations.{get-named, transition-Transitioned, renew_lease-Renewed}
use bee_agent.Kanban.Store.Edits.{update-Updated, comment-Commented}
use bee_agent.Kanban.Store.Creation.{Created, repeated, made, create-Created}
use bee_agent.Events.{Body, Call}

-- The operations of `KanbanStore` that write.
pub data Operation : Type 0 where
  creates : NewKanbanTaskInit → Operation
  transitions : String → KanbanTransitionCommand → Operation
  -- task, lease, new deadline
  renews : String → String → ℕ → Operation
  updates : String → KanbanTaskUpdate → Operation
  -- task, author, body, instant
  comments : String → String → String → Option ℕ → Operation

unfoldable pub perform :
    Env → Call → Operation → KanbanStore → Result Error (KanbanTask × KanbanStore)
perform env call (creates init) s = create env call init s
perform env call (transitions id c) s = transition env call id c s
perform env call (renews id lease_id expires_at) s = renew_lease env call id lease_id expires_at s
perform env call (updates id patch) s = update env call id patch s
perform env call (comments id author body at) s = comment env call id author body at s

-- What a successful operation owes its caller.
pub record Performed (s : KanbanStore) (t : KanbanTask) (s' : KanbanStore) : Type 0 where
  -- the projection and the log agree again
  pub kept : IsKanban s'
  -- the task that was returned is the one that is read
  pub here : get s' t.id ≡ some t
  -- no other task changed
  pub others : (id : String) → t.id ≢ id → get s' id ≡ get s id

Committed-Performed :
    {s : KanbanStore} {event : NewEvent Body} {t : KanbanTask} {s' : KanbanStore}
    → Committed s event t s'
    → Performed s t s'
Committed-Performed c = record { kept = c.kept; here = c.here; others = c.others }

-- The task that a known key names is read under its id.
existing-get :
    (s : KanbanStore) (v : IsKanban s) (o : Option String) (t : KanbanTask)
    → existing s o ≡ some t
    → get s t.id ≡ some t
unfolding existing
existing-get s v none t h = cc
existing-get s v (some key) t h = elim (Option-cases (Map.get key s.idempotency)) [
  | inl e ↦ absurd (cc (rw (e, existing) at h))
  | inr (id, e) ↦
      let read : get s id ≡ some t = rw (e, existing) at h in
      subst (λ i. get s i ≡ some t) (sym (get-named s v id t read).named) read
]

module _ (env : Env) (call : Call) (s : KanbanStore) (v : IsKanban s)
    (fresh : Fresh call s.chronicle) where
  Created-Performed :
      (init : NewKanbanTaskInit) {t : KanbanTask} {s' : KanbanStore}
      → Created env call s v fresh init t s'
      → Performed s t s'
  Created-Performed init {t} {s'} (repeated known same) = subst (Performed s t) (sym same) (record {
    kept = v;
    here = existing-get s v init.idempotency_key t known;
    others = λ id _. refl;
  })
  Created-Performed init (made _ _ _ _ done) = Committed-Performed done

  -- Every operation that succeeds keeps the projection in agreement with the log, returns the
  -- task that is then read under its id, and leaves every other task as it was.
  pub perform-Performed :
      (op : Operation) {t : KanbanTask} {s' : KanbanStore}
      → perform env call op s ≡ ok (t, s')
      → Performed s t s'
  unfolding perform
  perform-Performed (creates init) h =
      Created-Performed init (create-Created env call s v fresh init h)
  perform-Performed (transitions id c) h =
      Committed-Performed (transition-Transitioned env call s v fresh id c h).committed
  perform-Performed (renews id lease_id expires_at) h =
      Committed-Performed
        (renew_lease-Renewed env call s v fresh id lease_id expires_at h).committed
  perform-Performed (updates id patch) h =
      Committed-Performed (update-Updated env call s v fresh id patch h).committed
  perform-Performed (comments id author body at) h =
      Committed-Performed (comment-Commented env call s v fresh id author body at h).committed

-- The states of a store that was opened on an empty database and has performed operations, each
-- with a fresh event id; an operation that fails changes nothing.
pub data Reach (env : Env) : KanbanStore → Type 0 where
  start : Reach env (opened empty)
  next :
      {s s' : KanbanStore}
      → Reach env s
      → (call : Call) → (op : Operation) → {t : KanbanTask} → Fresh call s.chronicle
      → perform env call op s ≡ ok (t, s')
      → Reach env s'

empty-IsKanban : IsKanban (opened empty)
unfolding get rows get_latest_sequence Map.get
empty-IsKanban = record {
  chronicle = record { numbered = λ _. tt; counted = λ _. refl };
  tasks = λ _. refl;
  distinct = tt;
  keyed = λ id key t e k. cc;
  known = λ id key e. cc;
}

-- After any history of operations the projection agrees with the log.
pub Reach-IsKanban : (env : Env) (s : KanbanStore) → Reach env s → IsKanban s
Reach-IsKanban env _ start = empty-IsKanban
Reach-IsKanban env _ (next {s} r call op fresh h) =
    (perform-Performed env call s (Reach-IsKanban env s r) fresh op h).kept
