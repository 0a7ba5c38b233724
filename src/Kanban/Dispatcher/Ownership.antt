-- ===== src/Kanban/Dispatcher/Ownership.antt =====
-- Who may finish a task.
use bee_agent.Prelude.{ℕ, String, ◌≡◌, ◌≢◌, ◌⊎◌, Option, some, false, ok, err}
use bee_agent.Errors.{lease_lost}
use bee_agent.Kanban.Status.{running}
use bee_agent.Kanban.Task.{KanbanTask, KanbanClaimLease}
use bee_agent.Kanban.Transition.{KanbanTransitionCommand}
use bee_agent.Kanban.Fold.{holds_lease}
use bee_agent.Kanban.Store.{KanbanStore, Env, get, transition}
use bee_agent.Kanban.Store.Invariant.{IsKanban, Fresh}
use bee_agent.Kanban.Store.Guards.{lost_by_transition}
use bee_agent.Kanban.Dispatcher.{owned, complete, fail, block}
use bee_agent.Events.{Call}

owned_lost :
    (id lease_id : String) (s : KanbanStore) (t : KanbanTask)
    → get s id ≡ some t
    → holds_lease t lease_id ≡ false
    → owned id lease_id s ≡ err (lease_lost id lease_id)
unfolding owned
owned_lost id lease_id s t read lost = rw (owned, read, lost)

module _ (env : Env) (call : Call) (s : KanbanStore) (v : IsKanban s)
    (fresh : Fresh call s.chronicle) where
  -- A worker whose lease is gone cannot finish the task: after a transition to another status than
  -- `running`, or one that attaches another lease, made with a fresh event id in a state where
  -- projection and log agree, `complete`, `fail` and `block` under the old lease are refused.
  pub finish_after_transition :
      (call' : Call) (id lease_id : String) (reason : Option String) (now : ℕ)
      (c : KanbanTransitionCommand) {t : KanbanTask} {s' : KanbanStore}
      → transition env call id c s ≡ ok (t, s')
      → (c.to ≢ running)
        ⊎ ((lease : KanbanClaimLease) × (c.claim ≡ some lease) × (lease.lease_id ≢ lease_id))
      → (complete env call' id lease_id now s' ≡ err (lease_lost id lease_id))
        × (fail env call' id lease_id reason now s' ≡ err (lease_lost id lease_id))
        × (block env call' id lease_id reason now s' ≡ err (lease_lost id lease_id))
  unfolding complete fail block
  finish_after_transition call' id lease_id reason now c {t} {s'} h why =
      let (read, lost) = lost_by_transition env call s v fresh id lease_id c h why in
      let gone = owned_lost id lease_id s' t read lost in
      (rw (complete, gone), rw (fail, gone), rw (block, gone))
