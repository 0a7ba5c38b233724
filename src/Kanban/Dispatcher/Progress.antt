-- ===== src/Kanban/Dispatcher/Progress.antt =====
-- A claim is made where there is one to make.
use bee_agent.Prelude.{
  ℕ, ◌≡◌, refl, inl, inr, true, some, List, [], ◌∷◌, ok, Member, Member-filter, String,
}
use bee_agent.Kanban.Status.{ready, running, can_transition}
use bee_agent.Kanban.Task.{KanbanTask}
use bee_agent.Kanban.Store.{KanbanStore, Env}
use bee_agent.Kanban.Store.Invariant.{IsKanban}
use bee_agent.Kanban.Store.Listing.{list}
use bee_agent.Kanban.Store.Listed.{list-Listed}
use bee_agent.Kanban.Store.Progress.{Fits, Registered, transition-Succeeds}
use bee_agent.Kanban.Dispatcher.{
  KanbanDispatcher, ready_query, ready_tasks, dependencies_satisfied, has_capacity, claim_command,
  claim_first, claim_next,
}
use bee_agent.Kanban.Dispatcher.Ready.{Runnable, matching, Satisfied-every, ready_tasks_first}
use bee_agent.Events.{Call, kanban_task_status_changed_event}
use bee_agent.Kanban.Transition.{transitioned}

ready_tasks-Member :
    (s : KanbanStore) (v : IsKanban s) (now : ℕ) (u : KanbanTask)
    → Runnable s now u
    → Member u (ready_tasks now s)
unfolding ready_tasks dependencies_satisfied
ready_tasks-Member s v now u r =
    elim ((list-Listed s v (ready_query now)).best u.id u r.stored
      (matching now u r.is_ready r.scheduled)) [
        | inl m ↦
            (Member-filter (dependencies_satisfied s) (list (ready_query now) s) u).1
              (m, Satisfied-every s u.dependencies r.dependencies)
        | inr full ↦ cc (full.1)
      ]

ready_to_running : (t : KanbanTask) → t.status ≡ ready → can_transition t.status running ≡ true
unfolding can_transition
ready_to_running t h = rw h

-- The event that claims a task fits the schemas.
abbrev pub ClaimFits : Env → Call → KanbanDispatcher → String → ℕ → KanbanTask → Type 0
ClaimFits env call d worker now task =
    let c = claim_command d worker call.fresh_id now task in
    Fits env
      (kanban_task_status_changed_event call task.status (transitioned call.now task c) c.reason)

module _ (env : Env) (registered : Registered env) (call : Call) (s : KanbanStore) (v : IsKanban s)
    (d : KanbanDispatcher) (worker : String) (now : ℕ)
    (fits : (task : KanbanTask) → Runnable s now task → ClaimFits env call d worker now task) where
  claim_first_succeeds :
      (tasks : List KanbanTask) (u : KanbanTask)
      → ready_tasks now s ≡ tasks
      → Member u tasks
      → (t : KanbanTask) × (s' : KanbanStore) × (claim_first env call d worker now tasks s
          ≡ ok (some t, s'))
  unfolding claim_first
  claim_first_succeeds [] u e m = absurd m
  claim_first_succeeds (task ∷ tasks) u e m =
      let (r, _) = ready_tasks_first s v now task tasks e in
      let (t, s', done) =
        transition-Succeeds env registered call s v task.id
          (claim_command d worker call.fresh_id now task)
          (task, r.stored, refl, ready_to_running task r.is_ready, fits task r) in
      (t, s', rw (claim_first, done))

  -- In a state where projection and log agree, and with a registry that has the kanban
  -- event types with the schemas of their payloads, a worker below its limit gets a task whenever there is one that is ready, due and has its
  -- dependencies satisfied, if for every such task the event that claims it fits the schemas of
  -- its envelope and of its payload.
  pub claim_next_succeeds :
      (u : KanbanTask)
      → Runnable s now u
      → has_capacity d worker s ≡ true
      → (t : KanbanTask) × (s' : KanbanStore) × (claim_next env call d worker now s
          ≡ ok (some t, s'))
  unfolding claim_next
  claim_next_succeeds u r capacity =
      let (t, s', done) =
        claim_first_succeeds (ready_tasks now s) u refl (ready_tasks-Member s v now u r) in
      (t, s', rw (claim_next, capacity) done)
