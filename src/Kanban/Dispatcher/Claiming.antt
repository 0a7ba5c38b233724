-- ===== src/Kanban/Dispatcher/Claiming.antt =====
-- What `claimNext` claims.
use bee_agent.Prelude.{
  ℕ, ◌<◌, String, ◌≡◌, ◌≢◌, refl, ap, subst, ◌∙◌, ◌⊎◌, inl, inr, true, Option, none, some, List, [],
  ◌∷◌, Result, ok, err, ◌>>=◌, arith, ◌==◌, filter, length, Bool-cases,
}
use bee_agent.Errors.{Error}
use bee_agent.Kanban.Task.{KanbanTask}
use bee_agent.Kanban.Transition.{transitioned}
use bee_agent.Kanban.Store.{KanbanStore, Env, transition}
use bee_agent.Kanban.Store.Invariant.{IsKanban, Fresh}
use bee_agent.Kanban.Store.Committed.{Committed}
use bee_agent.Kanban.Store.Operations.{Transitioned, transition-Transitioned}
use bee_agent.Kanban.Store.Listing.{before, list}
use bee_agent.Kanban.Dispatcher.{
  KanbanDispatcher, running_query, ready_tasks, claimed_by, has_capacity, claim_command,
  claim_first, claim_next,
}
use bee_agent.Events.{Call, kanban_task_status_changed_event}
use bee_agent.Kanban.Dispatcher.Ready.{Runnable, ready_tasks_first}

some_ok :
    (r : Result Error (KanbanTask × KanbanStore)) {t : KanbanTask} {s' : KanbanStore}
    → ◌>>=◌ {B = Option KanbanTask × KanbanStore} r (λ x. ok (some x.0, x.1)) ≡ ok (some t, s')
    → r ≡ ok (t, s')
some_ok (err e) h = cc
some_ok (ok (t', s'')) h = cc

module _ (env : Env) (call : Call) (s : KanbanStore) (v : IsKanban s)
    (fresh : Fresh call s.chronicle) (d : KanbanDispatcher) (worker : String) (now : ℕ) where
  -- A claim: the worker was below its limit, and the task, the first of those that may be claimed,
  -- was committed as running under a lease of the worker.
  pub record Claimed (t : KanbanTask) (s' : KanbanStore) : Type 0 where
    pub capacity :
        (d.max_concurrent ≡ 0)
        ⊎ (length (filter (claimed_by worker) (list running_query s)) < d.max_concurrent)
    pub chosen : KanbanTask
    pub runnable : Runnable s now chosen
    pub first : (u : KanbanTask) → Runnable s now u → before chosen u ≡ true
    pub result : t ≡ transitioned call.now chosen (claim_command d worker call.fresh_id now chosen)
    pub committed :
        Committed s
          (kanban_task_status_changed_event call chosen.status
            (transitioned call.now chosen (claim_command d worker call.fresh_id now chosen))
            none)
          t
          s'

  capacity_left :
      has_capacity d worker s ≡ true
      → (d.max_concurrent ≡ 0)
        ⊎ (length (filter (claimed_by worker) (list running_query s)) < d.max_concurrent)
  unfolding has_capacity
  capacity_left h = elim (Bool-cases (d.max_concurrent == 0)) [
    | inl e ↦ inl (ground arith)
    | inr e ↦ inr (ground arith)
  ]

  Transitioned-Claimed :
      (task : KanbanTask) {t : KanbanTask} {s' : KanbanStore}
      → has_capacity d worker s ≡ true
      → Runnable s now task
      → ((u : KanbanTask) → Runnable s now u → before task u ≡ true)
      → Transitioned env call s v fresh task.id (claim_command d worker call.fresh_id now task) t s'
      → Claimed t s'
  Transitioned-Claimed task {t} {s'} c runnable first moved =
      let same : moved.current ≡ task = cc (moved.read, runnable.stored) in
      record {
        capacity = capacity_left c;
        chosen = task;
        runnable = runnable;
        first = first;
        result =
            moved.result
            ∙ ap (λ u. transitioned call.now u (claim_command d worker call.fresh_id now task))
                same;
        committed =
            subst
              (λ u.
                Committed s
                  (kanban_task_status_changed_event call u.status
                    (transitioned call.now u (claim_command d worker call.fresh_id now task)) none)
                  t s')
              same moved.committed;
      }

  claim_first-some :
      (task : KanbanTask) (tasks : List KanbanTask) {t : KanbanTask} {s' : KanbanStore}
      → claim_first env call d worker now (task ∷ tasks) s ≡ ok (some t, s')
      → transition env call task.id (claim_command d worker call.fresh_id now task) s ≡ ok (t, s')
  unfolding claim_first
  claim_first-some task tasks h =
      some_ok (transition env call task.id (claim_command d worker call.fresh_id now task) s) h

  claim_first-none :
      {t : KanbanTask} {s' : KanbanStore} → claim_first env call d worker now [] s ≢ ok (some t, s')
  unfolding claim_first
  claim_first-none h = cc

  claim_task-Claimed :
      (task : KanbanTask) (tasks : List KanbanTask) {t : KanbanTask} {s' : KanbanStore}
      → has_capacity d worker s ≡ true
      → Runnable s now task × ((u : KanbanTask) → Runnable s now u → before task u ≡ true)
      → claim_first env call d worker now (task ∷ tasks) s ≡ ok (some t, s')
      → Claimed t s'
  claim_task-Claimed task tasks c best h = Transitioned-Claimed task c best.0 best.1 (
      transition-Transitioned env call s v fresh task.id
        (claim_command d worker call.fresh_id now task) (claim_first-some task tasks h))

  claim_first-Claimed :
      (tasks : List KanbanTask) {t : KanbanTask} {s' : KanbanStore}
      → has_capacity d worker s ≡ true
      → ready_tasks now s ≡ tasks
      → claim_first env call d worker now tasks s ≡ ok (some t, s')
      → Claimed t s'
  claim_first-Claimed [] c e h = absurd (claim_first-none h)
  claim_first-Claimed (task ∷ tasks) c e h =
      claim_task-Claimed task tasks c (ready_tasks_first s v now task tasks e) h

  -- A claim that returns a task, with a fresh event id and in a state where projection and log
  -- agree, was made below the worker's limit, took the first in order of the stored tasks that are
  -- ready, due and have their dependencies satisfied, and committed it as running under a lease
  -- of the worker that ends after the lease duration.
  pub claim_next-Claimed :
      {t : KanbanTask} {s' : KanbanStore}
      → claim_next env call d worker now s ≡ ok (some t, s')
      → Claimed t s'
  unfolding claim_next
  claim_next-Claimed h = elim (Bool-cases (has_capacity d worker s)) [
    | inl e ↦ claim_first-Claimed (ready_tasks now s) e refl (rw (e, claim_next) at h)
    | inr e ↦ absurd (cc (rw (e, claim_next) at h))
  ]
