-- ===== src/Kanban/Dispatcher/Ready.antt =====
-- The tasks that may be claimed, and the first of them.
use bee_agent.Prelude.{
  ℕ, ◌≡◌, refl, sym, ◌⊎◌, inl, inr, true, some, List, [], ◌∷◌, arith, or_else, All, Option-cases,
  every,
}
use bee_agent.Prelude.Sort.{filter_first}
use bee_agent.Prelude.Comparing.{at_most_total}
use bee_agent.Kanban.Status.{ready, done, includes, status_eq_iff}
use bee_agent.Kanban.Task.{KanbanTask, KanbanDependency, KanbanDependencyKind, blocks, related}
use bee_agent.Kanban.Store.{KanbanStore, get}
use bee_agent.Kanban.Store.Invariant.{IsKanban}
use bee_agent.Kanban.Store.Listing.{Matches, due, before, list, compare_tasks-IsComparator}
use bee_agent.Kanban.Store.Listed.{list-Listed}
use bee_agent.Kanban.Dispatcher.{
  dependency_satisfied, dependencies_satisfied, ready_query, ready_tasks,
}

-- A blocking dependency is satisfied: the task that it names exists and has the status it waits
-- for, `done` by default.
abbrev pub Satisfied : KanbanStore → KanbanDependency → Type 0
Satisfied s dependency =
    (dependency.kind ≡ related)
    ⊎ ((t : KanbanTask) × (get s dependency.task_id ≡ some t)
        × (t.status ≡ or_else dependency.satisfied_when done))

-- A task that may be claimed: ready, due and with its dependencies satisfied.
pub record Runnable (s : KanbanStore) (now : ℕ) (t : KanbanTask) : Type 0 where
  pub stored : get s t.id ≡ some t
  pub is_ready : t.status ≡ ready
  pub scheduled : due now t ≡ true
  pub dependencies : All (Satisfied s) t.dependencies

dependency_satisfied-Satisfied :
    (s : KanbanStore) (d : KanbanDependency) (kind : KanbanDependencyKind)
    → d.kind ≡ kind
    → dependency_satisfied s d ≡ true
    → Satisfied s d
unfolding dependency_satisfied
dependency_satisfied-Satisfied s d related k h = inl k
dependency_satisfied-Satisfied s d blocks k h = elim (Option-cases (get s d.task_id)) [
  | inl missing ↦ absurd (cc (rw (k, dependency_satisfied, missing) at h))
  | inr (t, read) ↦ inr (
    t,
    read,
    (status_eq_iff t.status (or_else d.satisfied_when done)).0
        (rw (k, dependency_satisfied, read) at h),
  )
]

Satisfied-dependency_satisfied :
    (s : KanbanStore) (d : KanbanDependency) (kind : KanbanDependencyKind)
    → d.kind ≡ kind
    → Satisfied s d
    → dependency_satisfied s d ≡ true
unfolding dependency_satisfied
Satisfied-dependency_satisfied s d related k h = rw (k, dependency_satisfied)
Satisfied-dependency_satisfied s d blocks k (inl k') = cc
Satisfied-dependency_satisfied s d blocks k (inr (t, read, reached)) =
    rw (k, dependency_satisfied, read)
      ((status_eq_iff t.status (or_else d.satisfied_when done)).1 reached)

every-Satisfied :
    (s : KanbanStore) (ds : List KanbanDependency)
    → every (dependency_satisfied s) ds ≡ true
    → All (Satisfied s) ds
every-Satisfied s [] h = tt
every-Satisfied s (d ∷ ds) h = (
  dependency_satisfied-Satisfied s d d.kind refl (ground arith),
  every-Satisfied s ds (ground arith),
)

pub Satisfied-every :
    (s : KanbanStore) (ds : List KanbanDependency)
    → All (Satisfied s) ds
    → every (dependency_satisfied s) ds ≡ true
Satisfied-every s [] h = refl
Satisfied-every s (d ∷ ds) h =
    rw (Satisfied-dependency_satisfied s d d.kind refl h.0) (Satisfied-every s ds h.1)

ready_status : (t : KanbanTask) → includes (ready ∷ []) t.status ≡ true → t.status ≡ ready
ready_status t h = sym ((status_eq_iff ready t.status).0 (ground arith))

ready_listed : (t : KanbanTask) → t.status ≡ ready → includes (ready ∷ []) t.status ≡ true
ready_listed t h = rw h

pub matching :
    (now : ℕ) (t : KanbanTask) → t.status ≡ ready → due now t ≡ true → Matches (ready_query now) t
matching now t h q = record {
  status = ready_listed t h;
  labels = tt;
  priority = tt;
  scheduled = q;
  thread = tt;
  item = tt;
}

-- The first of `readyTasks`: it may be claimed, and the order puts no other such task before it.
pub ready_tasks_first :
    (s : KanbanStore) (v : IsKanban s) (now : ℕ) (t : KanbanTask) (ts : List KanbanTask)
    → ready_tasks now s ≡ t ∷ ts
    → Runnable s now t × ((u : KanbanTask) → Runnable s now u → before t u ≡ true)
unfolding ready_tasks dependencies_satisfied
ready_tasks_first s v now t ts e =
    let l = list-Listed s v (ready_query now) in
    let (m, satisfied, first) =
      filter_first before (at_most_total compare_tasks-IsComparator) (dependencies_satisfied s)
        (list (ready_query now) s) t ts l.sorted e in
    let (read, fits) = l.stored t m in
    (
      record {
        stored = read;
        is_ready = ready_status t fits.status;
        scheduled = fits.scheduled;
        dependencies = every-Satisfied s t.dependencies satisfied;
      },
      λ u r. elim (l.best u.id u r.stored (matching now u r.is_ready r.scheduled)) [
        | inl m' ↦ first u m' (Satisfied-every s u.dependencies r.dependencies)
        | inr (all, full) ↦ cc full
      ],
    )
