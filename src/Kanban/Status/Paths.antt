-- ===== src/Kanban/Status/Paths.antt =====
-- `shortestTransitionPath` against walks of the transition table, by tables over all statuses.
use bee_agent.Prelude.{
  ℕ, suc, ◌≤◌, ◌≡◌, refl, ◌⊎◌, inl, inr, Bool, true, false, ◌&&◌, ◌||◌, Option, none, some, List,
  [], ◌∷◌, arith, leb, if◌then◌else◌, length, every, Bool-cases,
}
use bee_agent.Kanban.Status.{
  KanbanTaskStatus, status_eq, status_eq_iff, kanban_task_statuses, every_status, can_transition,
  failed, cancelled, archived, shortest_transition_path,
}

-- The statuses that a walk may pass through.
abbrev pub passable : KanbanTaskStatus → Bool
passable failed = false
passable cancelled = false
passable archived = false
passable _ = true

-- A legal walk to `to` whose intermediate statuses are none of failed, cancelled and archived.
abbrev pub Walk : KanbanTaskStatus → KanbanTaskStatus → List KanbanTaskStatus → Type 0
Walk to from [] = from ≡ to
Walk to from (next ∷ path) =
    (can_transition from next ≡ true) × ((next ≡ to) ⊎ (passable next ≡ true)) × Walk to next path

may_hop : KanbanTaskStatus → KanbanTaskStatus → Bool
may_hop to next = status_eq next to || passable next

is_walk : KanbanTaskStatus → KanbanTaskStatus → List KanbanTaskStatus → Bool
unfolding may_hop
is_walk to from [] = status_eq from to
is_walk to from (next ∷ path) = can_transition from next && may_hop to next && is_walk to next path

is_walk-Walk :
    (to from : KanbanTaskStatus) (path : List KanbanTaskStatus)
    → is_walk to from path ≡ true
    → Walk to from path
unfolding is_walk
is_walk-Walk to from [] h = (status_eq_iff from to).0 h
is_walk-Walk to from (next ∷ path) h = (
  ground arith,
  elim (Bool-cases (status_eq next to)) [
    | inl e ↦ inl ((status_eq_iff next to).0 e)
    | inr e ↦ inr (ground arith)
  ],
  is_walk-Walk to next path (ground arith),
)

-- The result of the search, checked for one pair.
answer_ok : KanbanTaskStatus → KanbanTaskStatus → Option (Option (List KanbanTaskStatus)) → Bool
answer_ok from to none = false
answer_ok from to (some none) = true
answer_ok from to (some (some p)) = is_walk to from p

answers_ok :
    every
      (λ from.
        every (λ to. answer_ok from to (shortest_transition_path from to)) kanban_task_statuses)
      kanban_task_statuses
    ≡ true
unfolding answer_ok is_walk can_transition shortest_transition_path
answers_ok = refl

distance : Option (Option (List KanbanTaskStatus)) → Option ℕ
distance (some (some p)) = some (length p)
distance _ = none

one_more : Option ℕ → Option ℕ → Bool
one_more _ none = true
one_more none (some n) = false
one_more (some m) (some n) = leb m (suc n)

-- One hop lowers the distance by one at most.
edge_ok : KanbanTaskStatus → KanbanTaskStatus → KanbanTaskStatus → Bool
unfolding may_hop
edge_ok to from next =
    if can_transition from next && may_hop to next
    then one_more (distance (shortest_transition_path from to))
        (distance (shortest_transition_path next to))
    else true

edges_ok :
    every
      (λ to. every (λ from. every (edge_ok to from) kanban_task_statuses) kanban_task_statuses)
      kanban_task_statuses
    ≡ true
unfolding edge_ok can_transition shortest_transition_path distance one_more
edges_ok = refl

edge_ok_all : (to from next : KanbanTaskStatus) → edge_ok to from next ≡ true
edge_ok_all to from next =
    every_status (edge_ok to from)
      (every_status (λ f. every (edge_ok to f) kanban_task_statuses)
        (every_status
          (λ t. every (λ f. every (edge_ok t f) kanban_task_statuses) kanban_task_statuses) edges_ok
          to)
        from)
      next

distance_self : (s : KanbanTaskStatus) → distance (shortest_transition_path s s) ≡ some 0
unfolding distance shortest_transition_path
distance_self s = ground arith

-- A hop that Passes the test of `edge_ok`.
may_hop_of :
    (to next : KanbanTaskStatus) → (next ≡ to) ⊎ (passable next ≡ true) → may_hop to next ≡ true
unfolding may_hop
may_hop_of to next (inl e) = rw ((status_eq_iff next to).1 e)
may_hop_of to next (inr e) = ground arith

one_more_bound :
    (d : Option ℕ) (n : ℕ) → one_more d (some n) ≡ true → (m : ℕ) × (d ≡ some m) × (m ≤ suc n)
unfolding one_more
one_more_bound none n h = cc
one_more_bound (some m) n h = (m, refl, ground arith)

edge_bound :
    (to from next : KanbanTaskStatus) (n : ℕ)
    → can_transition from next ≡ true
    → may_hop to next ≡ true
    → distance (shortest_transition_path next to) ≡ some n
    → edge_ok to from next ≡ true
    → (m : ℕ) × (distance (shortest_transition_path from to) ≡ some m) × (m ≤ suc n)
unfolding edge_ok
edge_bound to from next n legal hop e h =
    one_more_bound (distance (shortest_transition_path from to)) n (rw (legal, hop, e) at h)

distance_bound :
    (to from : KanbanTaskStatus) (path : List KanbanTaskStatus)
    → Walk to from path
    → (m : ℕ) × (distance (shortest_transition_path from to) ≡ some m) × (m ≤ length path)
distance_bound to from [] h = (0, rw h (distance_self to), omega arith)
distance_bound to from (next ∷ path) (legal, fits, rest) =
    let (n, e, bound) = distance_bound to next path rest in
    let (m, e', bound') =
      edge_bound to from next n legal (may_hop_of to next fits) e (edge_ok_all to from next) in
    (m, e', omega arith)

-- What the search owes its caller.
abbrev pub Answers :
    KanbanTaskStatus → KanbanTaskStatus → Option (Option (List KanbanTaskStatus)) → Type 0
Answers from to none = ⊥
Answers from to (some none) = (q : List KanbanTaskStatus) → ¬ (Walk to from q)
Answers from to (some (some p)) =
    Walk to from p × ((q : List KanbanTaskStatus) → Walk to from q → length p ≤ length q)

answer :
    (from to : KanbanTaskStatus) (r : Option (Option (List KanbanTaskStatus)))
    → shortest_transition_path from to ≡ r
    → answer_ok from to r ≡ true
    → Answers from to r
unfolding answer_ok distance
answer from to none e h = cc
answer from to (some none) e h = λ q w. let (m, d, bound) = distance_bound to from q w in cc
answer from to (some (some p)) e h = (
  is_walk-Walk to from p h,
  λ q w. let (m, d, bound) = distance_bound to from q w in ground arith,
)

-- The search ends within its fuel; a path that it returns is a legal walk from `from` to `to`
-- through no failed, cancelled or archived status, and no such walk is shorter; it returns no
-- path only where there is no such walk.
pub shortest_transition_path-Answers :
    (from to : KanbanTaskStatus) → Answers from to (shortest_transition_path from to)
shortest_transition_path-Answers from to = answer from to (shortest_transition_path from to) refl (
    every_status (λ t. answer_ok from t (shortest_transition_path from t))
      (every_status
        (λ f. every (λ t. answer_ok f t (shortest_transition_path f t)) kanban_task_statuses)
        answers_ok from)
      to)
