-- ===== src/Kanban/Dispatcher.antt =====
-- packages/kanban/src/dispatcher.ts: `KanbanDispatcher`.
pub mod Ready
pub mod Claiming
pub mod Reclaiming
pub mod Reclaimed
pub mod Ownership
pub mod Progress
use bee_agent.Prelude.{
  ℕ, suc, ◌+◌, String, Bool, true, false, ◌||◌, ◌==◌, Option, none, some, List, [], ◌∷◌, ◌++◌,
  Result, ok, err, require, guard, ◌>>=◌, ◌>>◌, or_else, every, filter, length, ltb, leb, str_eq,
}
use bee_agent.Errors.{Error, task_not_found, lease_lost}
use bee_agent.Kanban.Status.{
  KanbanTaskStatus, ready, running, done, failed, blocked, cancelled, status_eq,
}
use bee_agent.Kanban.Task.{
  KanbanTask, KanbanDependency, KanbanDependencyKind, KanbanClaimLease, blocks, related,
}
use bee_agent.Kanban.Transition.{KanbanTransitionCommand}
use bee_agent.Kanban.Fold.{holds_lease}
use bee_agent.Kanban.Store.{KanbanStore, Env, get, transition, renew_lease}
use bee_agent.Kanban.Store.Listing.{KanbanTaskQuery, everything, list}
use bee_agent.Events.{Call}

-- `maxConcurrent` zero means no limit.
pub record KanbanDispatcher : Type 0 where
  pub lease_duration_ms : ℕ
  pub max_concurrent : ℕ

unfoldable pub new_dispatcher : ℕ → Option ℕ → KanbanDispatcher
new_dispatcher duration max = record {
  lease_duration_ms = duration;
  max_concurrent = or_else max 1;
}

unfoldable pub expiry : KanbanDispatcher → ℕ → ℕ
expiry d now = now + d.lease_duration_ms

-- The body of the loop of `#dependenciesSatisfied`.
unfoldable pub dependency_satisfied : KanbanStore → KanbanDependency → Bool
dependency_satisfied s dependency = elim dependency.kind [
  | related ↦ true
  | blocks ↦ elim (get s dependency.task_id) [
    | none ↦ false
    | some task ↦ status_eq task.status (or_else dependency.satisfied_when done)
  ]
]

unfoldable pub dependencies_satisfied : KanbanStore → KanbanTask → Bool
dependencies_satisfied s task = every (dependency_satisfied s) task.dependencies

abbrev pub ready_query : ℕ → KanbanTaskQuery
ready_query now = record everything { status = some (ready ∷ []); scheduled_before = some now }

abbrev pub running_query : KanbanTaskQuery
running_query = record everything { status = some (running ∷ []) }

unfoldable pub ready_tasks : ℕ → KanbanStore → List KanbanTask
ready_tasks now s = filter (dependencies_satisfied s) (list (ready_query now) s)

-- `task.claim?.claimant === workerId`
abbrev pub claimed_by : String → KanbanTask → Bool
claimed_by worker task = elim task.claim [ none ↦ false | some c ↦ str_eq c.claimant worker ]

unfoldable pub has_capacity : KanbanDispatcher → String → KanbanStore → Bool
has_capacity d worker s =
    d.max_concurrent == 0
    || ltb (length (filter (claimed_by worker) (list running_query s))) d.max_concurrent

abbrev pub claim_command :
    KanbanDispatcher → String → String → ℕ → KanbanTask → KanbanTransitionCommand
claim_command d worker lease_id now task = record {
  to = running;
  expected_version = task.version;
  reason = none;
  at = some now;
  claim = some (record {
    claimant = worker;
    lease_id = lease_id;
    claimed_at = now;
    expires_at = now + d.lease_duration_ms;
  });
}

unfoldable pub claim_first :
    Env
    → Call
    → KanbanDispatcher
    → String
    → ℕ
    → List KanbanTask
    → KanbanStore
    → Result Error (Option KanbanTask × KanbanStore)
claim_first env call d worker now [] s = ok (none, s)
claim_first env call d worker now (task ∷ _) s = do
  claimed ← transition env call task.id (claim_command d worker call.fresh_id now task) s
  ok (some claimed.0, claimed.1)

-- The lease id is the uuid of the call.
unfoldable pub claim_next :
    Env
    → Call
    → KanbanDispatcher
    → String
    → ℕ
    → KanbanStore
    → Result Error (Option KanbanTask × KanbanStore)
unfolding has_capacity ready_tasks claim_first
claim_next env call d worker now s = elim (has_capacity d worker s) [
  | false ↦ ok (none, s)
  | true ↦ claim_first env call d worker now (ready_tasks now s) s
]

unfoldable pub heartbeat :
    Env
    → Call
    → KanbanDispatcher
    → String
    → (lease_id : String) → (now : ℕ) → KanbanStore
    → Result Error (KanbanTask × KanbanStore)
unfolding expiry
heartbeat env call d task_id lease_id now s = renew_lease env call task_id lease_id (expiry d now) s

-- `task.claim !== undefined && task.claim.expiresAt <= now`
abbrev pub lapsed : ℕ → KanbanTask → Bool
lapsed now task = elim task.claim [ none ↦ false | some c ↦ leb c.expires_at now ]

abbrev pub move_at : KanbanTaskStatus → Option String → ℕ → KanbanTask → KanbanTransitionCommand
move_at to reason now task = record {
  to = to;
  expected_version = task.version;
  reason = reason;
  at = some now;
  claim = none;
}

-- The loop of `reclaimExpired` over the tasks that were listed. A transition that throws ends it,
-- and those before it stay: the store is returned beside the result. The `n`-th transition is
-- made in the call `calls n`.
unfoldable pub reclaim_loop :
    Env
    → (ℕ → Call)
    → (now : ℕ) → List KanbanTask
    → (n : ℕ) → List String
    → KanbanStore
    → Result Error (List String) × KanbanStore
reclaim_loop env calls now [] n reclaimed s = (ok reclaimed, s)
reclaim_loop env calls now (task ∷ tasks) n reclaimed s = elim (lapsed now task) [
  | false ↦ reclaim_loop env calls now tasks n reclaimed s
  | true ↦ elim (transition env (calls n) task.id (move_at ready none now task) s) [
    | err error ↦ (err error, s)
    | ok (_, s') ↦ reclaim_loop env calls now tasks (suc n) (reclaimed ++ task.id ∷ []) s'
  ]
]

unfoldable pub reclaim_expired :
    Env → (ℕ → Call) → ℕ → KanbanStore → Result Error (List String) × KanbanStore
unfolding reclaim_loop
reclaim_expired env calls now s = reclaim_loop env calls now (list running_query s) 0 [] s

unfoldable pub owned : String → String → KanbanStore → Result Error KanbanTask
owned task_id lease_id s = do
  task ← require (get s task_id) (task_not_found task_id)
  guard (holds_lease task lease_id) (lease_lost task_id lease_id)
  ok task

unfoldable pub complete :
    Env
    → Call
    → String
    → (lease_id : String) → (now : ℕ) → KanbanStore
    → Result Error (KanbanTask × KanbanStore)
unfolding owned
complete env call task_id lease_id now s = do
  task ← owned task_id lease_id s
  transition env call task_id (move_at done none now task) s

unfoldable pub fail :
    Env
    → Call
    → String
    → (lease_id : String) → Option String
    → (now : ℕ) → KanbanStore
    → Result Error (KanbanTask × KanbanStore)
unfolding owned
fail env call task_id lease_id reason now s = do
  task ← owned task_id lease_id s
  transition env call task_id (move_at failed reason now task) s

unfoldable pub block :
    Env
    → Call
    → String
    → (lease_id : String) → Option String
    → (now : ℕ) → KanbanStore
    → Result Error (KanbanTask × KanbanStore)
unfolding owned
block env call task_id lease_id reason now s = do
  task ← owned task_id lease_id s
  transition env call task_id (move_at blocked reason now task) s

unfoldable pub cancel :
    Env → Call → String → (now : ℕ) → KanbanStore → Result Error (KanbanTask × KanbanStore)
cancel env call task_id now s = do
  task ← require (get s task_id) (task_not_found task_id)
  transition env call task_id (move_at cancelled none now task) s
