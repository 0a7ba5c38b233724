-- ===== src/Kanban/Transition.antt =====
-- packages/kanban/src/state-machine.ts: `applyTransition`.
use bee_agent.Prelude.{
  ℕ, ◌+◌, String, Option, none, some, Result, ok, ◌>>◌, guard, or_else, if◌then◌else◌, ◌==◌,
}
use bee_agent.Errors.{Error, version_conflict, invalid_transition}
use bee_agent.Kanban.Status.{KanbanTaskStatus, running, status_eq, is_terminal, can_transition}
use bee_agent.Kanban.Task.{KanbanTask, KanbanClaimLease}

pub record KanbanTransitionCommand : Type 0 where
  pub to : KanbanTaskStatus
  pub expected_version : ℕ
  pub reason : Option String
  pub at : Option ℕ
  pub claim : Option KanbanClaimLease

-- `command.claim ?? task.claim`
abbrev first_claim : Option KanbanClaimLease → Option KanbanClaimLease → Option KanbanClaimLease
first_claim none c = c
first_claim (some c) _ = some c

-- The task after the checks; `now` is the clock that an absent `at` falls back to.
unfoldable pub transitioned : ℕ → KanbanTask → KanbanTransitionCommand → KanbanTask
transitioned now task command =
    let at = or_else command.at now in
    record task {
      status = command.to;
      version = task.version + 1;
      updated_at = at;
      ended_at = if is_terminal command.to then some at else task.ended_at;
      claim = if status_eq command.to running then first_claim command.claim task.claim else none;
    }

unfoldable pub apply_transition : ℕ → KanbanTask → KanbanTransitionCommand → Result Error KanbanTask
unfolding transitioned
apply_transition now task command = do
  guard (command.expected_version == task.version)
      (version_conflict task.id command.expected_version task.version)
  guard (can_transition task.status command.to) (invalid_transition task.status command.to)
  ok (transitioned now task command)
