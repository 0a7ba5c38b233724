-- ===== src/Kanban/Fold.antt =====
-- packages/kanban/src/store.ts: `foldTask`, and the test for a live lease.
use bee_agent.Prelude.{
  String, ◌+◌, Bool, false, ◌&&◌, Option, none, some, List, [], ◌∷◌, ◌++◌, Result, ok, err, ◌>>=◌,
  if◌then◌else◌, str_eq, ℕ,
}
use bee_agent.Errors.{
  Error, unknown_event_type, commented_before_created, lease_renewed_before_created,
}
use bee_agent.Chronicle.{StoredEvent}
use bee_agent.Kanban.Status.{running, status_eq}
use bee_agent.Kanban.Task.{KanbanTask, KanbanClaimLease, KanbanComment}
use bee_agent.Events.{
  Body, task_created, task_status_changed, task_lease_renewed, task_updated, task_commented,
  type_of,
}

-- `task.claim?.leaseId === leaseId`
unfoldable pub claim_has_id : Option KanbanClaimLease → String → Bool
claim_has_id none lease_id = false
claim_has_id (some c) lease_id = str_eq c.lease_id lease_id

-- `task.status === 'running' && task.claim?.leaseId === leaseId`
unfoldable pub holds_lease : KanbanTask → String → Bool
unfolding claim_has_id
holds_lease task lease_id = status_eq task.status running && claim_has_id task.claim lease_id

extended : Option KanbanClaimLease → ℕ → Option KanbanClaimLease
extended none expires_at = none
extended (some c) expires_at = some (record c { expires_at = expires_at })

-- The task under a renewed lease, in `foldTask` and in `renewLease`.
unfoldable pub renewed : KanbanTask → ℕ → KanbanTask
unfolding extended
renewed task expires_at = record task {
  claim = extended task.claim expires_at;
  version = task.version + 1;
}

-- The task with one more comment, as `foldTask` has it.
unfoldable pub with_comment : KanbanTask → KanbanComment → KanbanTask
with_comment task comment = record task {
  comments = task.comments ++ comment ∷ [];
  version = task.version + 1;
}

fold_renewal : Option KanbanTask → String → ℕ → Result Error KanbanTask
unfolding renewed holds_lease
fold_renewal none lease_id expires_at = err lease_renewed_before_created
fold_renewal (some task) lease_id expires_at =
    if holds_lease task lease_id then ok (renewed task expires_at) else ok task

fold_comment : Option KanbanTask → KanbanComment → Result Error KanbanTask
unfolding with_comment
fold_comment none comment = err commented_before_created
fold_comment (some task) comment = ok (with_comment task comment)

unfoldable pub fold_task : Option KanbanTask → Body → Result Error KanbanTask
unfolding fold_renewal fold_comment
fold_task task (task_created t) = ok t
fold_task task (task_status_changed from to reason t) = ok t
fold_task task (task_updated t) = ok t
fold_task task (task_commented comment) = fold_comment task comment
fold_task task (task_lease_renewed lease_id expires_at) = fold_renewal task lease_id expires_at
fold_task task body = err (unknown_event_type (type_of body))

-- The inner loop of `rebuild`: the fold over one stream.
unfoldable pub fold_stream :
    Option KanbanTask → List (StoredEvent Body) → Result Error (Option KanbanTask)
fold_stream task [] = ok task
fold_stream task (e ∷ es) = do next ← fold_task task e.body; fold_stream (some next) es
