-- ===== src/Kanban/Store/CommentLog.antt =====
-- What a comment leaves in the log, against what it leaves in the projection.
use bee_agent.Prelude.{
  ℕ, String, ◌≡◌, refl, sym, ap, subst, ◌∙◌, Option, none, some, List, [], ◌∷◌, ◌++◌, ok,
}
use bee_agent.Chronicle.{StoredEvent, rows, new_chronicle_event, stamp}
use bee_agent.Kanban.Task.{KanbanTask, KanbanComment}
use bee_agent.Kanban.Fold.{fold_task, fold_stream, with_comment}
use bee_agent.Kanban.Store.{KanbanStore, Env, get, comment, new_comment}
use bee_agent.Kanban.Store.Invariant.{IsKanban, Fresh, fold_stream-concat}
use bee_agent.Kanban.Store.Operations.{get-named}
use bee_agent.Kanban.Store.Edits.{comment-Commented}
use bee_agent.Events.{Body, Call, kanban_task_commented_event, kanban_stream_id}

fold_comment_row :
    (call : Call) (id : String) (note : KanbanComment) (log : List (StoredEvent Body))
    (current : KanbanTask) (stream : String) (version now : ℕ)
    → fold_stream none log ≡ ok (some current)
    → fold_stream none
        (log ++ stamp stream version now (kanban_task_commented_event call id note ∷ []))
      ≡ ok (some (with_comment current note))
unfolding stamp fold_task with_comment new_chronicle_event
fold_comment_row call id note log current stream version now folds =
    fold_stream-concat log _ (some current) (with_comment current note) folds refl

module _ (env : Env) (call : Call) (s : KanbanStore) (v : IsKanban s)
    (fresh : Fresh call s.chronicle) where
  -- A comment moves `updatedAt` in the projection, and the log does not have it: if the log of
  -- the task folded to the task that was read, it folds after the comment to a task with the old
  -- `updatedAt`, while the projected one has the instant of the comment.
  pub comment_not_folded :
      (id author body : String) (at : Option ℕ) (current : KanbanTask) {t : KanbanTask}
      {s' : KanbanStore}
      → get s id ≡ some current
      → fold_stream none (rows s.chronicle (kanban_stream_id id)) ≡ ok (some current)
      → comment env call id author body at s ≡ ok (t, s')
      → (f : KanbanTask) × (fold_stream none (rows s'.chronicle (kanban_stream_id id))
          ≡ ok (some f))
        × (get s' id ≡ some t)
        × (f.updated_at ≡ current.updated_at)
        × (t.updated_at ≡ (new_comment call author body at).at)
  unfolding with_comment
  comment_not_folded id author body at current {t} {s'} read folds h =
      let d = comment-Commented env call s v fresh id author body at h in
      let same : d.current ≡ current = cc (d.read, read) in
      let named : t.id ≡ id =
        ap (λ (u : KanbanTask). u.id) d.result ∙ (get-named s v id d.current d.read).named in
      let (now, log) = d.committed.logged in
      (
        with_comment current (new_comment call author body at),
        subst
            (λ i.
              fold_stream none (rows s'.chronicle (kanban_stream_id i))
              ≡ ok (some (with_comment current (new_comment call author body at))))
            named
            (rw log (
              fold_comment_row call id (new_comment call author body at)
                (rows s.chronicle (kanban_stream_id t.id)) current (kanban_stream_id t.id) t.version
                now
                (subst
                  (λ i.
                    fold_stream none (rows s.chronicle (kanban_stream_id i)) ≡ ok (some current))
                  (sym named) folds))),
        ap (get s') (sym named) ∙ d.committed.here,
        refl,
        ap (λ (u : KanbanTask). u.updated_at) d.result,
      )
