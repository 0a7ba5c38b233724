-- ===== src/Kanban/Store/Edits.antt =====
-- What `update` and `comment` do when they succeed.
use bee_agent.Prelude.{
  ℕ, ◌+◌, String, ◌≡◌, refl, sym, subst, Bool, true, Option, some, arith, ok, >>=-eq-ok,
  require-eq-ok, guard-eq-ok, ◌==◌,
}
use bee_agent.Chronicle.{rows, new_chronicle_event}
use bee_agent.Kanban.Task.{KanbanTask, KanbanComment, task_schema}
use bee_agent.Kanban.Construct.{parse_task}
use bee_agent.Kanban.Fold.{fold_task, with_comment}
use bee_agent.Kanban.Store.{
  KanbanStore, Env, get, commit, update, comment, KanbanTaskUpdate, patched, new_comment,
}
use bee_agent.Kanban.Store.Invariant.{timeless, IsKanban, Fresh}
use bee_agent.Kanban.Store.Commit.{Folds}
use bee_agent.Kanban.Store.Committed.{Committed}
use bee_agent.Kanban.Store.Operations.{commit_change, comment_step, folded-Similar}
use bee_agent.Events.{
  Call, kanban_stream_id, kanban_task_updated_event, kanban_task_commented_event, task_commented,
}

pub parse_task-eq-ok :
    (is_uuid : String → Bool) (t : KanbanTask) {u : KanbanTask}
    → parse_task is_uuid t ≡ ok u
    → (u ≡ t) × (task_schema is_uuid t ≡ true)
unfolding parse_task
parse_task-eq-ok is_uuid t h = ground arith

module _ (env : Env) (call : Call) (s : KanbanStore) (v : IsKanban s)
    (fresh : Fresh call s.chronicle) where
  -- An update that succeeds read a task at the expected version, and committed the patched task,
  -- which fits the schema.
  pub record Updated (id : String) (patch : KanbanTaskUpdate) (t : KanbanTask) (s' : KanbanStore)
      : Type 0 where
    pub current : KanbanTask
    pub read : get s id ≡ some current
    pub expected : patch.expected_version ≡ current.version
    pub result : t ≡ patched call.now current patch
    pub valid : task_schema env.is_uuid t ≡ true
    pub committed :
        Committed s (kanban_task_updated_event call (patched call.now current patch)) t s'

  updated_change :
      (id : String) (patch : KanbanTaskUpdate) (current : KanbanTask) {t : KanbanTask}
      {s' : KanbanStore}
      → get s id ≡ some current
      → commit env call id
          (kanban_task_updated_event call (patched call.now current patch))
          (current.version + 1)
          (patched call.now current patch)
          s
        ≡ ok (t, s')
      → (t ≡ patched call.now current patch)
        × Committed s (kanban_task_updated_event call (patched call.now current patch)) t s'
  unfolding patched new_chronicle_event fold_task
  updated_change id patch current read h =
      commit_change env call s v fresh id _ current (patched call.now current patch)
        (current.version + 1) refl refl refl refl read
        (λ folded _. (patched call.now current patch, refl, refl)) h

  -- An update that succeeds with a fresh event id, in a state where projection and log agree, read a
  -- task at the expected version and committed the patched task, which fits the schema.
  pub update-Updated :
      (id : String) (patch : KanbanTaskUpdate) {t : KanbanTask} {s' : KanbanStore}
      → update env call id patch s ≡ ok (t, s')
      → Updated id patch t s'
  unfolding update
  update-Updated id patch {t} {s'} h =
      let (current, read, rest) = require-eq-ok (get s id) _ _ h in
      let (expected, rest') = guard-eq-ok (patch.expected_version == current.version) _ _ rest in
      let (next, parsed, committing) =
        >>=-eq-ok (parse_task env.is_uuid (patched call.now current patch)) _ rest' in
      let (same, valid) = parse_task-eq-ok env.is_uuid (patched call.now current patch) parsed in
      let (result, done) = updated_change id patch current read (
        subst
          (λ u.
            commit env call id (kanban_task_updated_event call u) (current.version + 1) u s
            ≡ ok (t, s'))
          same committing) in
      record {
        current = current;
        read = read;
        expected = ground arith;
        result = result;
        valid = subst (λ u. task_schema env.is_uuid u ≡ true) (sym result) valid;
        committed = done;
      }

  -- A comment that succeeds read a task and committed it with one comment more.
  pub record Commented (id author body : String) (at : Option ℕ) (t : KanbanTask) (s' : KanbanStore)
      : Type 0 where
    pub current : KanbanTask
    pub read : get s id ≡ some current
    pub result : t ≡ record (with_comment current (new_comment call author body at)) {
      updated_at = (new_comment call author body at).at;
    }
    pub committed :
        Committed s (kanban_task_commented_event call id (new_comment call author body at)) t s'

  comment-Folds :
      (id : String) (c : KanbanComment) (at : ℕ) (current : KanbanTask)
      → get s id ≡ some current
      → Folds
          (rows s.chronicle (kanban_stream_id id))
          (task_commented c)
          (record (with_comment current c) { updated_at = at })
  comment-Folds id c at current read folded h =
      let (f, e, same) = folded-Similar s v id current folded read h in
      subst
        (λ o.
          (g : KanbanTask) × (fold_task o (task_commented c) ≡ ok g)
          × (timeless g ≡ timeless (with_comment current c)))
        (sym e) (comment_step f current c same)

  pub comment-Commented :
      (id author body : String) (at : Option ℕ) {t : KanbanTask} {s' : KanbanStore}
      → comment env call id author body at s ≡ ok (t, s')
      → Commented id author body at t s'
  unfolding comment new_chronicle_event
  comment-Commented id author body at h =
      let (current, read, committing) = require-eq-ok (get s id) _ _ h in
      let note = new_comment call author body at in
      let (same, done) =
        commit_change env call s v fresh id _ current
          (record (with_comment current note) { updated_at = note.at }) (current.version + 1) refl
          refl refl refl read (comment-Folds id note note.at current read) committing in
      record { current = current; read = read; result = same; committed = done }
