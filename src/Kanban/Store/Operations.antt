-- ===== src/Kanban/Store/Operations.antt =====
-- What each operation of the store does when it succeeds.
use bee_agent.Prelude.{
  ℕ, ◌+◌, String, ◌≡◌, refl, sym, ap, subst, ◌∙◌, true, Option, none, some, arith, ok, >>=-eq-ok,
  require-eq-ok, guard-eq-ok, ok-injective, ◌==◌,
}
use bee_agent.Chronicle.{NewEvent, rows, new_chronicle_event}
use bee_agent.Kanban.Status.{can_transition}
use bee_agent.Kanban.Task.{KanbanTask, KanbanComment}
use bee_agent.Kanban.Transition.{KanbanTransitionCommand, apply_transition, transitioned}
use bee_agent.Kanban.Fold.{fold_task, fold_stream, holds_lease, renewed, with_comment}
use bee_agent.Kanban.Store.{KanbanStore, Env, get, commit, transition, renew_lease}
use bee_agent.Kanban.Store.Invariant.{timeless, Agrees, Holds, IsKanban, Fresh}
use bee_agent.Kanban.Store.Commit.{Folds}
use bee_agent.Kanban.Store.Committed.{Committed, commit-Committed}
use bee_agent.Events.{
  Body, Call, kanban_stream_id, kanban_task_status_changed_event, kanban_task_lease_renewed_event,
  task_lease_renewed, task_commented,
}

-- What a read of the projection gives: the task under its own id.
pub get-named :
    (s : KanbanStore) (v : IsKanban s) (id : String) (t : KanbanTask)
    → get s id ≡ some t
    → Agrees id t (rows s.chronicle (kanban_stream_id id))
get-named s v id t e =
    subst (λ o. Holds id o (rows s.chronicle (kanban_stream_id id))) e (v.tasks id)

-- The fold of the stream of a projected task.
pub folded-Similar :
    (s : KanbanStore) (v : IsKanban s) (id : String) (t : KanbanTask) (folded : Option KanbanTask)
    → get s id ≡ some t
    → fold_stream none (rows s.chronicle (kanban_stream_id id)) ≡ ok folded
    → (f : KanbanTask) × (folded ≡ some f) × (timeless f ≡ timeless t)
folded-Similar s v id t folded e h =
    let a = get-named s v id t e in (a.folded, cc (a.folds, h), a.similar)

pub apply_transition-eq-ok :
    (now : ℕ) (t : KanbanTask) (c : KanbanTransitionCommand) {t' : KanbanTask}
    → apply_transition now t c ≡ ok t'
    → (c.expected_version ≡ t.version)
      × (can_transition t.status c.to ≡ true)
      × (t' ≡ transitioned now t c)
unfolding apply_transition
apply_transition-eq-ok now t c h =
    let (version, rest) = guard-eq-ok (c.expected_version == t.version) _ _ h in
    let (legal, result) = guard-eq-ok (can_transition t.status c.to) _ _ rest in
    (ground arith, legal, sym (ok-injective result))

-- The log's copy of a task renews as the projected one does.
renewal_step :
    (f t : KanbanTask) (lease_id : String) (expires_at : ℕ)
    → timeless f ≡ timeless t
    → holds_lease t lease_id ≡ true
    → (g : KanbanTask) × (fold_task (some f) (task_lease_renewed lease_id expires_at) ≡ ok g)
      × (timeless g ≡ timeless (renewed t expires_at))
unfolding fold_task
renewal_step f t lease_id expires_at same held =
    let held' : holds_lease f lease_id ≡ true =
      unfold holds_lease in ap (λ u. holds_lease u lease_id) same ∙ held in
    (
      renewed f expires_at,
      rw held',
      unfold renewed in ap (λ u. timeless (renewed u expires_at)) same,
    )

pub comment_step :
    (f t : KanbanTask) (c : KanbanComment)
    → timeless f ≡ timeless t
    → (g : KanbanTask) × (fold_task (some f) (task_commented c) ≡ ok g)
      × (timeless g ≡ timeless (with_comment t c))
unfolding fold_task with_comment
comment_step f t c same = (with_comment f c, refl, ap (λ u. timeless (with_comment u c)) same)

module _ (env : Env) (call : Call) (s : KanbanStore) (v : IsKanban s)
    (fresh : Fresh call s.chronicle) where
  -- A commit of a changed task over the task that was read.
  pub commit_change :
      (id : String) (event : NewEvent Body) (current next : KanbanTask) (expected : ℕ)
      {t : KanbanTask} {s' : KanbanStore}
      → event.event_id ≡ call.event_id
      → next.id ≡ current.id
      → next.version ≡ expected
      → next.idempotency_key ≡ current.idempotency_key
      → get s id ≡ some current
      → Folds (rows s.chronicle (kanban_stream_id id)) event.body next
      → commit env call id event expected next s ≡ ok (t, s')
      → (t ≡ next) × Committed s event t s'
  commit_change id event current next expected {t} {s'} drawn named version key read folds h =
      let named' : next.id ≡ id = named ∙ (get-named s v id current read).named in
      let (same, done) =
        commit-Committed env call s v fresh event next expected (some current) drawn version
          (ap (get s) named' ∙ read) key
          (subst (λ i. Folds (rows s.chronicle (kanban_stream_id i)) event.body next) (sym named')
            folds)
          (subst (λ i. commit env call i event expected next s ≡ ok (t, s')) (sym named') h) in
      (same, subst (λ u. Committed s event u s') (sym same) done)

  -- A transition that succeeds read a task at the expected version, made a hop of the table, and
  -- committed the task that `applyTransition` gives.
  pub record Transitioned (id : String) (c : KanbanTransitionCommand) (t : KanbanTask)
      (s' : KanbanStore) : Type 0 where
    pub current : KanbanTask
    pub read : get s id ≡ some current
    pub expected : c.expected_version ≡ current.version
    pub legal : can_transition current.status c.to ≡ true
    pub result : t ≡ transitioned call.now current c
    pub committed :
        Committed s
          (kanban_task_status_changed_event call current.status
            (transitioned call.now current c)
            c.reason)
          t
          s'

  transitioned_change :
      (id : String) (c : KanbanTransitionCommand) (current : KanbanTask) {t : KanbanTask}
      {s' : KanbanStore}
      → get s id ≡ some current
      → c.expected_version ≡ current.version
      → commit env call id
          (kanban_task_status_changed_event call current.status
            (transitioned call.now current c)
            c.reason)
          (c.expected_version + 1)
          (transitioned call.now current c)
          s
        ≡ ok (t, s')
      → (t ≡ transitioned call.now current c)
        × Committed s
            (kanban_task_status_changed_event call current.status
              (transitioned call.now current c)
              c.reason)
            t
            s'
  unfolding transitioned new_chronicle_event fold_task
  transitioned_change id c current read expected h =
      commit_change id _ current (transitioned call.now current c) (c.expected_version + 1) refl
        refl (ap (λ n. n + 1) (sym expected)) refl read
        (λ folded _. (transitioned call.now current c, refl, refl)) h

  -- A transition that succeeds with a fresh event id, in a state where projection and log agree, read
  -- a task at the expected version, made a hop of the table, and committed the task that
  -- `applyTransition` gives.
  pub transition-Transitioned :
      (id : String) (c : KanbanTransitionCommand) {t : KanbanTask} {s' : KanbanStore}
      → transition env call id c s ≡ ok (t, s')
      → Transitioned id c t s'
  unfolding transition
  transition-Transitioned id c {t} {s'} h =
      let (current, read, rest) = require-eq-ok (get s id) _ _ h in
      let (next, applied, committing) = >>=-eq-ok (apply_transition call.now current c) _ rest in
      let (expected, legal, result) = apply_transition-eq-ok call.now current c applied in
      let (same, done) = transitioned_change id c current read expected (
        subst
          (λ u.
            commit env call id (kanban_task_status_changed_event call current.status u c.reason)
              (c.expected_version + 1) u s
            ≡ ok (t, s'))
          result committing) in
      record {
        current = current;
        read = read;
        expected = expected;
        legal = legal;
        result = same;
        committed = done;
      }

  -- A renewal that succeeds read a running task under that lease, and moved its deadline.
  pub record Renewed (id lease_id : String) (expires_at : ℕ) (t : KanbanTask) (s' : KanbanStore)
      : Type 0 where
    pub current : KanbanTask
    pub read : get s id ≡ some current
    pub held : holds_lease current lease_id ≡ true
    pub result : t ≡ renewed current expires_at
    pub committed : Committed s (kanban_task_lease_renewed_event call id lease_id expires_at) t s'

  -- The fold of a renewal gives the renewed task, since the log has the lease too.
  renewal-Folds :
      (id lease_id : String) (expires_at : ℕ) (current : KanbanTask)
      → get s id ≡ some current
      → holds_lease current lease_id ≡ true
      → Folds
          (rows s.chronicle (kanban_stream_id id))
          (task_lease_renewed lease_id expires_at)
          (renewed current expires_at)
  renewal-Folds id lease_id expires_at current read held folded h =
      let (f, e, same) = folded-Similar s v id current folded read h in
      subst
        (λ o.
          (g : KanbanTask) × (fold_task o (task_lease_renewed lease_id expires_at) ≡ ok g)
          × (timeless g ≡ timeless (renewed current expires_at)))
        (sym e) (renewal_step f current lease_id expires_at same held)

  -- A renewal that succeeds with a fresh event id, in a state where projection and log agree, read a
  -- running task under that lease and committed it with the new deadline.
  pub renew_lease-Renewed :
      (id lease_id : String) (expires_at : ℕ) {t : KanbanTask} {s' : KanbanStore}
      → renew_lease env call id lease_id expires_at s ≡ ok (t, s')
      → Renewed id lease_id expires_at t s'
  unfolding renew_lease renewed new_chronicle_event
  renew_lease-Renewed id lease_id expires_at h =
      let (current, read, rest) = require-eq-ok (get s id) _ _ h in
      let (held, committing) = guard-eq-ok (holds_lease current lease_id) _ _ rest in
      let (same, done) =
        commit_change id _ current (renewed current expires_at) (current.version + 1) refl refl refl
          refl read (renewal-Folds id lease_id expires_at current read held) committing in
      record { current = current; read = read; held = held; result = same; committed = done }
