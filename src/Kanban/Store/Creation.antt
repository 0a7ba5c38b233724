-- ===== src/Kanban/Store/Creation.antt =====
-- What `create` does when it succeeds.
use bee_agent.Prelude.{
  ℕ, String, ◌≡◌, refl, sym, ap, subst, ◌∙◌, inl, inr, Bool, true, none, some, List, [], ◌∷◌, arith,
  ok, >>=-eq-ok, ok-fst, ok-snd, ok-injective, Option-cases, ◌≢◌, All, length,
}
use bee_agent.Prelude.Map
use bee_agent.Chronicle.{NewEvent, StoredEvent, append, rows, new_chronicle_event}
use bee_agent.Kanban.Task.{KanbanTask, task_schema}
use bee_agent.Kanban.Construct.{NewKanbanTaskInit, new_kanban_task, drafted}
use bee_agent.Kanban.Fold.{fold_task, fold_stream}
use bee_agent.Kanban.Store.{KanbanStore, Env, get, existing, commit, create}
use bee_agent.Kanban.Store.Invariant.{IsKanban, Fresh, fresh_append}
use bee_agent.Kanban.Store.Commit.{KeyFits}
use bee_agent.Kanban.Store.Committed.{Committed, commit-Committed}
use bee_agent.Kanban.Store.Operations.{get-named}
use bee_agent.Events.{Body, Call, kanban_stream_id, kanban_task_created_event}
use bee_agent.Kanban.Store.Edits.{parse_task-eq-ok}

pub new_kanban_task-eq-ok :
    (is_uuid : String → Bool) (fresh : String) (clock : ℕ) (init : NewKanbanTaskInit)
    {u : KanbanTask}
    → new_kanban_task is_uuid fresh clock init ≡ ok u
    → (u ≡ drafted fresh clock init) × (task_schema is_uuid u ≡ true)
unfolding new_kanban_task
new_kanban_task-eq-ok is_uuid fresh clock init h =
    let (same, valid) = parse_task-eq-ok is_uuid (drafted fresh clock init) h in
    (same, subst (λ t. task_schema is_uuid t ≡ true) (sym same) valid)

first_row :
    (log : List (StoredEvent Body)) (f : KanbanTask)
    → length log ≡ 0
    → fold_stream none log ≡ ok (some f)
    → ⊥
unfolding fold_stream
first_row [] f h e = cc (ok-injective e)
first_row (x ∷ xs) f h e = omega arith

-- A known key names a task with that key, so a key with no task is not known.
existing-none :
    (s : KanbanStore) (v : IsKanban s) (key : String)
    → existing s (some key) ≡ none
    → Map.get key s.idempotency ≡ none
unfolding existing
existing-none s v key h = elim (Option-cases (Map.get key s.idempotency)) [
  | inl e ↦ e
  | inr (id, e) ↦ let (t, read, k) = v.known id key e in absurd (cc (rw (e, existing) at h, read))
]

module _ (env : Env) (call : Call) (s : KanbanStore) (v : IsKanban s)
    (fresh : Fresh call s.chronicle) where
  -- A commit at sequence 1 succeeds only where the id is free.
  commit_first :
      (event : NewEvent Body) (next : KanbanTask) {t : KanbanTask} {s' : KanbanStore}
      → event.event_id ≡ call.event_id
      → commit env call next.id event 1 next s ≡ ok (t, s')
      → get s next.id ≡ none
  unfolding commit
  commit_first event next drawn h = elim (Option-cases (get s next.id)) [
    | inl e ↦ e
    | inr (t, e) ↦
        let (written, appending, _) =
          >>=-eq-ok
            (append env.registry s.chronicle (kanban_stream_id next.id) (event ∷ []) 1 call.now) _
            h in
        let unused =
          subst (λ i. All (λ row. row.event_id ≢ i) (rows s.chronicle (kanban_stream_id next.id)))
            (sym drawn) (fresh (kanban_stream_id next.id)) in
        let (first, _) =
          fresh_append env.registry s.chronicle written.1 (kanban_stream_id next.id) event 1
            call.now v.chronicle unused appending in
        let a = get-named s v next.id t e in
        absurd (
          first_row (rows s.chronicle (kanban_stream_id next.id)) a.folded
            (omega (arith, v.chronicle.counted (kanban_stream_id next.id))) a.folds)
  ]

  -- A `create` that succeeds returned the task that has the key, and changed nothing; or the key
  -- was not known, the new task fits the schema, its id was free, and it was committed.
  pub data Created (init : NewKanbanTaskInit) (t : KanbanTask) (s' : KanbanStore) : Type 0 where
    repeated : existing s init.idempotency_key ≡ some t → s' ≡ s → Created init t s'
    made :
        existing s init.idempotency_key ≡ none
        → t ≡ drafted call.fresh_id call.now init
        → task_schema env.is_uuid t ≡ true
        → get s t.id ≡ none
        → Committed s (kanban_task_created_event call t) t s'
        → Created init t s'

  drafted_version :
      (init : NewKanbanTaskInit) (task : KanbanTask)
      → task ≡ drafted call.fresh_id call.now init
      → task.version ≡ 1
  unfolding drafted
  drafted_version init task same = ap (λ (u : KanbanTask). u.version) same

  drafted_key :
      (init : NewKanbanTaskInit) (task : KanbanTask)
      → task ≡ drafted call.fresh_id call.now init
      → existing s init.idempotency_key ≡ none
      → KeyFits s none task
  unfolding drafted
  drafted_key init task same absent key k =
      let e : init.idempotency_key ≡ some key =
        ap (λ (u : KanbanTask). u.idempotency_key) (sym same) ∙ k in
      existing-none s v key (subst (λ o. existing s o ≡ none) e absent)

  created :
      (init : NewKanbanTaskInit) (task : KanbanTask) {t : KanbanTask} {s' : KanbanStore}
      → existing s init.idempotency_key ≡ none
      → task ≡ drafted call.fresh_id call.now init
      → task_schema env.is_uuid task ≡ true
      → commit env call task.id (kanban_task_created_event call task) 1 task s ≡ ok (t, s')
      → Created init t s'
  unfolding new_chronicle_event fold_task
  created init task {s'} absent same valid h =
      let free = commit_first (kanban_task_created_event call task) task refl h in
      let (result, done) =
        commit-Committed env call s v fresh (kanban_task_created_event call task) task 1 none refl
          (drafted_version init task same) free (drafted_key init task same absent)
          (λ folded _. (task, refl, refl)) h in
      made absent (result ∙ same) (subst (λ u. task_schema env.is_uuid u ≡ true) (sym result) valid)
        (subst (λ (u : KanbanTask). get s u.id ≡ none) (sym result) free)
        (subst (λ u. Committed s (kanban_task_created_event call u) u s') (sym result) done)

  -- A `create` that succeeds with a fresh event id, in a state where projection and log agree, returned
  -- the task that has the key and changed nothing; or the key was not known, the new task fits the
  -- schema, its id was free, and it was committed.
  pub create-Created :
      (init : NewKanbanTaskInit) {t : KanbanTask} {s' : KanbanStore}
      → create env call init s ≡ ok (t, s')
      → Created init t s'
  unfolding create
  create-Created init {t} {s'} h = elim (Option-cases (existing s init.idempotency_key)) [
    | inl e ↦
        let (task, parsed, committing) =
          >>=-eq-ok (new_kanban_task env.is_uuid call.fresh_id call.now init) _
            (rw (e, create) at h) in
        let (same, valid) = new_kanban_task-eq-ok env.is_uuid call.fresh_id call.now init parsed in
        created init task e same valid committing
    | inr (old, e) ↦
        let h' : ok (old, s) ≡ ok (t, s') = rw (e, create) at h in
        repeated (e ∙ ap some (ok-fst h')) (sym (ok-snd h'))
  ]
