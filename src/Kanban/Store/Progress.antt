-- ===== src/Kanban/Store/Progress.antt =====
-- The operations succeed where nothing stands against them.
use bee_agent.Prelude.{
  ℕ, ◌+◌, String, ◌≡◌, sym, ap, subst, ◌∙◌, ◌⊎◌, inl, inr, Bool, true, false, refl, Option, none,
  some, [], ◌∷◌, arith, Result, ok, ◌==◌, length,
}
use bee_agent.Prelude.Map
use bee_agent.Errors.{Error}
use bee_agent.Chronicle.{
  NewEvent, envelope_schema, rows, get_latest_sequence, validate_new, validate_all,
  new_chronicle_event,
}
use bee_agent.Chronicle.Appending.{append-Appended}
use bee_agent.Kanban.Status.{can_transition}
use bee_agent.Kanban.Task.{KanbanTask, task_schema}
use bee_agent.Kanban.Construct.{NewKanbanTaskInit, new_kanban_task, parse_task, drafted}
use bee_agent.Kanban.Transition.{KanbanTransitionCommand, apply_transition, transitioned}
use bee_agent.Kanban.Fold.{holds_lease, renewed, with_comment}
use bee_agent.Kanban.Store.{
  KanbanStore, Env, KanbanTaskUpdate, get, index, existing, commit, create, transition, renew_lease,
  update, comment, patched, new_comment,
}
use bee_agent.Kanban.Store.Invariant.{Holds, IsKanban}
use bee_agent.Kanban.Store.Operations.{get-named}
use bee_agent.Kanban.Store.History.{
  Operation, creates, transitions, renews, updates, comments, perform,
}
use bee_agent.Events.{
  Body, Call, type_of, kanban_payload_schema, kanban_stream_id, kanban_task_created_event,
  kanban_task_status_changed_event, kanban_task_lease_renewed_event, kanban_task_updated_event,
  kanban_task_commented_event,
}

-- The registry has the kanban events, each with the schema of its payload.
pub record Registered (env : Env) : Type 0 where
  pub types : env.registry.type_of ≡ type_of
  pub same_uuid : env.registry.is_uuid ≡ env.is_uuid
  pub entries :
      (body : Body)
      → kanban_payload_schema env.is_uuid body ≡ true
      → Map.get (type_of body) env.registry.types
        ≡ some (record { payload = kanban_payload_schema env.is_uuid; ignorable = false })

-- An event that fits the schemas of its envelope and of its payload.
abbrev pub Fits : Env → NewEvent Body → Type 0
Fits env event =
    (envelope_schema env.is_uuid (type_of event.body) event ≡ true)
    × (kanban_payload_schema env.is_uuid event.body ≡ true)

-- What the caller owes: a task that exists, at the expected version, and so on, and values of which
-- the event that is written fits the schemas.
abbrev pub Admissible : Env → Call → KanbanStore → Operation → Type 0
Admissible env call s (creates init) =
    ((t : KanbanTask) × (existing s init.idempotency_key ≡ some t))
    ⊎ ((existing s init.idempotency_key ≡ none)
        × (task_schema env.is_uuid (drafted call.fresh_id call.now init) ≡ true)
        × (get s (drafted call.fresh_id call.now init).id ≡ none)
        × Fits env (kanban_task_created_event call (drafted call.fresh_id call.now init)))
Admissible env call s (transitions id c) =
    (t : KanbanTask) × (get s id ≡ some t)
    × (c.expected_version ≡ t.version)
    × (can_transition t.status c.to ≡ true)
    × Fits env (kanban_task_status_changed_event call t.status (transitioned call.now t c) c.reason)
Admissible env call s (renews id lease_id expires_at) =
    (t : KanbanTask) × (get s id ≡ some t)
    × (holds_lease t lease_id ≡ true)
    × Fits env (kanban_task_lease_renewed_event call id lease_id expires_at)
Admissible env call s (updates id p) =
    (t : KanbanTask) × (get s id ≡ some t)
    × (p.expected_version ≡ t.version)
    × (task_schema env.is_uuid (patched call.now t p) ≡ true)
    × Fits env (kanban_task_updated_event call (patched call.now t p))
Admissible env call s (comments id author body at) =
    (t : KanbanTask) × (get s id ≡ some t)
    × Fits env (kanban_task_commented_event call id (new_comment call author body at))

abbrev Succeeds : Result Error (KanbanTask × KanbanStore) → Type 0
Succeeds r = (t : KanbanTask) × (s' : KanbanStore) × (r ≡ ok (t, s'))

apply_transition_succeeds :
    (now : ℕ) (t : KanbanTask) (c : KanbanTransitionCommand)
    → c.expected_version ≡ t.version
    → can_transition t.status c.to ≡ true
    → apply_transition now t c ≡ ok (transitioned now t c)
unfolding apply_transition
apply_transition_succeeds now t c expected legal = ground arith

parse_task_succeeds :
    (is_uuid : String → Bool) (t : KanbanTask)
    → task_schema is_uuid t ≡ true
    → parse_task is_uuid t ≡ ok t
unfolding parse_task
parse_task_succeeds is_uuid t valid = rw valid

module _ (env : Env) (registered : Registered env) (call : Call) (s : KanbanStore)
    (v : IsKanban s) where
  commit-Succeeds :
      (id : String) (event : NewEvent Body) (expected : ℕ) (next : KanbanTask)
      → Fits env event
      → expected ≡ get_latest_sequence s.chronicle (kanban_stream_id id) + 1
      → Succeeds (commit env call id event expected next s)
  unfolding commit validate_all validate_new
  commit-Succeeds id event expected next (envelope, payload) q =
      let valid : validate_all env.registry (event ∷ []) ≡ ok tt =
        rw
          (
            validate_all,
            validate_new,
            registered.types,
            registered.same_uuid,
            envelope,
            registered.entries event.body payload,
            payload,
          )
          refl in
      let (db, result, _) =
        append-Appended env.registry s.chronicle (kanban_stream_id id) event [] expected call.now
          v.chronicle valid q in
      (next, index next (record s { chronicle = db }), rw (commit, result))

  -- The version of a task is the tail of its stream.
  version_tail :
      (id : String) (t : KanbanTask)
      → get s id ≡ some t
      → t.version ≡ get_latest_sequence s.chronicle (kanban_stream_id id)
  version_tail id t read =
      sym (v.chronicle.counted (kanban_stream_id id) ∙ (get-named s v id t read).version)

  empty_tail :
      (id : String) → get s id ≡ none → get_latest_sequence s.chronicle (kanban_stream_id id) ≡ 0
  empty_tail id free =
      let no_rows =
        subst (λ o. Holds id o (rows s.chronicle (kanban_stream_id id))) free (v.tasks id) in
      v.chronicle.counted (kanban_stream_id id) ∙ ap length no_rows

  create-Succeeds :
      (init : NewKanbanTaskInit)
      → Admissible env call s (creates init)
      → Succeeds (create env call init s)
  unfolding create new_kanban_task new_chronicle_event
  create-Succeeds init (inl (t, known)) = (t, s, rw (create, known))
  create-Succeeds init (inr (absent, valid, free, fits)) =
      let task = drafted call.fresh_id call.now init in
      let (t, s', done) =
        commit-Succeeds task.id (kanban_task_created_event call task) 1 task fits
          (omega (arith, empty_tail task.id free)) in
      (t, s', rw (create, absent, new_kanban_task, parse_task, valid) done)

  pub transition-Succeeds :
      (id : String) (c : KanbanTransitionCommand)
      → Admissible env call s (transitions id c)
      → Succeeds (transition env call id c s)
  unfolding transition new_chronicle_event
  transition-Succeeds id c (current, read, expected, legal, fits) =
      let (t, s', done) =
        commit-Succeeds id
          (kanban_task_status_changed_event call current.status (transitioned call.now current c)
            c.reason)
          (c.expected_version + 1) (transitioned call.now current c) fits
          (omega (arith, version_tail id current read)) in
      (
        t,
        s',
        rw (transition, read, apply_transition_succeeds call.now current c expected legal) done,
      )

  renew_lease-Succeeds :
      (id lease_id : String) (expires_at : ℕ)
      → Admissible env call s (renews id lease_id expires_at)
      → Succeeds (renew_lease env call id lease_id expires_at s)
  unfolding renew_lease new_chronicle_event
  renew_lease-Succeeds id lease_id expires_at (current, read, held, fits) =
      let (t, s', done) =
        commit-Succeeds id (kanban_task_lease_renewed_event call id lease_id expires_at)
          (current.version + 1) (renewed current expires_at) fits
          (omega (arith, version_tail id current read)) in
      (t, s', rw (renew_lease, read, held) done)

  update-Succeeds :
      (id : String) (p : KanbanTaskUpdate)
      → Admissible env call s (updates id p)
      → Succeeds (update env call id p s)
  unfolding update new_chronicle_event
  update-Succeeds id p (current, read, expected, valid, fits) =
      let next = patched call.now current p in
      let (t, s', done) =
        commit-Succeeds id (kanban_task_updated_event call next) (current.version + 1) next fits
          (omega (arith, version_tail id current read)) in
      let same : (p.expected_version == current.version) ≡ true = ground arith in
      (t, s', rw (update, read, same, parse_task_succeeds env.is_uuid next valid) done)

  comment-Succeeds :
      (id author body : String) (at : Option ℕ)
      → Admissible env call s (comments id author body at)
      → Succeeds (comment env call id author body at s)
  unfolding comment new_chronicle_event
  comment-Succeeds id author body at (current, read, fits) =
      let note = new_comment call author body at in
      let (t, s', done) =
        commit-Succeeds id (kanban_task_commented_event call id note) (current.version + 1)
          (record (with_comment current note) { updated_at = note.at }) fits
          (omega (arith, version_tail id current read)) in
      (t, s', rw (comment, read) done)

  -- An operation succeeds, in a state where projection and log agree and with a registry that has
  -- the kanban event types with the schemas of their payloads: a `create` with a known key, or whose
  -- task fits the schema and has a free id; a transition of a task at its version along the table; a
  -- renewal under the held lease; an update at the version that leaves the task fitting the schema;
  -- a comment on a task that exists. Whatever writes an event does so where the event that it builds
  -- fits the schemas of its envelope and of its payload.
  pub perform_succeeds :
      (op : Operation)
      → Admissible env call s op
      → (t : KanbanTask) × (s' : KanbanStore) × (perform env call op s ≡ ok (t, s'))
  unfolding perform
  perform_succeeds (creates init) h = create-Succeeds init h
  perform_succeeds (transitions id c) h = transition-Succeeds id c h
  perform_succeeds (renews id lease_id expires_at) h = renew_lease-Succeeds id lease_id expires_at h
  perform_succeeds (updates id p) h = update-Succeeds id p h
  perform_succeeds (comments id author body at) h = comment-Succeeds id author body at h
