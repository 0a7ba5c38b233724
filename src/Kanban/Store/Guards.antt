-- ===== src/Kanban/Store/Guards.antt =====
-- The guards of the store after a successful operation: versions, keys and leases.
use bee_agent.Prelude.{
  ℕ, ◌+◌, String, ◌≡◌, ◌≢◌, sym, ap, subst, ◌∙◌, ◌⊎◌, inl, inr, false, some, arith, ok, err,
  str_eq_iff,
}
use bee_agent.Errors.{version_conflict, lease_lost}
use bee_agent.Kanban.Status.{running, status_eq_iff}
use bee_agent.Kanban.Task.{KanbanTask, KanbanClaimLease}
use bee_agent.Kanban.Construct.{NewKanbanTaskInit, drafted}
use bee_agent.Kanban.Transition.{KanbanTransitionCommand, apply_transition, transitioned}
use bee_agent.Kanban.Fold.{holds_lease}
use bee_agent.Kanban.Store.{
  KanbanStore, Env, KanbanTaskUpdate, get, existing, create, transition, renew_lease, update,
}
use bee_agent.Kanban.Store.Invariant.{IsKanban, Fresh}
use bee_agent.Kanban.Store.Operations.{get-named, transition-Transitioned}
use bee_agent.Kanban.Store.Creation.{Created, repeated, made, create-Created}
use bee_agent.Events.{Call}

transition_stale :
    (env : Env) (call : Call) (id : String) (c : KanbanTransitionCommand) (s : KanbanStore)
    (t : KanbanTask)
    → get s id ≡ some t
    → c.expected_version ≢ t.version
    → transition env call id c s ≡ err (version_conflict t.id c.expected_version t.version)
unfolding transition apply_transition
transition_stale env call id c s t read stale = rw (read, transition) (ground arith)

update_stale :
    (env : Env) (call : Call) (id : String) (p : KanbanTaskUpdate) (s : KanbanStore)
    (t : KanbanTask)
    → get s id ≡ some t
    → p.expected_version ≢ t.version
    → update env call id p s ≡ err (version_conflict id p.expected_version t.version)
unfolding update
update_stale env call id p s t read stale = rw (read, update) (ground arith)

create_known :
    (env : Env) (call : Call) (init : NewKanbanTaskInit) (s : KanbanStore) (t : KanbanTask)
    → existing s init.idempotency_key ≡ some t
    → create env call init s ≡ ok (t, s)
unfolding create
create_known env call init s t known = rw (known, create)

-- A lease other than the held one.
renew_lost :
    (env : Env) (call : Call) (id lease_id : String) (expires_at : ℕ) (s : KanbanStore)
    (t : KanbanTask)
    → get s id ≡ some t
    → holds_lease t lease_id ≡ false
    → renew_lease env call id lease_id expires_at s ≡ err (lease_lost id lease_id)
unfolding renew_lease
renew_lost env call id lease_id expires_at s t read lost = rw (read, renew_lease, lost)

lost_after :
    (now : ℕ) (t : KanbanTask) (c : KanbanTransitionCommand) (lease_id : String)
    → (c.to ≢ running)
      ⊎ ((lease : KanbanClaimLease) × (c.claim ≡ some lease) × (lease.lease_id ≢ lease_id))
    → holds_lease (transitioned now t c) lease_id ≡ false
unfolding holds_lease transitioned
lost_after now t c lease_id (inl away) = ground (arith, status_eq_iff c.to running)
lost_after now t c lease_id (inr (lease, e, other)) =
    ground (arith, status_eq_iff c.to running, str_eq_iff lease.lease_id lease_id)

module _ (env : Env) (call : Call) (s : KanbanStore) (v : IsKanban s)
    (fresh : Fresh call s.chronicle) where
  -- After a `create` with a key, that key is known for the task returned.
  existing_again :
      (init : NewKanbanTaskInit) (key : String) {t : KanbanTask} {s' : KanbanStore}
      → init.idempotency_key ≡ some key
      → Created env call s v fresh init t s'
      → existing s' (some key) ≡ some t
  unfolding existing drafted
  existing_again init key {t} k (repeated known same) =
      subst (λ u. existing u (some key) ≡ some t) (sym same)
        (subst (λ o. existing s o ≡ some t) k known)
  existing_again init key k (made _ result _ _ d) =
      rw
        (
          d.kept.keyed _ key _ d.here (ap (λ (u : KanbanTask). u.idempotency_key) result ∙ k),
          existing,
        )
        d.here

  -- Of two transitions of one task that expect one version, only the first succeeds; the other,
  -- and an update that expects that version, is refused with the conflict of the two versions.
  pub transition_once :
      (call' : Call) (id : String) (c c' : KanbanTransitionCommand) (p : KanbanTaskUpdate)
      {t : KanbanTask} {s' : KanbanStore}
      → transition env call id c s ≡ ok (t, s')
      → c'.expected_version ≡ c.expected_version
      → p.expected_version ≡ c.expected_version
      → (transition env call' id c' s'
          ≡ err (version_conflict id c'.expected_version (c.expected_version + 1)))
        × (update env call' id p s'
            ≡ err (version_conflict id p.expected_version (c.expected_version + 1)))
  unfolding transitioned
  transition_once call' id c c' p {t} {s'} h q q' =
      let d = transition-Transitioned env call s v fresh id c h in
      let version : t.version ≡ c.expected_version + 1 =
        ap (λ (u : KanbanTask). u.version) d.result ∙ ap (λ n. n + 1) (sym d.expected) in
      let named : t.id ≡ id =
        ap (λ (u : KanbanTask). u.id) d.result ∙ (get-named s v id d.current d.read).named in
      let read : get s' id ≡ some t = ap (get s') (sym named) ∙ d.committed.here in
      (
        transition_stale env call' id c' s' t read (omega arith) ∙ rw (named, version),
        update_stale env call' id p s' t read (omega arith) ∙ rw version,
      )

  -- The lease that a transition takes away.
  pub lost_by_transition :
      (id lease_id : String) (c : KanbanTransitionCommand) {t : KanbanTask} {s' : KanbanStore}
      → transition env call id c s ≡ ok (t, s')
      → (c.to ≢ running)
        ⊎ ((lease : KanbanClaimLease) × (c.claim ≡ some lease) × (lease.lease_id ≢ lease_id))
      → (get s' id ≡ some t) × (holds_lease t lease_id ≡ false)
  unfolding transitioned
  lost_by_transition id lease_id c {t} {s'} h why =
      let d = transition-Transitioned env call s v fresh id c h in
      let named : t.id ≡ id =
        ap (λ (u : KanbanTask). u.id) d.result ∙ (get-named s v id d.current d.read).named in
      (
        ap (get s') (sym named) ∙ d.committed.here,
        ap (λ u. holds_lease u lease_id) d.result ∙ lost_after call.now d.current c lease_id why,
      )

  -- After a transition to another status than `running`, every renewal is refused as lost; after
  -- one that attaches a lease, so is every renewal under another lease.
  pub renew_after_transition :
      (call' : Call) (id lease_id : String) (expires_at : ℕ) (c : KanbanTransitionCommand)
      {t : KanbanTask} {s' : KanbanStore}
      → transition env call id c s ≡ ok (t, s')
      → (c.to ≢ running)
        ⊎ ((lease : KanbanClaimLease) × (c.claim ≡ some lease) × (lease.lease_id ≢ lease_id))
      → renew_lease env call' id lease_id expires_at s' ≡ err (lease_lost id lease_id)
  renew_after_transition call' id lease_id expires_at c {t} {s'} h why =
      let (read, lost) = lost_by_transition id lease_id c h why in
      renew_lost env call' id lease_id expires_at s' t read lost

  -- A `create` that is repeated with its key returns the same task and changes nothing, whatever
  -- else the second call asks for.
  pub create_again :
      (env' : Env) (call' : Call) (init init' : NewKanbanTaskInit) (key : String) {t : KanbanTask}
      {s' : KanbanStore}
      → init.idempotency_key ≡ some key
      → init'.idempotency_key ≡ some key
      → create env call init s ≡ ok (t, s')
      → create env' call' init' s' ≡ ok (t, s')
  create_again env' call' init init' key {t} {s'} k k' h = create_known env' call' init' s' t (
      subst (λ o. existing s' o ≡ some t) (sym k')
        (existing_again init key k (create-Created env call s v fresh init h)))
