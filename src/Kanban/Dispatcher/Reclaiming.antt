-- ===== src/Kanban/Dispatcher/Reclaiming.antt =====
-- What `reclaimExpired` releases, and what it leaves.
use bee_agent.Prelude.{
  ℕ, suc, String, ◌≡◌, ◌≢◌, refl, sym, ap, subst, ◌∙◌, inl, inr, true, false, none, some, List, [],
  ◌∷◌, ◌++◌, Result, ok, err, >>=-eq-ok, require-eq-ok, str_eq, str_eq_iff, str_eq_refl,
  if◌then◌else◌, Bool-cases,
}
use bee_agent.Errors.{Error}
use bee_agent.Kanban.Status.{ready}
use bee_agent.Kanban.Task.{KanbanTask}
use bee_agent.Kanban.Transition.{KanbanTransitionCommand, apply_transition, transitioned}
use bee_agent.Kanban.Store.{KanbanStore, Env, get, transition}
use bee_agent.Kanban.Store.Commit.{commit-get}
use bee_agent.Kanban.Store.Operations.{apply_transition-eq-ok}
use bee_agent.Kanban.Dispatcher.{lapsed, move_at, reclaim_loop}
use bee_agent.Events.{Call}

-- Every task is kept under its id.
abbrev pub Named : KanbanStore → Type 0
Named s = (id : String) (t : KanbanTask) → get s id ≡ some t → t.id ≡ id

-- A transition that succeeds, on the projection alone.
record Moved (id : String) (c : KanbanTransitionCommand) (now : ℕ) (s s' : KanbanStore)
    : Type 0 where
  current : KanbanTask
  read : get s id ≡ some current
  moves :
      (j : String)
      → get s' j ≡ (
          if str_eq (transitioned now current c).id j
          then some (transitioned now current c)
          else get s j)

transition-Moved :
    (env : Env) (call : Call) (id : String) (c : KanbanTransitionCommand) (s : KanbanStore)
    {t : KanbanTask} {s' : KanbanStore}
    → transition env call id c s ≡ ok (t, s')
    → Moved id c call.now s s'
unfolding transition
transition-Moved env call id c s {t} {s'} h =
    let (current, read, rest) = require-eq-ok (get s id) _ _ h in
    let (next, applied, committing) = >>=-eq-ok (apply_transition call.now current c) _ rest in
    let (expected, legal, result) = apply_transition-eq-ok call.now current c applied in
    let (_, moves) = commit-get env call id _ _ next s committing in
    record {
      current = current;
      read = read;
      moves =
          subst (λ u. (j : String) → get s' j ≡ (if str_eq u.id j then some u else get s j)) result
            moves;
    }

-- A task that was released: ready, under no lease.
pub record Freed (s : KanbanStore) (id : String) : Type 0 where
  pub task : KanbanTask
  pub read : get s id ≡ some task
  pub is_ready : task.status ≡ ready
  pub unclaimed : task.claim ≡ none

-- One release: names are kept, the task is freed, and no other changes.
pub record Released (id : String) (s s' : KanbanStore) : Type 0 where
  pub named : Named s'
  pub freed : Freed s' id
  pub others : (j : String) → id ≢ j → get s' j ≡ get s j

moved_here :
    (now now' : ℕ) (task current : KanbanTask) (s' : KanbanStore)
    → get s' current.id ≡ some (transitioned now' current (move_at ready none now task))
    → Freed s' current.id
unfolding transitioned
moved_here now now' task current s' h = record {
  task = transitioned now' current (move_at ready none now task);
  read = h;
  is_ready = refl;
  unclaimed = refl;
}

Moved-Released :
    (id : String) (now now' : ℕ) (task : KanbanTask) (s s' : KanbanStore)
    → Named s
    → Moved id (move_at ready none now task) now' s s'
    → Released id s s'
unfolding transitioned
Moved-Released id now now' task s s' v m =
    let here : m.current.id ≡ id = v id m.current m.read in
    let next : KanbanTask = transitioned now' m.current (move_at ready none now task) in
    record {
      named = λ j t read. elim (Bool-cases (str_eq m.current.id j)) [
        | inl e ↦
            let q : some next ≡ some t = rw e at (sym (m.moves j) ∙ read) in
            let q' : next ≡ t = cc in
            ap (λ (u : KanbanTask). u.id) (sym q') ∙ (str_eq_iff m.current.id j).0 e
        | inr e ↦ v j t (rw e at (sym (m.moves j) ∙ read))
      ];
      freed = subst (Freed s') here (
          moved_here now now' task m.current s'
            (m.moves m.current.id ∙ rw (str_eq_refl m.current.id)));
      others = λ j apart. elim (Bool-cases (str_eq m.current.id j)) [
        | inl e ↦ absurd (apart (sym here ∙ (str_eq_iff m.current.id j).0 e))
        | inr e ↦ rw (m.moves j, e)
      ];
    }

module _ (env : Env) (calls : ℕ → Call) (now : ℕ) where
  release_step :
      (task : KanbanTask) (n : ℕ) (s : KanbanStore) {t : KanbanTask} {s' : KanbanStore}
      → Named s
      → transition env (calls n) task.id (move_at ready none now task) s ≡ ok (t, s')
      → Released task.id s s'
  release_step task n s {s' = s'} v h =
      Moved-Released task.id now (calls n).now task s s' v
        (transition-Moved env (calls n) task.id (move_at ready none now task) s h)

  -- What one turn of the loop came to.
  pub data Turn (task : KanbanTask) (tasks : List KanbanTask) (n : ℕ) (ids : List String)
      (s : KanbanStore) : Type 0 where
    skipped :
        lapsed now task ≡ false
        → reclaim_loop env calls now (task ∷ tasks) n ids s
          ≡ reclaim_loop env calls now tasks n ids s
        → Turn task tasks n ids s
    stopped :
        (e : Error)
        → reclaim_loop env calls now (task ∷ tasks) n ids s ≡ (err e, s)
        → Turn task tasks n ids s
    released :
        (s' : KanbanStore)
        → lapsed now task ≡ true
        → Released task.id s s'
        → reclaim_loop env calls now (task ∷ tasks) n ids s
          ≡ reclaim_loop env calls now tasks (suc n) (ids ++ task.id ∷ []) s'
        → Turn task tasks n ids s

  pub reclaim_loop-Turn :
      (task : KanbanTask) (tasks : List KanbanTask) (n : ℕ) (ids : List String) (s : KanbanStore)
      → Named s
      → Turn task tasks n ids s
  unfolding reclaim_loop
  reclaim_loop-Turn task tasks n ids s v = elim (Bool-cases (lapsed now task)) [
    | inr e ↦ skipped e (rw (e, reclaim_loop))
    | inl e ↦ lapsed_turn e (transition env (calls n) task.id (move_at ready none now task) s) refl
  ]
    where
      lapsed_turn :
          lapsed now task ≡ true
          → (r : Result Error (KanbanTask × KanbanStore))
          → transition env (calls n) task.id (move_at ready none now task) s ≡ r
          → Turn task tasks n ids s
      lapsed_turn e (err x) h = stopped x (rw (e, reclaim_loop, h))
      lapsed_turn e (ok (t, s')) h =
          released s' e (release_step task n s v h) (rw (e, reclaim_loop, h))
