-- ===== src/Kanban/Store/Committed.antt =====
-- A commit that succeeds: the log grows by one event, one task changes, the invariant stays.
use bee_agent.Prelude.{
  ℕ, ◌+◌, String, ◌≡◌, ◌≢◌, refl, sym, subst, ◌∙◌, inl, inr, Option, none, some, List, [], ◌∷◌,
  ◌++◌, arith, length, length-append, str_eq, str_eq_iff, ok, >>=-eq-ok, ok-fst, ok-snd, All,
  Bool-cases,
}
use bee_agent.Prelude.Map.{set-Distinct}
use bee_agent.Chronicle.{Db, NewEvent, StoredEvent, append, rows, stamp}
use bee_agent.Chronicle.Appending.{Appended}
use bee_agent.Kanban.Task.{KanbanTask}
use bee_agent.Kanban.Fold.{fold_stream}
use bee_agent.Kanban.Store.{KanbanStore, Env, get, index, commit}
use bee_agent.Kanban.Store.Invariant.{
  Agrees, Holds, IsKanban, Fresh, kanban_stream_id-ne, fold_stream-concat, fresh_append,
}
use bee_agent.Kanban.Store.Commit.{Folds, KeyFits, get-index, index-keyed, index-known}
use bee_agent.Events.{Body, Call, kanban_stream_id}

-- The state after a commit of `next` with one event.
pub record Committed (s : KanbanStore) (event : NewEvent Body) (next : KanbanTask)
    (s' : KanbanStore) : Type 0 where
  pub kept : IsKanban s'
  pub here : get s' next.id ≡ some next
  pub others : (id : String) → next.id ≢ id → get s' id ≡ get s id
  pub sequence : next.version ≡ length (rows s.chronicle (kanban_stream_id next.id)) + 1
  pub logged :
      (now : ℕ) × (rows s'.chronicle (kanban_stream_id next.id)
        ≡ rows s.chronicle (kanban_stream_id next.id)
          ++ stamp (kanban_stream_id next.id) next.version now (event ∷ []))

module _ (s : KanbanStore) (v : IsKanban s) (event : NewEvent Body) (next : KanbanTask) (now : ℕ)
    (db : Db Body) where
  -- The log that `append` leaves.
  abbrev Grown : Type 0
  Grown =
      Appended s.chronicle (kanban_stream_id next.id)
        (stamp (kanban_stream_id next.id) next.version now (event ∷ [])) db

  abbrev indexed : KanbanStore
  indexed = index next (record s { chronicle = db })

  grown_here :
      Grown
      → next.version ≡ length (rows s.chronicle (kanban_stream_id next.id)) + 1
      → Folds (rows s.chronicle (kanban_stream_id next.id)) event.body next
      → (folded : Option KanbanTask)
      → fold_stream none (rows s.chronicle (kanban_stream_id next.id)) ≡ ok folded
      → Agrees next.id next (rows db (kanban_stream_id next.id))
  unfolding stamp
  grown_here g q folds folded e =
      let (f, step, same) = folds folded e in
      rw g.here (record {
        named = refl;
        version = omega (
          arith,
          length-append (rows s.chronicle (kanban_stream_id next.id))
              (stamp (kanban_stream_id next.id) next.version now (event ∷ [])),
        );
        folded = f;
        folds = fold_stream-concat _ _ folded f e step;
        similar = same;
      })

  grown-Holds :
      Grown
      → next.version ≡ length (rows s.chronicle (kanban_stream_id next.id)) + 1
      → Folds (rows s.chronicle (kanban_stream_id next.id)) event.body next
      → (folded : Option KanbanTask)
      → fold_stream none (rows s.chronicle (kanban_stream_id next.id)) ≡ ok folded
      → (id : String) → Holds id (get indexed id) (rows db (kanban_stream_id id))
  grown-Holds g q folds folded e id =
      rw (get-index next s db id) (elim (Bool-cases (str_eq next.id id)) [
        | inl same ↦ rw same (
            subst (λ j. Agrees j next (rows db (kanban_stream_id j)))
              ((str_eq_iff next.id id).0 same) (grown_here g q folds folded e))
        | inr other ↦
            rw
              (
                other,
                g.others (kanban_stream_id id)
                    (kanban_stream_id-ne next.id id (λ e. cc (other, (str_eq_iff next.id id).1 e))),
              )
              (v.tasks id)
      ])

  grown_Committed :
      (cur : Option KanbanTask)
      → get s next.id ≡ cur
      → KeyFits s cur next
      → Grown
      → next.version ≡ length (rows s.chronicle (kanban_stream_id next.id)) + 1
      → Folds (rows s.chronicle (kanban_stream_id next.id)) event.body next
      → (folded : Option KanbanTask)
      → fold_stream none (rows s.chronicle (kanban_stream_id next.id)) ≡ ok folded
      → Committed s event next indexed
  unfolding index
  grown_Committed cur e fits g q folds folded h = record {
    kept = record {
      chronicle = g.chronicle;
      tasks = grown-Holds g q folds folded h;
      distinct = set-Distinct next.id next s.tasks v.distinct;
      keyed = λ j key t g k. index-keyed s v next db cur j key t e fits g k;
      known = λ j key h. index-known s v next db cur j key e fits h;
    };
    here = rw (get-index next s db next.id, (str_eq_iff next.id next.id).1 refl);
    others = λ id other. get-index next s db id ∙ (ground (arith, str_eq_iff next.id id));
    sequence = q;
    logged = (now, g.here);
  }

-- The fold over a stream of a well-formed store succeeds.
pub folds_some :
    (id : String) (o : Option KanbanTask) (log : List (StoredEvent Body))
    → Holds id o log
    → (folded : Option KanbanTask) × (fold_stream none log ≡ ok folded)
unfolding fold_stream
folds_some id none log h = (none, rw h)
folds_some id (some t) log h = (some h.folded, h.folds)

module _ (env : Env) (call : Call) (s : KanbanStore) (v : IsKanban s)
    (fresh : Fresh call s.chronicle) where
  -- A commit that succeeds was made at the sequence that the new version names, and returns the
  -- task that it was given.
  pub commit-Committed :
      (event : NewEvent Body) (next : KanbanTask) (expected : ℕ) (cur : Option KanbanTask)
      {r : KanbanTask} {s' : KanbanStore}
      → event.event_id ≡ call.event_id
      → next.version ≡ expected
      → get s next.id ≡ cur
      → KeyFits s cur next
      → Folds (rows s.chronicle (kanban_stream_id next.id)) event.body next
      → commit env call next.id event expected next s ≡ ok (r, s')
      → (r ≡ next) × Committed s event next s'
  unfolding commit
  commit-Committed event next expected cur {r} {s'} fresh_id q e fits folds h =
      let (written, appending, rest) =
        >>=-eq-ok
          (append env.registry s.chronicle (kanban_stream_id next.id) (event ∷ []) expected
            call.now)
          _ h in
      let unused =
        subst (λ i. (stream : String) → All (λ row. row.event_id ≢ i) (rows s.chronicle stream))
          (sym fresh_id) fresh in
      let (seq, grown) =
        fresh_append env.registry s.chronicle written.1 (kanban_stream_id next.id) event expected
          call.now v.chronicle (unused (kanban_stream_id next.id)) appending in
      let (folded, folds_to) = folds_some next.id (get s next.id) _ (v.tasks next.id) in
      let done =
        grown_Committed s v event next call.now written.1 cur e fits
          (subst
            (λ k.
              Appended s.chronicle (kanban_stream_id next.id)
                (stamp (kanban_stream_id next.id) k call.now (event ∷ [])) written.1)
            (sym q) grown)
          (omega (arith, v.chronicle.counted (kanban_stream_id next.id))) folds folded folds_to in
      (ok-fst (sym rest), subst (Committed s event next) (ok-snd rest) done)
