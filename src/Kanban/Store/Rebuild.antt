-- ===== src/Kanban/Store/Rebuild.antt =====
-- `rebuild` recovers the projection from the log.
use bee_agent.Prelude.{
  ℕ, ◌≤◌, String, ◌≡◌, refl, sym, ap, subst, ◌∙◌, inl, inr, true, Option, none, some, List, [], ◌∷◌,
  arith, length, any_of, str_eq, str_eq_iff, ok, Bool-cases, or_else, Result, ok-injective,
}
use bee_agent.Errors.{Error}
use bee_agent.Prelude.Map
use bee_agent.Prelude.Map.{Map}
use bee_agent.Prelude.Text.{◌⧺◌, has_prefix, has_prefix-append, prefix_rest}
use bee_agent.Chronicle.{StoredEvent, rows, get_latest_sequence, list_streams}
use bee_agent.Chronicle.Reading.{read_stream-drop}
use bee_agent.Kanban.Task.{KanbanTask}
use bee_agent.Kanban.Fold.{fold_stream}
use bee_agent.Kanban.Store.{
  KanbanStore, opened, get, index, rebuild_stream, rebuild_streams, rebuild,
}
use bee_agent.Kanban.Store.Invariant.{timeless, Holds, IsKanban, kanban_stream_id-injective}
use bee_agent.Kanban.Store.Operations.{get-named}
use bee_agent.Events.{Body, kanban_stream_id}
use bee_agent.Kanban.Store.Partial.{IsPartial, Covers, Step, index-Step, skip-Step}

-- Two reads of one id that differ in `updatedAt` at most.
abbrev pub SameTask : Option KanbanTask → Option KanbanTask → Type 0
SameTask none none = Unit
SameTask (some u) (some t) = timeless u ≡ timeless t
SameTask _ _ = ⊥

-- The text of a stream row that has rows is listed.
listed :
    (key : String) (m : Map ℕ)
    → 1 ≤ or_else (Map.get key m) 0
    → any_of (λ k. str_eq k key) (Map.keys m) ≡ true
unfolding Map.get
listed key [] h = absurd (omega arith)
listed key ((j, v) ∷ m) h = elim (Bool-cases (str_eq j key)) [
  | inl e ↦ rw e
  | inr e ↦ rw e (listed key m (rw e at h))
]

kanban_prefix : (id : String) → has_prefix (kanban_stream_id id) "kanban:" ≡ true
unfolding kanban_stream_id
kanban_prefix id = has_prefix-append "kanban:" id

kanban_stream_id_lem : (id : String) → "kanban:" ⧺ id ≡ kanban_stream_id id
unfolding kanban_stream_id
kanban_stream_id_lem id = refl

-- A stream that folds to a task has rows.
rows_pos :
    (log : List (StoredEvent Body)) (f : KanbanTask)
    → fold_stream none log ≡ ok (some f)
    → 1 ≤ length log
unfolding fold_stream
rows_pos [] f e = cc (ok-injective e)
rows_pos (x ∷ xs) f e = omega arith

-- What a projection rebuilt from a log has in common with the one that wrote it.
pub record Recovered (s s' : KanbanStore) : Type 0 where
  pub tasks : (id : String) → SameTask (get s' id) (get s id)
  pub idempotency : (key : String) → Map.get key s'.idempotency ≡ Map.get key s.idempotency
  pub log : s'.chronicle ≡ s.chronicle

module _ (s : KanbanStore) (v : IsKanban s) where
  -- What the step does on a stream of the board.
  abbrev continue : KanbanStore → Option KanbanTask → KanbanStore
  continue a none = a
  continue a (some t) = index t a

  rebuild_kanban :
      (id : String) (a : KanbanStore) (folded : Option KanbanTask)
      → fold_stream none (rows s.chronicle (kanban_stream_id id)) ≡ ok folded
      → rebuild_stream s.chronicle (kanban_stream_id id) a ≡ ok (continue a folded)
  unfolding rebuild_stream
  rebuild_kanban id a folded e =
      rw (kanban_prefix id, read_stream-drop s.chronicle (kanban_stream_id id) 0 v.chronicle, e)
        (continues folded)
    where
      continues :
          (o : Option KanbanTask)
          → ◌≡◌ {A = Result Error KanbanStore}
              (ok (elim o [ none ↦ a | some t ↦ index t a ]))
              (ok (continue a o))
      continues none = refl
      continues (some t) = refl

  rebuild_kanban-Step :
      (id : String) (o : Option KanbanTask) (a : KanbanStore)
      → get s id ≡ o
      → Holds id o (rows s.chronicle (kanban_stream_id id))
      → IsPartial s v a
      → (a' : KanbanStore) × (rebuild_stream s.chronicle (kanban_stream_id id) a ≡ ok a')
        × Step s v (kanban_stream_id id) a a'
  unfolding fold_stream
  rebuild_kanban-Step id none a e h p = (
    a,
    rebuild_kanban id a none (rw h),
    skip-Step s v (kanban_stream_id id) a
        (λ j q. subst (λ i. get s i ≡ none) (kanban_stream_id-injective id j q) e) p,
  )
  rebuild_kanban-Step id (some t) a e h p =
      let named : h.folded.id ≡ id = ap (λ (u : KanbanTask). u.id) h.similar ∙ h.named in
      (
        index h.folded a,
        rebuild_kanban id a (some h.folded) h.folds,
        subst (λ i. Step s v (kanban_stream_id i) a (index h.folded a)) named
            (index-Step s v h.folded t a (ap (get s) named ∙ e) h.similar p),
      )

  rebuild_stream-Step :
      (stream : String) (a : KanbanStore)
      → IsPartial s v a
      → (a' : KanbanStore) × (rebuild_stream s.chronicle stream a ≡ ok a') × Step s v stream a a'
  unfolding rebuild_stream
  rebuild_stream-Step stream a p = elim (Bool-cases (has_prefix stream "kanban:")) [
    | inl e ↦
        let (id, q) = prefix_rest stream "kanban:" e in
        subst (λ i. (a' : KanbanStore) × (rebuild_stream s.chronicle i a ≡ ok a') × Step s v i a a')
          (sym (q ∙ kanban_stream_id_lem id))
          (rebuild_kanban-Step id (get s id) a refl (v.tasks id) p)
    | inr e ↦ (
      a,
      rw e,
      skip-Step s v stream a
          (λ id q. absurd (cc (e, ap (λ i. has_prefix i "kanban:") q, kanban_prefix id))) p,
    )
  ]

  -- After the loop every listed task is there.
  record Rebuilt (streams : List String) (a a' : KanbanStore) : Type 0 where
    partial : IsPartial s v a'
    log : a'.chronicle ≡ a.chronicle
    keeps : (id : String) → Covers s v id a → Covers s v id a'
    adds :
        (id : String)
        → any_of (λ k. str_eq k (kanban_stream_id id)) streams ≡ true
        → Covers s v id a'

  rebuild_streams-Rebuilt :
      (streams : List String) (a : KanbanStore)
      → IsPartial s v a
      → (a' : KanbanStore) × (rebuild_streams s.chronicle streams a ≡ ok a') × Rebuilt streams a a'
  unfolding rebuild_streams
  rebuild_streams-Rebuilt [] a p =
      (a, refl, record { partial = p; log = refl; keeps = λ id c. c; adds = λ id h. cc })
  rebuild_streams-Rebuilt (stream ∷ streams) a p =
      let (a₁, e, st) = rebuild_stream-Step stream a p in
      let (a₂, e', r) = rebuild_streams-Rebuilt streams a₁ st.partial in
      (
        a₂,
        rw e e',
        record {
          partial = r.partial;
          log = r.log ∙ st.log;
          keeps = λ id c. r.keeps id (st.keeps id c);
          adds = λ id h. elim (Bool-cases (str_eq stream (kanban_stream_id id))) [
            | inl here ↦ r.keeps id (st.adds id ((str_eq_iff stream (kanban_stream_id id)).0 here))
            | inr there ↦ r.adds id (rw there at h)
          ];
        },
      )

  opened-IsPartial : IsPartial s v (opened s.chronicle)
  unfolding get Map.get
  opened-IsPartial = record { sound = λ id u e. cc; keys = λ id key e. cc }

  Rebuilt-Covers :
      (a' : KanbanStore)
      → Rebuilt (list_streams s.chronicle) (opened s.chronicle) a'
      → (id : String) (t : KanbanTask) → get s id ≡ some t
      → Covers s v id a'
  unfolding list_streams get_latest_sequence
  Rebuilt-Covers a' r id t e =
      let a = get-named s v id t e in
      r.adds id (
        listed (kanban_stream_id id) s.chronicle.streams (
          rw (v.chronicle.counted (kanban_stream_id id))
            (rows_pos (rows s.chronicle (kanban_stream_id id)) a.folded a.folds)))

  same_task :
      (a' : KanbanStore)
      → IsPartial s v a'
      → (id : String) (o o' : Option KanbanTask) → get s id ≡ o
      → get a' id ≡ o'
      → ((t : KanbanTask) → get s id ≡ some t → Covers s v id a')
      → SameTask o' o
  same_task a' p id none none e e' c = tt
  same_task a' p id none (some u) e e' c = let (t, h, _) = p.sound id u e' in absurd (cc (e, h))
  same_task a' p id (some t) none e e' c = let (u, h, _) = (c t e).task t e in absurd (cc (e', h))
  same_task a' p id (some t) (some u) e e' c =
      let (t', h, same) = p.sound id u e' in let q : t' ≡ t = cc in same ∙ ap timeless q

  same_key :
      (a' : KanbanStore)
      → Rebuilt (list_streams s.chronicle) (opened s.chronicle) a'
      → (key : String) (o o' : Option String) → Map.get key s.idempotency ≡ o
      → Map.get key a'.idempotency ≡ o'
      → o' ≡ o
  same_key a' r key none none e e' = refl
  same_key a' r key none (some id) e e' = absurd (cc (e, r.partial.keys id key e'))
  same_key a' r key (some id) o' e e' =
      let (t, read, k) = v.known id key e in
      sym e' ∙ (Rebuilt-Covers a' r id t read).key t key read k

  -- Replaying the log succeeds, and gives for every id the task of the projection that wrote it,
  -- except that `updatedAt` may differ, and the same index of idempotency keys.
  pub rebuild-Recovered : (s' : KanbanStore) × (rebuild s.chronicle ≡ ok s') × Recovered s s'
  unfolding rebuild
  rebuild-Recovered =
      let (a', e, r) =
        rebuild_streams-Rebuilt (list_streams s.chronicle) (opened s.chronicle) opened-IsPartial in
      (
        a',
        e,
        record {
          tasks = λ id.
              same_task a' r.partial id (get s id) (get a' id) refl refl
                (λ t h. Rebuilt-Covers a' r id t h);
          idempotency = λ key.
              same_key a' r key (Map.get key s.idempotency) (Map.get key a'.idempotency) refl refl;
          log = r.log;
        },
      )
