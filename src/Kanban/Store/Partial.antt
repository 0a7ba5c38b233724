-- ===== src/Kanban/Store/Partial.antt =====
-- The projection that `rebuild` builds up, one stream at a time.
use bee_agent.Prelude.{
  String, ◌≡◌, ◌≢◌, refl, sym, ap, subst, ◌∙◌, inl, inr, none, some, str_eq, str_eq_iff, Bool-cases,
}
use bee_agent.Prelude.Map
use bee_agent.Prelude.Map.{Map}
use bee_agent.Kanban.Task.{KanbanTask}
use bee_agent.Kanban.Store.{KanbanStore, get, index}
use bee_agent.Kanban.Store.Invariant.{timeless, IsKanban, kanban_stream_id-injective}
use bee_agent.Kanban.Store.Commit.{get-index, key-index, key_is, key_is→eq, eq→key_is}
use bee_agent.Events.{kanban_stream_id}

module _ (s : KanbanStore) (v : IsKanban s) where
  -- A projection under construction: what it has is right.
  pub record IsPartial (a : KanbanStore) : Type 0 where
    pub sound :
        (id : String) (u : KanbanTask)
        → get a id ≡ some u
        → (t : KanbanTask) × (get s id ≡ some t) × (timeless u ≡ timeless t)
    pub keys :
        (id key : String)
        → Map.get key a.idempotency ≡ some id
        → Map.get key s.idempotency ≡ some id

  -- It has the task `id` and its key.
  pub record Covers (id : String) (a : KanbanStore) : Type 0 where
    pub task :
        (t : KanbanTask)
        → get s id ≡ some t
        → (u : KanbanTask) × (get a id ≡ some u) × (timeless u ≡ timeless t)
    pub key :
        (t : KanbanTask) (k : String)
        → get s id ≡ some t
        → t.idempotency_key ≡ some k
        → Map.get k a.idempotency ≡ some id

  -- What one step adds.
  pub record Step (stream : String) (a a' : KanbanStore) : Type 0 where
    pub partial : IsPartial a'
    pub log : a'.chronicle ≡ a.chronicle
    pub keeps : (id : String) → Covers id a → Covers id a'
    pub adds : (id : String) → stream ≡ kanban_stream_id id → Covers id a'

  module _ (f t : KanbanTask) (a : KanbanStore) (read : get s f.id ≡ some t)
      (same : timeless f ≡ timeless t) (p : IsPartial a) where
    same_key : (k : String) → f.idempotency_key ≡ some k → Map.get k s.idempotency ≡ some f.id
    same_key k e = v.keyed f.id k t read (ap (λ (u : KanbanTask). u.idempotency_key) (sym same) ∙ e)

    index_sound :
        (id : String) (u : KanbanTask)
        → get (index f a) id ≡ some u
        → (t' : KanbanTask) × (get s id ≡ some t') × (timeless u ≡ timeless t')
    index_sound id u e = elim (Bool-cases (str_eq f.id id)) [
      | inl here ↦
          let hit : some f ≡ some u = rw here at (sym (get-index f a a.chronicle id) ∙ e) in
          let e' : u ≡ f = cc in
          (t, ap (get s) (sym ((str_eq_iff f.id id).0 here)) ∙ read, ap timeless e' ∙ same)
      | inr there ↦ p.sound id u (rw there at (sym (get-index f a a.chronicle id) ∙ e))
    ]

    index-keys :
        (id key : String)
        → Map.get key (index f a).idempotency ≡ some id
        → Map.get key s.idempotency ≡ some id
    index-keys id key e = elim (Bool-cases (key_is f.idempotency_key key)) [
      | inl here ↦
          let hit : some f.id ≡ some id = rw here at (sym (key-index f a a.chronicle key) ∙ e) in
          same_key key (key_is→eq f.idempotency_key key here) ∙ hit
      | inr there ↦ p.keys id key (rw there at (sym (key-index f a a.chronicle key) ∙ e))
    ]

    -- A key of the task `id` names `id` after the step, if it did so before or `f` is that task.
    index-key :
        (id k : String) (u : KanbanTask)
        → get s id ≡ some u
        → u.idempotency_key ≡ some k
        → (f.idempotency_key ≢ some k → Map.get k a.idempotency ≡ some id)
        → Map.get k (index f a).idempotency ≡ some id
    index-key id k u e q before = elim (Bool-cases (key_is f.idempotency_key k)) [
      | inl here ↦
          rw (key-index f a a.chronicle k, here)
            (sym (same_key k (key_is→eq f.idempotency_key k here)) ∙ v.keyed id k u e q)
      | inr there ↦
          rw (key-index f a a.chronicle k, there)
            (before (λ h. cc (there, eq→key_is f.idempotency_key k h)))
    ]

    index-Covers : Covers f.id (index f a)
    index-Covers = record {
      task = λ t' e.
          let e' : t ≡ t' = cc in
          (
            f,
            rw (get-index f a a.chronicle f.id, (str_eq_iff f.id f.id).1 refl),
            same ∙ ap timeless e',
          );
      key = λ t' k e q. index-key f.id k t' e q (λ h.
          let e' : t ≡ t' = cc in
          absurd (h (ap (λ (u : KanbanTask). u.idempotency_key) (same ∙ ap timeless e') ∙ q)));
    }

    index-keeps : (id : String) → Covers id a → Covers id (index f a)
    index-keeps id c = elim (Bool-cases (str_eq f.id id)) [
      | inl here ↦ subst (λ j. Covers j (index f a)) ((str_eq_iff f.id id).0 here) index-Covers
      | inr there ↦ record {
        task = λ t' e. rw (get-index f a a.chronicle id, there) (c.task t' e);
        key = λ t' k e q. index-key id k t' e q (λ _. c.key t' k e q);
      }
    ]

    pub index-Step : Step (kanban_stream_id f.id) a (index f a)
    unfolding index
    index-Step = record {
      partial = record { sound = index_sound; keys = index-keys };
      log = refl;
      keeps = index-keeps;
      adds = λ id e.
          subst (λ j. Covers j (index f a)) (kanban_stream_id-injective f.id id e) index-Covers;
    }

  -- A stream that is skipped, or that has no rows.
  pub skip-Step :
      (stream : String) (a : KanbanStore)
      → ((id : String) → stream ≡ kanban_stream_id id → get s id ≡ none)
      → IsPartial a
      → Step stream a a
  skip-Step stream a absent p = record {
    partial = p;
    log = refl;
    keeps = λ id c. c;
    adds = λ id e. record {
      task = λ t h. absurd (cc (absent id e, h));
      key = λ t k h q. absurd (cc (absent id e, h));
    };
  }
