-- ===== src/Kanban/Store/Commit.antt =====
-- What `#commit` does to the invariant.
use bee_agent.Prelude.{
  String, ◌≡◌, refl, sym, ap, ◌∙◌, ◌⊎◌, inl, inr, Bool, true, false, Option, none, some, List,
  str_eq, str_eq_iff, ok, if◌then◌else◌, Bool-cases, >>=-eq-ok, ok-fst, ok-snd, [], ◌∷◌, ℕ,
}
use bee_agent.Prelude.Map
use bee_agent.Prelude.Map.{get-set}
use bee_agent.Chronicle.{Db, NewEvent, StoredEvent, append}
use bee_agent.Kanban.Task.{KanbanTask}
use bee_agent.Kanban.Fold.{fold_task, fold_stream}
use bee_agent.Kanban.Store.{KanbanStore, Env, get, index, remember, commit}
use bee_agent.Kanban.Store.Invariant.{timeless, IsKanban}
use bee_agent.Events.{Body, Call, kanban_stream_id}

pub get-index :
    (t : KanbanTask) (s : KanbanStore) (db : Db Body) (id : String)
    → get (index t (record s { chronicle = db })) id ≡ (if str_eq t.id id then some t else get s id)
unfolding get index
get-index t s db id = get-set t.id id t s.tasks

abbrev pub key_is : Option String → String → Bool
key_is none key = false
key_is (some k) key = str_eq k key

pub key_is→eq : (o : Option String) (key : String) → key_is o key ≡ true → o ≡ some key
key_is→eq none key h = cc
key_is→eq (some k) key h = ap some ((str_eq_iff k key).0 h)

pub eq→key_is : (o : Option String) (key : String) → o ≡ some key → key_is o key ≡ true
eq→key_is none key h = cc
eq→key_is (some k) key h = (str_eq_iff k key).1 (cc)

key-remember :
    (o : Option String) (id key : String) (m : Map.Map String)
    → Map.get key (remember o id m) ≡ (if key_is o key then some id else Map.get key m)
unfolding remember
key-remember none id key m = refl
key-remember (some k) id key m = get-set k key id m

pub key-index :
    (t : KanbanTask) (s : KanbanStore) (db : Db Body) (key : String)
    → Map.get key (index t (record s { chronicle = db })).idempotency
      ≡ (if key_is t.idempotency_key key then some t.id else Map.get key s.idempotency)
unfolding index
key-index t s db key = key-remember t.idempotency_key t.id key s.idempotency

-- What the event of a commit must do for the log to give the new task.
abbrev pub Folds : List (StoredEvent Body) → Body → KanbanTask → Type 0
Folds log body next =
    (folded : Option KanbanTask)
    → fold_stream none log ≡ ok folded
    → (f : KanbanTask) × (fold_task folded body ≡ ok f) × (timeless f ≡ timeless next)

-- A change of a known task keeps its key; a new task has a key that is not known.
abbrev pub KeyFits : KanbanStore → Option KanbanTask → KanbanTask → Type 0
KeyFits s (some t) next = next.idempotency_key ≡ t.idempotency_key
KeyFits s none next =
    (key : String) → next.idempotency_key ≡ some key → Map.get key s.idempotency ≡ none

module _ (s : KanbanStore) (v : IsKanban s) (next : KanbanTask) where
  -- A key of the committed task is not the key of another task.
  other_key :
      (cur : Option KanbanTask) (key j : String) (t : KanbanTask)
      → get s next.id ≡ cur
      → KeyFits s cur next
      → next.idempotency_key ≡ some key
      → get s j ≡ some t
      → t.idempotency_key ≡ some key
      → next.id ≡ j
  other_key none key j t e fits k g k' = absurd (cc (fits key k, v.keyed j key t g k'))
  other_key (some t0) key j t e fits k g k' =
      cc (v.keyed next.id key t0 e (sym fits ∙ k), v.keyed j key t g k')

  keyed_cases :
      (cur : Option KanbanTask) (j key : String) (t : KanbanTask)
      → get s next.id ≡ cur
      → KeyFits s cur next
      → (if str_eq next.id j then some next else get s j) ≡ some t
      → t.idempotency_key ≡ some key
      → (str_eq next.id j ≡ true) ⊎ (str_eq next.id j ≡ false)
      → (key_is next.idempotency_key key ≡ true) ⊎ (key_is next.idempotency_key key ≡ false)
      → (if key_is next.idempotency_key key then some next.id else Map.get key s.idempotency)
        ≡ some j
  keyed_cases cur j key t e fits g k (inl a) (inl b) = rw b (ap some ((str_eq_iff next.id j).0 a))
  keyed_cases cur j key t e fits g k (inl a) (inr b) =
      let g' : some next ≡ some t = rw a at g in
      let same : next ≡ t = cc in
      absurd (
        cc (
          b,
          eq→key_is next.idempotency_key key (ap (λ (u : KanbanTask). u.idempotency_key) same ∙ k),
        ))
  keyed_cases cur j key t e fits g k (inr a) (inl b) =
      rw b (
        ap some (other_key cur key j t e fits (key_is→eq next.idempotency_key key b) (rw a at g) k))
  keyed_cases cur j key t e fits g k (inr a) (inr b) = rw b (v.keyed j key t (rw a at g) k)

  same_key :
      (cur : Option KanbanTask) (key : String) (t : KanbanTask)
      → get s next.id ≡ cur
      → KeyFits s cur next
      → get s next.id ≡ some t
      → t.idempotency_key ≡ some key
      → next.idempotency_key ≡ some key
  same_key none key t e fits g k = cc
  same_key (some t0) key t e fits g k =
      let same : t0 ≡ t = cc in fits ∙ ap (λ (u : KanbanTask). u.idempotency_key) same ∙ k

  known_other :
      (cur : Option KanbanTask) (j key : String) (t : KanbanTask)
      → get s next.id ≡ cur
      → KeyFits s cur next
      → key_is next.idempotency_key key ≡ false
      → get s j ≡ some t
      → t.idempotency_key ≡ some key
      → (str_eq next.id j ≡ true) ⊎ (str_eq next.id j ≡ false)
      → (u : KanbanTask) × ((if str_eq next.id j then some next else get s j) ≡ some u)
        × (u.idempotency_key ≡ some key)
  known_other cur j key t e fits b g k (inr a) = (t, rw a g, k)
  known_other cur j key t e fits b g k (inl a) =
      let same : next.id ≡ j = (str_eq_iff next.id j).0 a in
      let g' : get s next.id ≡ some t = ap (get s) same ∙ g in
      absurd (cc (b, eq→key_is next.idempotency_key key (same_key cur key t e fits g' k)))

  known_cases :
      (cur : Option KanbanTask) (j key : String)
      → get s next.id ≡ cur
      → KeyFits s cur next
      → (if key_is next.idempotency_key key then some next.id else Map.get key s.idempotency)
        ≡ some j
      → (str_eq next.id j ≡ true) ⊎ (str_eq next.id j ≡ false)
      → (key_is next.idempotency_key key ≡ true) ⊎ (key_is next.idempotency_key key ≡ false)
      → (t : KanbanTask) × ((if str_eq next.id j then some next else get s j) ≡ some t)
        × (t.idempotency_key ≡ some key)
  known_cases cur j key e fits h (inl a) (inl b) =
      (next, rw a, key_is→eq next.idempotency_key key b)
  known_cases cur j key e fits h (inr a) (inl b) =
      let h' : some next.id ≡ some j = rw b at h in absurd (cc (a, (str_eq_iff next.id j).1 (cc)))
  known_cases cur j key e fits h a (inr b) =
      let (t, g, k) = v.known j key (rw b at h) in known_other cur j key t e fits b g k a

  pub index-keyed :
      (db : Db Body) (cur : Option KanbanTask) (j key : String) (t : KanbanTask)
      → get s next.id ≡ cur
      → KeyFits s cur next
      → get (index next (record s { chronicle = db })) j ≡ some t
      → t.idempotency_key ≡ some key
      → Map.get key (index next (record s { chronicle = db })).idempotency ≡ some j
  index-keyed db cur j key t e fits g k = rw (key-index next s db key) (
      keyed_cases cur j key t e fits (sym (get-index next s db j) ∙ g) k
        (Bool-cases (str_eq next.id j)) (Bool-cases (key_is next.idempotency_key key)))

  pub index-known :
      (db : Db Body) (cur : Option KanbanTask) (j key : String)
      → get s next.id ≡ cur
      → KeyFits s cur next
      → Map.get key (index next (record s { chronicle = db })).idempotency ≡ some j
      → (t : KanbanTask) × (get (index next (record s { chronicle = db })) j ≡ some t)
        × (t.idempotency_key ≡ some key)
  index-known db cur j key e fits h = rw (get-index next s db j) (
      known_cases cur j key e fits (sym (key-index next s db key) ∙ h)
        (Bool-cases (str_eq next.id j)) (Bool-cases (key_is next.idempotency_key key)))

-- A commit that succeeds, on the projection alone.
pub commit-get :
    (env : Env) (call : Call) (id : String) (event : NewEvent Body) (k : ℕ) (next : KanbanTask)
    (s : KanbanStore) {t : KanbanTask} {s' : KanbanStore}
    → commit env call id event k next s ≡ ok (t, s')
    → (t ≡ next) × ((j : String) → get s' j ≡ (if str_eq next.id j then some next else get s j))
unfolding commit
commit-get env call id event k next s h =
    let (written, appended, returned) =
      >>=-eq-ok (append env.registry s.chronicle (kanban_stream_id id) (event ∷ []) k call.now) _
        h in
    (
      sym (ok-fst returned),
      λ j. ap (λ u. get u j) (sym (ok-snd returned)) ∙ get-index next s written.1 j,
    )
