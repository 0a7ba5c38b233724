-- ===== src/Kanban/Store/Invariant.antt =====
-- The invariant of the store: the projection agrees with the log.
use bee_agent.Prelude.{
  ℕ, ◌+◌, String, ◌≡◌, ◌≢◌, refl, sym, subst, ◌∙◌, Bool, false, Option, none, some, List, [], ◌∷◌,
  ◌++◌, arith, length, str_eq_iff, ok, ◌>>=◌, >>=-eq-ok, ok-snd, bind_ext, bind_assoc, All, filter,
  Bool-cases, inl, inr,
}
use bee_agent.Prelude.Map
use bee_agent.Prelude.Text.{append_cancel}
use bee_agent.Chronicle.{
  Db, NewEvent, StoredEvent, Registry, append, rows, get_latest_sequence, stamp, select_window,
  same_events, validate_all, append_locked,
}
use bee_agent.Chronicle.Appending.{IsChronicle, Appended}
use bee_agent.Chronicle.Outcome.{Outcome, appended, replayed, refused, append_locked-Outcome}
use bee_agent.Kanban.Task.{KanbanTask}
use bee_agent.Kanban.Fold.{fold_task, fold_stream}
use bee_agent.Kanban.Store.{KanbanStore, get}
use bee_agent.Events.{Body, Call, kanban_stream_id}

-- A task without its `updatedAt`.
abbrev pub timeless : KanbanTask → KanbanTask
timeless t = record t { updated_at = 0 }

-- A projected task against the rows of its stream: as many rows as its version, and a fold that
-- gives the task but for `updatedAt`.
pub record Agrees (id : String) (t : KanbanTask) (log : List (StoredEvent Body)) : Type 0 where
  pub named : t.id ≡ id
  pub version : length log ≡ t.version
  pub folded : KanbanTask
  pub folds : fold_stream none log ≡ ok (some folded)
  pub similar : timeless folded ≡ timeless t

abbrev pub Holds : String → Option KanbanTask → List (StoredEvent Body) → Type 0
Holds id none log = log ≡ []
Holds id (some t) log = Agrees id t log

pub record IsKanban (s : KanbanStore) : Type 0 where
  pub chronicle : IsChronicle s.chronicle
  pub tasks : (id : String) → Holds id (get s id) (rows s.chronicle (kanban_stream_id id))
  pub distinct : Map.Distinct s.tasks
  -- every key of a task is known, for that task
  pub keyed :
      (id key : String) (t : KanbanTask)
      → get s id ≡ some t
      → t.idempotency_key ≡ some key
      → Map.get key s.idempotency ≡ some id
  -- every known key is the key of the task that it names
  pub known :
      (id key : String)
      → Map.get key s.idempotency ≡ some id
      → (t : KanbanTask) × (get s id ≡ some t) × (t.idempotency_key ≡ some key)

-- The event id that a call draws is not in the log: `randomUUID` does not repeat.
abbrev pub Fresh : Call → Db Body → Type 0
Fresh call db = (stream : String) → All (λ row. row.event_id ≢ call.event_id) (rows db stream)

pub kanban_stream_id-injective : (a b : String) → kanban_stream_id a ≡ kanban_stream_id b → a ≡ b
unfolding kanban_stream_id
kanban_stream_id-injective a b e = append_cancel "kanban:" e

pub kanban_stream_id-ne : (a b : String) → a ≢ b → kanban_stream_id a ≢ kanban_stream_id b
kanban_stream_id-ne a b h e = h (kanban_stream_id-injective a b e)

-- The fold over a longer stream goes on from the fold over its beginning.
pub fold_stream-append :
    (t : Option KanbanTask) (xs ys : List (StoredEvent Body))
    → fold_stream t (xs ++ ys) ≡ (fold_stream t xs >>= λ t'. fold_stream t' ys)
unfolding fold_stream
fold_stream-append t [] ys = refl
fold_stream-append t (x ∷ xs) ys =
    bind_ext (fold_task t x.body) (λ t'. fold_stream-append (some t') xs ys)
    ∙ sym
        (bind_assoc (fold_task t x.body) (λ t'. fold_stream (some t') xs) (λ t'. fold_stream t' ys))

pub fold_stream-concat :
    (log : List (StoredEvent Body)) (e : StoredEvent Body) (t : Option KanbanTask) (t' : KanbanTask)
    → fold_stream none log ≡ ok t
    → fold_task t e.body ≡ ok t'
    → fold_stream none (log ++ e ∷ []) ≡ ok (some t')
unfolding fold_stream
fold_stream-concat log e t t' h h' = rw (fold_stream-append none log (e ∷ []), h, fold_stream, h')

-- A window that is the batch of one event holds a row with the event's id.
fresh_window :
    (window : List (StoredEvent Body)) (e : NewEvent Body)
    → All (λ row. row.event_id ≢ e.event_id) window
    → same_events window (e ∷ []) ≡ false
unfolding same_events
fresh_window [] e h = refl
fresh_window (w ∷ ws) e h = ground (arith, h.0, str_eq_iff w.event_id e.event_id)

All-filter :
    (P : StoredEvent Body → Type 0) (p : StoredEvent Body → Bool) (xs : List (StoredEvent Body))
    → All P xs
    → All P (filter p xs)
All-filter P p [] h = tt
All-filter P p (x ∷ xs) h = elim (Bool-cases (p x)) [
  | inl e ↦ rw e (h.0, All-filter P p xs h.1)
  | inr e ↦ rw e (All-filter P p xs h.1)
]

fresh_select :
    (db : Db Body) (s : String) (e : NewEvent Body) (from to : ℕ)
    → All (λ row. row.event_id ≢ e.event_id) (rows db s)
    → same_events (select_window db s from to) (e ∷ []) ≡ false
unfolding select_window
fresh_select db s e from to h =
    fresh_window _ e (All-filter (λ row. row.event_id ≢ e.event_id) _ (rows db s) h)

fresh-Outcome :
    (db db' : Db Body) (s : String) (e : NewEvent Body) (k now : ℕ)
    {stored : List (StoredEvent Body)}
    → All (λ row. row.event_id ≢ e.event_id) (rows db s)
    → Outcome db s (e ∷ []) k now
    → append_locked db s (e ∷ []) k now ≡ ok (stored, db')
    → (k ≡ get_latest_sequence db s + 1) × Appended db s (stamp s k now (e ∷ [])) db'
fresh-Outcome db db' s e k now fresh (appended d q result after) h =
    (q, subst (Appended db s (stamp s k now (e ∷ []))) (ok-snd (sym result ∙ h)) after)
fresh-Outcome db db' s e k now fresh (replayed q same result) h =
    absurd (cc (fresh_select db s e k (k + length (e ∷ [])) fresh, same))
fresh-Outcome db db' s e k now fresh (refused q result) h = absurd (cc (result, h))

-- An append of one fresh event that succeeds was made at the next free sequence.
pub fresh_append :
    (r : Registry Body) (db db' : Db Body) (s : String) (e : NewEvent Body) (k now : ℕ)
    {stored : List (StoredEvent Body)}
    → IsChronicle db
    → All (λ row. row.event_id ≢ e.event_id) (rows db s)
    → append r db s (e ∷ []) k now ≡ ok (stored, db')
    → (k ≡ get_latest_sequence db s + 1) × Appended db s (stamp s k now (e ∷ [])) db'
unfolding append
fresh_append r db db' s e k now v fresh h =
    fresh-Outcome db db' s e k now fresh (append_locked-Outcome db s e [] k now v)
      (>>=-eq-ok (validate_all r (e ∷ [])) _ h).2
