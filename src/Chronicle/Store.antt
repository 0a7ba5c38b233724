-- ===== src/Chronicle/Store.antt =====
-- adapters/storage/sqlite/src/sqlite-chronicle-store.ts. The two tables of the migration are the
-- fields of `Db`: `streams` has the rows of `chronicle_streams` in rowid order, `events` has for
-- each stream the rows of `chronicle_events` in the order of the primary key. `JSON.stringify` and
-- `JSON.parse` of a row are the identity.
use bee_agent.Prelude.{
  ℕ, suc, ◌+◌, String, Bool, true, false, not, ◌&&◌, ◌||◌, Option, none, some, or_else, List, [],
  ◌∷◌, Result, ok, err, require, ◌>>=◌, ◌>>◌, if◌then◌else◌, ltb, leb, ◌==◌, str_eq, length, filter,
}
use bee_agent.Prelude.Map
use bee_agent.Prelude.Map.{Map}
use mathlib.Core.Option
use bee_agent.Errors.{Error, sequence_conflict, constraint_violated}
use bee_agent.Chronicle.Envelope.{NewEvent, StoredEvent}
use bee_agent.Chronicle.Validation.{Registry, validate_all}

pub record Db (B : Type 0) : Type 0 where
  pub streams : Map ℕ
  pub events : Map (List (StoredEvent B))

module _ {B : Type 0} where
  abbrev pub empty : Db B
  empty = record { streams = []; events = [] }

  -- The rows of one stream, in order of sequence.
  unfoldable pub rows : Db B → String → List (StoredEvent B)
  rows db stream = or_else (Map.get stream db.events) []

  -- `getLatestSequence`, and the first query of `appendLocked`
  unfoldable pub get_latest_sequence : Db B → String → ℕ
  get_latest_sequence db stream = or_else (Map.get stream db.streams) 0

  unfoldable pub list_streams : Db B → List String
  list_streams db = Map.keys db.streams

  unfoldable pub read_stream : Db B → String → ℕ → List (StoredEvent B)
  unfolding rows
  read_stream db stream after = filter (λ row. ltb after row.sequence) (rows db stream)

  -- INSERT INTO chronicle_events, in key order; `none` where the key is taken.
  unfoldable pub insert_row : StoredEvent B → List (StoredEvent B) → Option (List (StoredEvent B))
  insert_row e [] = some (e ∷ [])
  insert_row e (x ∷ xs) =
      let later = Option.map (λ (l : List (StoredEvent B)). x ∷ l) (insert_row e xs) in
      if e.sequence == x.sequence
      then none
      else if ltb e.sequence x.sequence
      then some (e ∷ x ∷ xs)
      else later

  unfoldable pub insert_rows :
      List (StoredEvent B) → List (StoredEvent B) → Option (List (StoredEvent B))
  insert_rows [] table = some table
  insert_rows (e ∷ es) table = elim (insert_row e table) [
    | none ↦ none
    | some table' ↦ insert_rows es table'
  ]

  -- `events.map((event, index) => ({ ...event, streamId, sequence, ingestTime }))`
  unfoldable pub stamp : String → ℕ → ℕ → List (NewEvent B) → List (StoredEvent B)
  stamp stream sequence now [] = []
  stamp stream sequence now (event ∷ events) =
      record { event = event; stream_id = stream; sequence = sequence; ingest_time = now }
      ∷ stamp stream (suc sequence) now events

  -- `stored[stored.length - 1]?.sequence ?? 0`
  unfoldable pub last_sequence : List (StoredEvent B) → ℕ
  last_sequence [] = 0
  last_sequence (e ∷ []) = e.sequence
  last_sequence (e ∷ f ∷ es) = last_sequence (f ∷ es)

  -- `window.length === events.length && window.every(… eventId === events[index]?.eventId)`
  unfoldable pub same_events : List (StoredEvent B) → List (NewEvent B) → Bool
  same_events [] [] = true
  same_events (row ∷ window) (event ∷ events) =
      str_eq row.event_id event.event_id && same_events window events
  same_events _ _ = false

  -- `WHERE stream_id = ? AND sequence >= ? AND sequence < ?`
  unfoldable pub select_window : Db B → String → ℕ → ℕ → List (StoredEvent B)
  unfolding rows
  select_window db stream from to =
      filter (λ row. leb from row.sequence && ltb row.sequence to) (rows db stream)

  -- INSERT OR IGNORE INTO chronicle_streams
  unfoldable pub ensure_stream : String → Db B → Db B
  ensure_stream stream db = elim (Map.get stream db.streams) [
    | some _ ↦ db
    | none ↦ record db { streams = Map.set stream 0 db.streams }
  ]

  -- The inserts and the new tail.
  unfoldable pub write_rows :
      Db B → String → List (StoredEvent B) → Result Error (List (StoredEvent B) × Db B)
  unfolding rows
  write_rows db stream stored = do
    table ← require (insert_rows stored (rows db stream)) constraint_violated
    ok (
      stored,
      record {
        streams = Map.set stream (last_sequence stored) db.streams;
        events = Map.set stream table db.events;
      },
    )

  -- The transaction. A throw rolls it back: an error carries no new state.
  unfoldable pub append_locked :
      Db B → String → List (NewEvent B) → ℕ → ℕ → Result Error (List (StoredEvent B) × Db B)
  unfolding get_latest_sequence select_window ensure_stream write_rows
  append_locked db0 stream events expected now =
      let db = ensure_stream stream db0 in
      let next = get_latest_sequence db stream + 1 in
      let window = select_window db stream expected (expected + length events) in
      if ltb expected 1 || ltb next expected
      then err (sequence_conflict stream expected next)
      else if not (expected == next)
      then (if same_events window events
          then ok (window, db)
          else err (sequence_conflict stream expected next))
      else write_rows db stream (stamp stream expected now events)

  -- `append`: an empty batch writes nothing; every event is validated before any is written.
  unfoldable pub append :
      Registry B
      → Db B
      → String
      → List (NewEvent B)
      → ℕ
      → ℕ
      → Result Error (List (StoredEvent B) × Db B)
  append registry db stream [] expected now = ok ([], db)
  append registry db stream (event ∷ events) expected now = do
    validate_all registry (event ∷ events)
    append_locked db stream (event ∷ events) expected now
