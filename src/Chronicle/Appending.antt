-- ===== src/Chronicle/Appending.antt =====
-- What an append does to the log: the well-formedness of both tables, the rows written, and the
-- conflicts reported.
use bee_agent.Prelude.{
  ℕ, ◌+◌, ◌≤◌, String, ◌≡◌, ◌≢◌, refl, sym, ap, subst, ◌∙◌, inl, inr, List, ◌∷◌, ◌++◌, arith,
  if◌then◌else◌, length, length-append, str_eq, str_eq_iff, ok, Bool-cases,
}
use bee_agent.Prelude.Map
use bee_agent.Prelude.Map.{get-set}
use bee_agent.Chronicle.Envelope.{NewEvent, StoredEvent}
use bee_agent.Chronicle.Validation.{Registry, validate_all}
use bee_agent.Chronicle.Store.{
  Db, empty, rows, get_latest_sequence, stamp, last_sequence, ensure_stream, write_rows,
  append_locked, append,
}
use bee_agent.Chronicle.Rows.{
  IsNumbered, IsNumbered-append, IsNumbered-stamp, length-stamp, last_sequence-stamp,
  insert_rows-stamp,
}

-- Both tables agree: the rows of a stream are numbered from 1, and its tail is their number.
pub record IsChronicle {B : Type 0} (db : Db B) : Type 0 where
  pub numbered : (stream : String) → IsNumbered stream 1 (rows db stream)
  pub counted : (stream : String) → get_latest_sequence db stream ≡ length (rows db stream)

module _ {B : Type 0} where
  -- A new database.
  pub empty-IsChronicle : IsChronicle {B = B} empty
  unfolding rows get_latest_sequence Map.get
  empty-IsChronicle = record { numbered = λ stream. tt; counted = λ stream. refl }

  -- The stream row that `INSERT OR IGNORE` adds is not seen by the readers.
  pub ensure_stream-rows : (s t : String) (db : Db B) → rows (ensure_stream s db) t ≡ rows db t
  unfolding ensure_stream rows
  ensure_stream-rows s t db = ground arith

  pub ensure_stream_known :
      (s : String) (db : Db B) → 1 ≤ get_latest_sequence db s → ensure_stream s db ≡ db
  unfolding ensure_stream get_latest_sequence
  ensure_stream_known s db h = ground arith

  pub ensure_stream-latest :
      (s t : String) (db : Db B)
      → get_latest_sequence (ensure_stream s db) t ≡ get_latest_sequence db t
  unfolding ensure_stream get_latest_sequence
  ensure_stream-latest s t db = ground (arith, get-set s t 0 db.streams, str_eq_iff s t)

  pub ensure_stream-IsChronicle :
      (s : String) (db : Db B) → IsChronicle db → IsChronicle (ensure_stream s db)
  ensure_stream-IsChronicle s db v = record {
    numbered = λ t. rw (ensure_stream-rows s t db) (v.numbered t);
    counted = λ t.
        ensure_stream-latest s t db ∙ v.counted t ∙ ap length (sym (ensure_stream-rows s t db));
  }

  -- The state after a write of `stored`.
  abbrev pub written : Db B → String → List (StoredEvent B) → Db B
  written db s stored = record {
    streams = Map.set s (last_sequence stored) db.streams;
    events = Map.set s (rows db s ++ stored) db.events;
  }

  pub rows-written :
      (db : Db B) (s t : String) (stored : List (StoredEvent B))
      → rows (written db s stored) t ≡ (if str_eq s t then rows db s ++ stored else rows db t)
  unfolding rows
  rows-written db s t stored = ground (arith, get-set s t (rows db s ++ stored) db.events)

  pub latest-written :
      (db : Db B) (s t : String) (stored : List (StoredEvent B))
      → get_latest_sequence (written db s stored) t
        ≡ (if str_eq s t then last_sequence stored else get_latest_sequence db t)
  unfolding get_latest_sequence
  latest-written db s t stored = ground (arith, get-set s t (last_sequence stored) db.streams)

  write_rows-stamp :
      (db : Db B) (s : String) (e : NewEvent B) (es : List (NewEvent B)) (now k : ℕ)
      → IsChronicle db
      → k ≡ get_latest_sequence db s + 1
      → write_rows db s (stamp s k now (e ∷ es))
        ≡ ok (stamp s k now (e ∷ es), written db s (stamp s k now (e ∷ es)))
  unfolding write_rows
  write_rows-stamp db s e es now k v q = rw (
    insert_rows-stamp s now (e ∷ es) 1 k (rows db s) (v.numbered s) (omega (arith, v.counted s)),
    write_rows,
  )

  written-IsChronicle :
      (db : Db B) (s : String) (stored : List (StoredEvent B))
      → IsChronicle db
      → IsNumbered s (1 + length (rows db s)) stored
      → last_sequence stored ≡ length (rows db s) + length stored
      → IsChronicle (written db s stored)
  written-IsChronicle db s stored v h q = record {
    numbered = λ t. rw (rows-written db s t stored) (elim (Bool-cases (str_eq s t)) [
      | inl e ↦ rw e (
          subst (λ u. IsNumbered u 1 (rows db s ++ stored)) ((str_eq_iff s t).0 e)
            (IsNumbered-append s 1 (rows db s) stored (v.numbered s) h))
      | inr e ↦ rw e (v.numbered t)
    ]);
    counted = λ t.
        rw (rows-written db s t stored, latest-written db s t stored)
          (ground (arith, length-append (rows db s) stored, v.counted t));
  }

  -- What an append at the next free sequence leaves: the batch, stamped, at the end of its stream,
  -- and every other stream as it was.
  pub record Appended (db : Db B) (s : String) (stored : List (StoredEvent B)) (db' : Db B)
      : Type 0 where
    pub chronicle : IsChronicle db'
    pub here : rows db' s ≡ rows db s ++ stored
    pub tail : get_latest_sequence db' s ≡ get_latest_sequence db s + length stored
    pub others : (t : String) → s ≢ t → rows db' t ≡ rows db t

  append_locked-next :
      (db : Db B) (s : String) (e : NewEvent B) (es : List (NewEvent B)) (k now : ℕ)
      → k ≡ get_latest_sequence db s + 1
      → append_locked db s (e ∷ es) k now
        ≡ write_rows (ensure_stream s db) s (stamp s k now (e ∷ es))
  unfolding append_locked
  append_locked-next db s e es k now q = ground (arith, ensure_stream-latest s s db)

  -- The same over a database that only has the stream's row in addition.
  write-Appended :
      (db db' : Db B) (s : String) (stored : List (StoredEvent B))
      → ((t : String) → rows db' t ≡ rows db t)
      → IsChronicle db
      → IsChronicle db'
      → IsNumbered s (1 + length (rows db s)) stored
      → last_sequence stored ≡ length (rows db s) + length stored
      → Appended db s stored (written db' s stored)
  write-Appended db db' s stored same v v' h q = record {
    chronicle = written-IsChronicle db' s stored v' (rw (same s) h) (rw (same s) q);
    here = ground (arith, rows-written db' s s stored, same s, str_eq_iff s s);
    tail = ground (arith, latest-written db' s s stored, str_eq_iff s s, v.counted s);
    others = λ t h. ground (arith, rows-written db' s t stored, same t, str_eq_iff s t);
  }

  pub append_locked-ok :
      (db : Db B) (s : String) (e : NewEvent B) (es : List (NewEvent B)) (k now : ℕ)
      → IsChronicle db
      → k ≡ get_latest_sequence db s + 1
      → (db' : Db B) × (append_locked db s (e ∷ es) k now ≡ ok (stamp s k now (e ∷ es), db'))
        × Appended db s (stamp s k now (e ∷ es)) db'
  append_locked-ok db s e es k now v q =
      let v' = ensure_stream-IsChronicle s db v in
      let q' : k ≡ get_latest_sequence (ensure_stream s db) s + 1 =
        omega (arith, ensure_stream-latest s s db) in
      let e₁ : 1 + length (rows db s) ≡ k = omega (arith, v.counted s) in
      (
        written (ensure_stream s db) s (stamp s k now (e ∷ es)),
        append_locked-next db s e es k now q
            ∙ write_rows-stamp (ensure_stream s db) s e es now k v' q',
        write-Appended db (ensure_stream s db) s (stamp s k now (e ∷ es))
            (λ t. ensure_stream-rows s t db) v v' (rw e₁ (IsNumbered-stamp s k now (e ∷ es)))
            (omega (
              arith,
              v.counted s,
              last_sequence-stamp s k now e es,
              length-stamp s k now (e ∷ es),
            )),
      )

  -- An append that Passes validation at the next free sequence succeeds: it returns the batch
  -- numbered from there, adds it at the end of the stream, advances the tail by its length,
  -- leaves every other stream as it was, and keeps both tables in agreement.
  pub append-Appended :
      (r : Registry B) (db : Db B) (s : String) (e : NewEvent B) (es : List (NewEvent B))
      (k now : ℕ)
      → IsChronicle db
      → validate_all r (e ∷ es) ≡ ok tt
      → k ≡ get_latest_sequence db s + 1
      → (db' : Db B) × (append r db s (e ∷ es) k now ≡ ok (stamp s k now (e ∷ es), db'))
        × Appended db s (stamp s k now (e ∷ es)) db'
  unfolding append
  append-Appended r db s e es k now v valid q =
      let (db', result, appended) = append_locked-ok db s e es k now v q in
      (db', rw valid result, appended)
