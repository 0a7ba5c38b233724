-- ===== src/Chronicle/Outcome.antt =====
-- Every outcome of an append.
use bee_agent.Prelude.{
  ℕ, ◌+◌, ◌≤◌, ◌<◌, String, ◌≡◌, sym, subst, ◌∙◌, ◌⊎◌, inl, inr, true, false, List, [], ◌∷◌, arith,
  tests, ltb, ◌==◌, if◌then◌else◌, length, ok, err, Bool-cases, >>=-eq-ok, ok-snd,
}
use bee_agent.Errors.{sequence_conflict}
use bee_agent.Chronicle.Envelope.{NewEvent, StoredEvent}
use bee_agent.Chronicle.Validation.{Registry, validate_all}
use bee_agent.Chronicle.Store.{
  Db, get_latest_sequence, stamp, same_events, select_window, ensure_stream, append_locked, append,
}
use bee_agent.Chronicle.Appending.{
  IsChronicle, Appended, append_locked-ok, ensure_stream-rows, ensure_stream-latest,
  ensure_stream-IsChronicle,
}

module _ {B : Type 0} where
  -- What a call of `appendLocked` may do to a batch that is not empty.
  pub data Outcome (db : Db B) (s : String) (events : List (NewEvent B)) (k now : ℕ) : Type 0 where
    appended :
        (db' : Db B)
        → k ≡ get_latest_sequence db s + 1
        → append_locked db s events k now ≡ ok (stamp s k now events, db')
        → Appended db s (stamp s k now events) db'
        → Outcome db s events k now
    replayed :
        k ≤ get_latest_sequence db s
        → same_events (select_window db s k (k + length events)) events ≡ true
        → append_locked db s events k now
          ≡ ok (select_window db s k (k + length events), ensure_stream s db)
        → Outcome db s events k now
    refused :
        (k < 1)
          ⊎ (get_latest_sequence db s + 1 < k)
          ⊎ ((k ≤ get_latest_sequence db s)
              × (same_events (select_window db s k (k + length events)) events ≡ false))
        → append_locked db s events k now
          ≡ err (sequence_conflict s k (get_latest_sequence db s + 1))
        → Outcome db s events k now

  ensure_stream-window :
      (s : String) (db : Db B) (from to : ℕ)
      → select_window (ensure_stream s db) s from to ≡ select_window db s from to
  unfolding select_window
  ensure_stream-window s db from to = rw (ensure_stream-rows s s db)

  append_locked-out :
      (db : Db B) (s : String) (es : List (NewEvent B)) (k now : ℕ)
      → (k < 1) ⊎ (get_latest_sequence db s + 1 < k)
      → append_locked db s es k now ≡ err (sequence_conflict s k (get_latest_sequence db s + 1))
  unfolding append_locked
  append_locked-out db s es k now h = ground (arith, ensure_stream-latest s s db)

  pub append_locked-old :
      (db : Db B) (s : String) (es : List (NewEvent B)) (k now : ℕ)
      → 1 ≤ k
      → k ≤ get_latest_sequence db s
      → append_locked db s es k now ≡ (
          if same_events (select_window db s k (k + length es)) es
          then ok (select_window db s k (k + length es), ensure_stream s db)
          else err (sequence_conflict s k (get_latest_sequence db s + 1)))
  unfolding append_locked
  append_locked-old db s es k now h h' =
      rw (ensure_stream-latest s s db, ensure_stream-window s db k (k + length es)) (ground arith)

  old-Outcome :
      (db : Db B) (s : String) (es : List (NewEvent B)) (k now : ℕ)
      → 1 ≤ k
      → k ≤ get_latest_sequence db s
      → Outcome db s es k now
  old-Outcome db s es k now h h' =
      let e = append_locked-old db s es k now h h' in
      elim (Bool-cases (same_events (select_window db s k (k + length es)) es)) [
        | inl same ↦ replayed h' same (rw same at e)
        | inr other ↦ refused (inr (inr (h', other))) (rw other at e)
      ]

  new-Outcome :
      (db : Db B) (s : String) (e : NewEvent B) (es : List (NewEvent B)) (k now : ℕ)
      → IsChronicle db
      → k ≡ get_latest_sequence db s + 1
      → Outcome db s (e ∷ es) k now
  new-Outcome db s e es k now v q =
      let (db', result, after) = append_locked-ok db s e es k now v q in appended db' q result after

  -- A batch that is not empty is appended exactly at the next free sequence; at a sequence already
  -- taken it is a retry, which writes no row and returns the stored ones, if the stored events
  -- have its ids; every other call is refused with the conflict that names the next sequence.
  pub append_locked-Outcome :
      (db : Db B) (s : String) (e : NewEvent B) (es : List (NewEvent B)) (k now : ℕ)
      → IsChronicle db
      → Outcome db s (e ∷ es) k now
  append_locked-Outcome db s e es k now v = elim (Bool-cases (ltb k 1)) [
    | inl low ↦
        let h : k < 1 = omega tests in
        refused (inl h) (append_locked-out db s (e ∷ es) k now (inl h))
    | inr pos ↦ elim (Bool-cases (ltb (get_latest_sequence db s + 1) k)) [
      | inl high ↦
          let h : get_latest_sequence db s + 1 < k = omega tests in
          refused (inr (inl h)) (append_locked-out db s (e ∷ es) k now (inr h))
      | inr fits ↦ elim (Bool-cases (k == get_latest_sequence db s + 1)) [
        | inl next ↦ new-Outcome db s e es k now v (ground arith)
        | inr old ↦ old-Outcome db s (e ∷ es) k now (ground arith) (ground arith)
      ]
    ]
  ]

  Outcome-IsChronicle :
      (db : Db B) (s : String) (events : List (NewEvent B)) (k now : ℕ)
      {stored : List (StoredEvent B)} {db' : Db B}
      → IsChronicle db
      → Outcome db s events k now
      → append_locked db s events k now ≡ ok (stored, db')
      → IsChronicle db'
  Outcome-IsChronicle db s events k now v (appended d q e a) h =
      subst IsChronicle (ok-snd (sym e ∙ h)) a.chronicle
  Outcome-IsChronicle db s events k now v (replayed q w e) h =
      subst IsChronicle (ok-snd (sym e ∙ h)) (ensure_stream-IsChronicle s db v)
  Outcome-IsChronicle db s events k now v (refused q e) h = cc

  -- Whatever an append returns, the rows stay numbered from 1 and the tail their number.
  pub append-IsChronicle :
      (r : Registry B) (db : Db B) (s : String) (events : List (NewEvent B)) (k now : ℕ)
      {stored : List (StoredEvent B)} {db' : Db B}
      → IsChronicle db
      → append r db s events k now ≡ ok (stored, db')
      → IsChronicle db'
  unfolding append
  append-IsChronicle r db s [] k now v h = subst IsChronicle (ok-snd h) v
  append-IsChronicle r db s (e ∷ es) k now v h =
      Outcome-IsChronicle db s (e ∷ es) k now v (append_locked-Outcome db s e es k now v)
        (>>=-eq-ok (validate_all r (e ∷ es)) _ h).2
