-- ===== src/Chronicle/Retry.antt =====
-- Retries of an append that is already stored.
use mathlib.Core.List.{append-nil}
use bee_agent.Prelude.{
  ℕ, ◌+◌, String, ◌≡◌, subst, ap, ◌∙◌, ◌&&◌, List, [], ◌∷◌, ◌++◌, arith, ltb, leb, length,
  length-append, ok,
}
use bee_agent.Chronicle.Envelope.{NewEvent, StoredEvent}
use bee_agent.Chronicle.Validation.{Registry, validate_all}
use bee_agent.Chronicle.Store.{
  Db, rows, get_latest_sequence, stamp, select_window, append_locked, append,
}
use bee_agent.Chronicle.Rows.{
  IsNumbered, length-stamp, window_below, window_above, window_inside, filter-append,
  same_events-stamp,
}
use bee_agent.Chronicle.Appending.{IsChronicle, ensure_stream_known}
use bee_agent.Chronicle.Outcome.{append_locked-old}

module _ {B : Type 0} where
  IsNumbered-left :
      (s : String) (n : ℕ) (xs ys : List (StoredEvent B))
      → IsNumbered s n (xs ++ ys)
      → IsNumbered s n xs
  IsNumbered-left s n [] ys h = tt
  IsNumbered-left s n (x ∷ xs) ys h = (h.0, h.1, IsNumbered-left s _ xs ys h.2)

  IsNumbered-right :
      (s : String) (n : ℕ) (xs ys : List (StoredEvent B))
      → IsNumbered s n (xs ++ ys)
      → IsNumbered s (n + length xs) ys
  IsNumbered-right s n [] ys h = let e : n + 0 ≡ n = omega arith in rw e h
  IsNumbered-right s n (x ∷ xs) ys h = ground (arith, IsNumbered-right s _ xs ys h.2)

  -- The window of a stored batch is the batch.
  window_stored :
      (db : Db B) (s : String) (pre mid post : List (StoredEvent B)) (k : ℕ)
      → IsChronicle db
      → rows db s ≡ pre ++ (mid ++ post)
      → k ≡ length pre + 1
      → select_window db s k (k + length mid) ≡ mid
  unfolding select_window
  window_stored db s pre mid post k v e q =
      let all : IsNumbered s 1 (pre ++ (mid ++ post)) = subst (IsNumbered s 1) e (v.numbered s) in
      let right : IsNumbered s k (mid ++ post) =
        subst (λ n. IsNumbered s n (mid ++ post)) (omega arith) (IsNumbered-right s 1 pre _ all) in
      rw
        (
          e,
          filter-append (λ row. leb k row.sequence && ltb row.sequence (k + length mid)) pre
              (mid ++ post),
          filter-append (λ row. leb k row.sequence && ltb row.sequence (k + length mid)) mid post,
          window_below s k (k + length mid) 1 pre (IsNumbered-left s 1 pre _ all) (omega arith),
          window_inside s k (k + length mid) k mid (IsNumbered-left s k mid post right)
              (omega arith) (omega arith),
          window_above s k (k + length mid) (k + length mid) post
              (IsNumbered-right s k mid post right) (omega arith),
        )
        (append-nil mid)

  retry_locked :
      (db : Db B) (s : String) (e : NewEvent B) (es : List (NewEvent B)) (k now now' : ℕ)
      (pre post : List (StoredEvent B))
      → IsChronicle db
      → rows db s ≡ pre ++ (stamp s k now (e ∷ es) ++ post)
      → k ≡ length pre + 1
      → append_locked db s (e ∷ es) k now' ≡ ok (stamp s k now (e ∷ es), db)
  retry_locked db s e es k now now' pre post v q p =
      let same = same_events-stamp s k now (e ∷ es) in
      let count = length-stamp s k now (e ∷ es) in
      let window : select_window db s k (k + length (e ∷ es)) ≡ stamp s k now (e ∷ es) =
        subst (λ n. select_window db s k (k + n) ≡ stamp s k now (e ∷ es)) count
          (window_stored db s pre (stamp s k now (e ∷ es)) post k v q p) in
      let total : get_latest_sequence db s
          ≡ length pre + (length (stamp s k now (e ∷ es)) + length post) =
        v.counted s
        ∙ ap length q
        ∙ length-append pre _
        ∙ ap (λ n. length pre + n) (length-append (stamp s k now (e ∷ es)) post) in
      let known = ensure_stream_known s db (omega arith) in
      append_locked-old db s (e ∷ es) k now' (omega arith) (omega arith) ∙ rw (window, same, known)

  -- An append at the next free sequence can be repeated: at any later time, when its rows still
  -- follow what stood before them and any rows `post` follow them, the same batch at the same
  -- sequence returns what the first call returned and leaves the database as it is.
  pub append_retry :
      (r : Registry B) (db db' : Db B) (s : String) (e : NewEvent B) (es : List (NewEvent B))
      (k now now' : ℕ) (post : List (StoredEvent B))
      → IsChronicle db
      → IsChronicle db'
      → validate_all r (e ∷ es) ≡ ok tt
      → k ≡ get_latest_sequence db s + 1
      → rows db' s ≡ rows db s ++ (stamp s k now (e ∷ es) ++ post)
      → append r db' s (e ∷ es) k now' ≡ ok (stamp s k now (e ∷ es), db')
  unfolding append
  append_retry r db db' s e es k now now' post v v' valid q h =
      rw valid
        (retry_locked db' s e es k now now' (rows db s) post v' h (omega (arith, v.counted s)))
