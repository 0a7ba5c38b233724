-- ===== src/Chronicle/Rows.antt =====
-- The rows of one stream: what the inserts do to a table whose sequences run from 1 with no gap.
use bee_agent.Prelude.{
  ℕ, suc, ◌+◌, ◌≤◌, String, ◌≡◌, refl, sym, ap, ◌∙◌, Bool, true, ◌&&◌, some, List, [], ◌∷◌, ◌++◌,
  arith, ltb, leb, length, length-append, filter, str_eq_refl,
}
use mathlib.Core.List.{append-nil, append_assoc}
use bee_agent.Chronicle.Envelope.{NewEvent, StoredEvent}
use bee_agent.Chronicle.Store.{insert_row, insert_rows, stamp, last_sequence, same_events}

-- Sequences run from `n` with no gap, and every row names its stream.
abbrev pub IsNumbered : {B : Type 0} → String → ℕ → List (StoredEvent B) → Type 0
IsNumbered stream n [] = Unit
IsNumbered stream n (e ∷ es) =
    (e.sequence ≡ n) × (e.stream_id ≡ stream) × IsNumbered stream (suc n) es

module _ {B : Type 0} (stream : String) where
  pub IsNumbered-append :
      (n : ℕ) (xs ys : List (StoredEvent B))
      → IsNumbered stream n xs
      → IsNumbered stream (n + length xs) ys
      → IsNumbered stream n (xs ++ ys)
  IsNumbered-append n [] ys hx hy = let e : n + 0 ≡ n = omega arith in rw e at hy
  IsNumbered-append n (x ∷ xs) ys hx hy =
      let e : n + suc (length xs) ≡ suc n + length xs = omega arith in
      (hx.0, hx.1, IsNumbered-append (suc n) xs ys hx.2 (rw e at hy))

  pub IsNumbered-stamp :
      (n now : ℕ) (es : List (NewEvent B)) → IsNumbered stream n (stamp stream n now es)
  unfolding stamp
  IsNumbered-stamp n now [] = tt
  IsNumbered-stamp n now (e ∷ es) = (refl, refl, IsNumbered-stamp (suc n) now es)

  pub length-stamp :
      (n now : ℕ) (es : List (NewEvent B)) → length (stamp stream n now es) ≡ length es
  unfolding stamp
  length-stamp n now [] = refl
  length-stamp n now (e ∷ es) = omega (arith, length-stamp (suc n) now es)

  pub last_sequence-stamp :
      (n now : ℕ) (e : NewEvent B) (es : List (NewEvent B))
      → last_sequence (stamp stream n now (e ∷ es)) ≡ n + length es
  unfolding stamp last_sequence
  last_sequence-stamp n now e [] = omega arith
  last_sequence-stamp n now e (f ∷ es) = omega (arith, last_sequence-stamp (suc n) now f es)

  insert_row_last :
      (n : ℕ) (e : StoredEvent B) (xs : List (StoredEvent B))
      → IsNumbered stream n xs
      → e.sequence ≡ n + length xs
      → insert_row e xs ≡ some (xs ++ e ∷ [])
  unfolding insert_row
  insert_row_last n e [] h q = refl
  insert_row_last n e (x ∷ xs) h q = ground (arith, insert_row_last (suc n) e xs h.2)

  pub insert_rows-stamp :
      (now : ℕ) (es : List (NewEvent B)) (n k : ℕ) (xs : List (StoredEvent B))
      → IsNumbered stream n xs
      → k ≡ n + length xs
      → insert_rows (stamp stream k now es) xs ≡ some (xs ++ stamp stream k now es)
  unfolding stamp insert_rows
  insert_rows-stamp now [] n k xs h q = ap some (sym (append-nil xs))
  insert_rows-stamp now (e ∷ es) n k xs h q =
      let row : StoredEvent B = record {
        event = e;
        stream_id = stream;
        sequence = k;
        ingest_time = now;
      } in
      let grown : IsNumbered stream n (xs ++ row ∷ []) =
        IsNumbered-append n xs (row ∷ []) h (q, refl, tt) in
      rw (insert_row_last n row xs h q, insert_rows)
        (insert_rows-stamp now es n (suc k) (xs ++ row ∷ []) grown
            (omega (arith, length-append xs (row ∷ [])))
          ∙ ap some (append_assoc xs (row ∷ []) (stamp stream (suc k) now es)))

  pub same_events-stamp :
      (n now : ℕ) (es : List (NewEvent B)) → same_events (stamp stream n now es) es ≡ true
  unfolding stamp same_events
  same_events-stamp n now [] = refl
  same_events-stamp n now (e ∷ es) =
      ground (arith, str_eq_refl e.event_id, same_events-stamp (suc n) now es)

-- Rows below or above a window are filtered out, rows inside are kept.
module _ {B : Type 0} (stream : String) (from to : ℕ) where
  pub window_below :
      (n : ℕ) (xs : List (StoredEvent B))
      → IsNumbered stream n xs
      → n + length xs ≤ from
      → filter (λ row. leb from row.sequence && ltb row.sequence to) xs ≡ []
  window_below n [] h q = refl
  window_below n (x ∷ xs) h q = ground (arith, window_below (suc n) xs h.2)

  pub window_above :
      (n : ℕ) (xs : List (StoredEvent B))
      → IsNumbered stream n xs
      → to ≤ n
      → filter (λ row. leb from row.sequence && ltb row.sequence to) xs ≡ []
  window_above n [] h q = refl
  window_above n (x ∷ xs) h q = ground (arith, window_above (suc n) xs h.2)

  pub window_inside :
      (n : ℕ) (xs : List (StoredEvent B))
      → IsNumbered stream n xs
      → from ≤ n
      → n + length xs ≤ to
      → filter (λ row. leb from row.sequence && ltb row.sequence to) xs ≡ xs
  window_inside n [] h q r = refl
  window_inside n (x ∷ xs) h q r = ground (arith, window_inside (suc n) xs h.2)

module _ {ℓ} {A : Type ℓ} (p : A → Bool) where
  pub filter-append : (xs ys : List A) → filter p (xs ++ ys) ≡ filter p xs ++ filter p ys
  filter-append [] ys = refl
  filter-append (x ∷ xs) ys = ground (arith, filter-append xs ys)
