-- ===== src/Chronicle/Reading.antt =====
-- Reading a stream from a position, and what validation refuses.
use bee_agent.Prelude.{
  ℕ, zero, suc, ◌+◌, ◌≤◌, String, ◌≡◌, refl, ◌↔◌, true, some, List, [], ◌∷◌, arith, ltb, drop,
  filter, ok, Option-cases, >>=-eq-ok, inl, inr, All,
}
use bee_agent.Prelude.Map
use bee_agent.Chronicle.Envelope.{NewEvent, StoredEvent, envelope_schema}
use bee_agent.Chronicle.Validation.{Registry, Registration, validate_new, validate_all}
use bee_agent.Chronicle.Store.{Db, rows, read_stream}
use bee_agent.Chronicle.Rows.{IsNumbered}
use bee_agent.Chronicle.Appending.{IsChronicle}

module _ {B : Type 0} where
  after_below :
      (s : String) (n m : ℕ) (xs : List (StoredEvent B))
      → IsNumbered s (suc n) xs
      → m ≤ n
      → filter (λ row. ltb m row.sequence) xs ≡ xs
  after_below s n m [] h q = refl
  after_below s n m (x ∷ xs) h q = ground (arith, after_below s (suc n) m xs h.2)

  after_drop :
      (s : String) (n m k : ℕ) (xs : List (StoredEvent B))
      → IsNumbered s (suc n) xs
      → k ≡ n + m
      → filter (λ row. ltb k row.sequence) xs ≡ drop m xs
  after_drop s n zero k xs h q = after_below s n k xs h (omega arith)
  after_drop s n (suc m) k [] h q = refl
  after_drop s n (suc m) k (x ∷ xs) h q = ground (arith, after_drop s (suc n) m k xs h.2)

  -- Reading after sequence `n` gives exactly the rows past the first `n`, in order.
  pub read_stream-drop :
      (db : Db B) (s : String) (n : ℕ) → IsChronicle db → read_stream db s n ≡ drop n (rows db s)
  unfolding read_stream
  read_stream-drop db s n v = after_drop s 0 n n (rows db s) (v.numbered s) (omega arith)

  -- An event that the registry accepts: its envelope fits, its type is registered and its payload
  -- fits the registered schema.
  abbrev pub Accepted : Registry B → NewEvent B → Type 0
  Accepted r event =
      (envelope_schema r.is_uuid (r.type_of event.body) event ≡ true)
      × (entry : Registration B) × (Map.get (r.type_of event.body) r.types ≡ some entry)
      × (entry.payload event.body ≡ true)

  validate_new-Accepted :
      (r : Registry B) (event : NewEvent B) → validate_new r event ≡ ok tt → Accepted r event
  unfolding validate_new
  validate_new-Accepted r event h = elim (Option-cases (Map.get (r.type_of event.body) r.types)) [
    | inl missing ↦ absurd (ground arith)
    | inr (entry, found) ↦ (ground arith, entry, found, ground arith)
  ]

  Accepted-validate_new :
      (r : Registry B) (event : NewEvent B) → Accepted r event → validate_new r event ≡ ok tt
  unfolding validate_new
  Accepted-validate_new r event (envelope, entry, found, payload) = rw (envelope, found, payload)

  -- A batch Passes validation exactly when every event of it is accepted.
  pub validate_all_iff :
      (r : Registry B) (events : List (NewEvent B))
      → (validate_all r events ≡ ok tt) ↔ All (Accepted r) events
  unfolding validate_all
  validate_all_iff r [] = (λ _. tt, λ _. refl)
  validate_all_iff r (e ∷ es) =
      let (to, from) = validate_all_iff r es in
      (
        (λ h.
            let (u, first, rest) = >>=-eq-ok (validate_new r e) (λ _. validate_all r es) h in
            (validate_new-Accepted r e first, to rest)),
        (λ h. rw (Accepted-validate_new r e h.0) (from h.1)),
      )
