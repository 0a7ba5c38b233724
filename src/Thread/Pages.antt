-- ===== src/Thread/Pages.antt =====
-- The loop that reads a page: when it fits, when it is cut at the limit, and when it fails.
use bee_agent.Prelude.{
  ℕ, suc, ◌+◌, ◌-◌, ◌≤◌, ◌<◌, String, ◌≡◌, refl, ◌∙◌, subst, Bool, true, false, Option, none, some,
  List, [], ◌∷◌, ◌++◌, arith, take, ok, err, length, length-append, Bool-cases, inl, inr,
}
use mathlib.Core.List.{append-nil, append_assoc}
use bee_agent.Errors.{Error}
use bee_agent.Chronicle.{StoredEvent}
use bee_agent.Thread.Protocol.{ThreadBody, ThreadEvent}
use bee_agent.Thread.Store.{to_thread_event, is_full, read_loop}

-- A page of `n` events is within the limit.
abbrev pub Room : Option ℕ → ℕ → Type 0
Room none n = Unit
Room (some limit) n = n ≤ limit

is_full-Room :
    (limit : Option ℕ) (events : List ThreadEvent) (n : ℕ)
    → Room limit n
    → length events < n
    → is_full limit events ≡ false
unfolding is_full
is_full-Room none events n room h = refl
is_full-Room (some limit) events n room h = ground arith

full_at :
    (limit : ℕ) (events : List ThreadEvent)
    → is_full (some limit) events ≡ true
    → length events ≡ limit
unfolding is_full
full_at limit events h = ground arith

short_of :
    (limit : ℕ) (events : List ThreadEvent)
    → length events ≤ limit
    → is_full (some limit) events ≡ false
    → length events < limit
unfolding is_full
short_of limit events low h = ground arith

module _ (is_uuid : String → Bool) where
  -- Every row has a wire form, and these are they.
  abbrev pub Converts : List (StoredEvent ThreadBody) → List ThreadEvent → Type 0
  Converts [] [] = Unit
  Converts (row ∷ rows) (wire ∷ wires) =
      (to_thread_event is_uuid row ≡ ok wire) × Converts rows wires
  Converts _ _ = ⊥

  grown :
      (events : List ThreadEvent) (wire : ThreadEvent)
      → length (events ++ wire ∷ []) ≡ suc (length events)
  grown events wire = omega (arith, length-append events (wire ∷ []))

  pub read_loop-fits :
      (limit : Option ℕ) (rows : List (StoredEvent ThreadBody)) (wires events : List ThreadEvent)
      → Converts rows wires
      → Room limit (length events + length wires)
      → read_loop is_uuid limit rows events
        ≡ ok (record { events = events ++ wires; has_more = false })
  unfolding read_loop
  read_loop-fits limit [] [] events h room = rw (append-nil events) refl
  read_loop-fits limit [] (wire ∷ wires) events h room = absurd h
  read_loop-fits limit (row ∷ rows) [] events h room = absurd h
  read_loop-fits limit (row ∷ rows) (wire ∷ wires) events h room =
      let e : length events + length (wire ∷ wires) ≡ length (events ++ wire ∷ []) + length wires =
        omega (arith, grown events wire) in
      rw (read_loop, is_full-Room limit events _ room (omega arith), h.0)
        (read_loop-fits limit rows wires (events ++ wire ∷ []) h.1 (subst (Room limit) e room)
          ∙ rw (append_assoc events (wire ∷ []) wires) refl)

  -- A full page stops the loop at the row after it, whatever that row and the later ones are.
  pub read_loop-full :
      (limit : ℕ) (rows rest : List (StoredEvent ThreadBody)) (wires events : List ThreadEvent)
      → Converts rows wires
      → length events ≤ limit
      → limit ≤ length events + length wires
      → limit < length events + length wires + length rest
      → read_loop is_uuid (some limit) (rows ++ rest) events
        ≡ ok (record { events = events ++ take (limit - length events) wires; has_more = true })
  unfolding read_loop
  read_loop-full limit [] [] [] events h low high more = absurd (omega arith)
  read_loop-full limit [] (row ∷ rest) [] events h low high more =
      elim (Bool-cases (is_full (some limit) events)) [
        | inl e ↦
            let z : limit - length events ≡ 0 = omega (arith, full_at limit events e) in
            rw (read_loop, e, z, append-nil events) refl
        | inr e ↦ absurd (omega (arith, short_of limit events low e))
      ]
  read_loop-full limit [] rest (wire ∷ wires) events h low high more = absurd h
  read_loop-full limit (row ∷ rows) rest [] events h low high more = absurd h
  read_loop-full limit (row ∷ rows) rest (wire ∷ wires) events h low high more =
      elim (Bool-cases (is_full (some limit) events)) [
        | inl e ↦
            let z : limit - length events ≡ 0 = omega (arith, full_at limit events e) in
            rw (read_loop, e, z, append-nil events) refl
        | inr e ↦
            let gap = short_of limit events low e in
            let l = grown events wire in
            let later = events ++ wire ∷ [] in
            let q : limit - length events ≡ suc (limit - length later) = omega (arith, l) in
            rw (read_loop, e, h.0, q)
              (read_loop-full limit rows rest wires later h.1 (omega (arith, l)) (omega (arith, l))
                  (omega (arith, l))
                ∙ rw (append_assoc events (wire ∷ []) (take (limit - length later) wires)) refl)
      ]

  pub read_loop-refused :
      (limit : Option ℕ) (before after : List (StoredEvent ThreadBody))
      (bad : StoredEvent ThreadBody) (error : Error) (wires events : List ThreadEvent)
      → Converts before wires
      → to_thread_event is_uuid bad ≡ err error
      → Room limit (suc (length events + length wires))
      → read_loop is_uuid limit (before ++ bad ∷ after) events ≡ err error
  unfolding read_loop
  read_loop-refused limit [] after bad error [] events h e room =
      rw (read_loop, is_full-Room limit events _ room (omega arith), e) refl
  read_loop-refused limit [] after bad error (wire ∷ wires) events h e room = absurd h
  read_loop-refused limit (row ∷ rows) after bad error [] events h e room = absurd h
  read_loop-refused limit (row ∷ rows) after bad error (wire ∷ wires) events h e room =
      let q : suc (length events + length (wire ∷ wires))
          ≡ suc (length (events ++ wire ∷ []) + length wires) =
        omega (arith, grown events wire) in
      rw (read_loop, is_full-Room limit events _ room (omega arith), h.0)
        (read_loop-refused limit rows after bad error wires (events ++ wire ∷ []) h.1 e
          (subst (Room limit) q room))
