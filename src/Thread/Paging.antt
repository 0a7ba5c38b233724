-- ===== src/Thread/Paging.antt =====
-- A reader who follows `hasMore` from page to page.
use bee_agent.Prelude.{
  ℕ, zero, suc, ◌+◌, ◌-◌, ◌≤◌, ◌<◌, String, ◌≡◌, refl, sym, ap, ◌∙◌, subst, inl, inr, Bool, true,
  false, Option, none, some, List, [], ◌∷◌, ◌++◌, arith, leb, take, drop, length, length-drop, ok,
  err, Bool-cases, guard-eq-ok, require-eq-ok, ok-injective,
}
use mathlib.Core.List.{append-nil}
use bee_agent.Chronicle.{Db, StoredEvent, read_stream, rows}
use bee_agent.Chronicle.Appending.{IsChronicle}
use bee_agent.Chronicle.Rows.{IsNumbered}
use bee_agent.Chronicle.Reading.{read_stream-drop}
use bee_agent.Thread.Protocol.{ThreadBody, ThreadEvent}
use bee_agent.Thread.Build.{thread_stream_id}
use bee_agent.Thread.Store.{to_thread_event, read_thread_events}
use bee_agent.Thread.Pages.{Converts, read_loop-fits, read_loop-full}

-- The sequence of the last event received.
abbrev pub last_seen : ℕ → List ThreadEvent → ℕ
last_seen after [] = after
last_seen after (event ∷ events) = last_seen event.sequence events

module _ (is_uuid : String → Bool) (db : Db ThreadBody) (t : String) (limit : ℕ) where
  -- Read a page, then the next `after` its last event while there is more; `none` where a read
  -- fails or the fuel ends.
  unfoldable pub follow : (fuel after : ℕ) → Option (List ThreadEvent)
  follow zero after = none
  follow (suc fuel) after =
      elim (read_thread_events is_uuid db t (record { after = some after; limit = some limit })) [
        | err error ↦ none
        | ok page ↦ elim page.has_more [
          | false ↦ some page.events
          | true ↦ elim (follow fuel (last_seen after page.events)) [
            | none ↦ none
            | some events ↦ some (page.events ++ events)
          ]
        ]
      ]

abbrev Sequenced : ℕ → List ThreadEvent → Type 0
Sequenced n [] = Unit
Sequenced n (event ∷ events) = (event.sequence ≡ n) × Sequenced (suc n) events

last_seen-take :
    (n m l : ℕ) (events : List ThreadEvent)
    → Sequenced (suc n) events
    → l ≤ length events
    → m ≡ n
    → last_seen m (take l events) ≡ n + l
last_seen-take n m zero events h low e = omega arith
last_seen-take n m (suc l) [] h low e = absurd (omega arith)
last_seen-take n m (suc l) (event ∷ events) h low e =
    last_seen-take (suc n) event.sequence l events h.1 (omega arith) h.0 ∙ omega arith

take_rest : (l : ℕ) (events : List ThreadEvent) → take l events ++ drop l events ≡ events
take_rest zero events = refl
take_rest (suc l) [] = refl
take_rest (suc l) (event ∷ events) = ap (λ rest. event ∷ rest) (take_rest l events)

drop_nil : (n : ℕ) → drop {A = ThreadEvent} n [] ≡ []
drop_nil zero = refl
drop_nil (suc n) = refl

take-drop :
    (l n : ℕ) (events : List ThreadEvent)
    → take l (drop n events) ++ drop (n + l) events ≡ drop n events
take-drop l zero events = let e : 0 + l ≡ l = omega arith in rw e (take_rest l events)
take-drop zero (suc n) [] = drop_nil (suc n + 0)
take-drop (suc l) (suc n) [] = drop_nil (suc n + suc l)
take-drop l (suc n) (event ∷ events) =
    let e : suc n + l ≡ suc (n + l) = omega arith in rw e (take-drop l n events)

module _ (is_uuid : String → Bool) where
  same_sequence :
      (row : StoredEvent ThreadBody) (wire : ThreadEvent)
      → to_thread_event is_uuid row ≡ ok wire
      → wire.sequence ≡ row.sequence
  unfolding to_thread_event
  same_sequence row wire h =
      let (_, required) = guard-eq-ok _ _ _ h in
      let (_, _, checked) = require-eq-ok row.thread_id _ _ required in
      let (_, same) = guard-eq-ok _ _ _ checked in
      sym (ap (λ (w : ThreadEvent). w.sequence) (ok-injective same))

  Converts-Sequenced :
      (s : String) (n : ℕ) (stored : List (StoredEvent ThreadBody)) (events : List ThreadEvent)
      → IsNumbered s n stored
      → Converts is_uuid stored events
      → Sequenced n events
  Converts-Sequenced s n [] [] v h = tt
  Converts-Sequenced s n [] (wire ∷ wires) v h = absurd h
  Converts-Sequenced s n (row ∷ stored) [] v h = absurd h
  Converts-Sequenced s n (row ∷ stored) (wire ∷ wires) v h =
      (same_sequence row wire h.0 ∙ v.0, Converts-Sequenced s (suc n) stored wires v.2 h.1)

  Converts-drop :
      (n : ℕ) (stored : List (StoredEvent ThreadBody)) (events : List ThreadEvent)
      → Converts is_uuid stored events
      → Converts is_uuid (drop n stored) (drop n events)
  Converts-drop zero stored events h = h
  Converts-drop (suc n) [] [] h = tt
  Converts-drop (suc n) [] (wire ∷ wires) h = absurd h
  Converts-drop (suc n) (row ∷ stored) [] h = absurd h
  Converts-drop (suc n) (row ∷ stored) (wire ∷ wires) h = Converts-drop n stored wires h.1

Sequenced-drop :
    (n m : ℕ) (events : List ThreadEvent) → Sequenced m events → Sequenced (m + n) (drop n events)
Sequenced-drop zero m events h = let e : m + 0 ≡ m = omega arith in rw e h
Sequenced-drop (suc n) m [] h = tt
Sequenced-drop (suc n) m (event ∷ events) h =
    let e : m + suc n ≡ suc m + n = omega arith in rw e (Sequenced-drop n (suc m) events h.1)

module _ (is_uuid : String → Bool) (db : Db ThreadBody) (t : String) (limit : ℕ)
    (events : List ThreadEvent) (v : IsChronicle db)
    (converts : Converts is_uuid (rows db (thread_stream_id t)) events) where
  abbrev stream : String
  stream = thread_stream_id t

  read_from : (n : ℕ) → read_stream db stream n ≡ drop n (rows db stream)
  read_from n = read_stream-drop db stream n v

  last_page :
      (n : ℕ)
      → length events - n ≤ limit
      → read_thread_events is_uuid db t (record { after = some n; limit = some limit })
        ≡ ok (record { events = drop n events; has_more = false })
  unfolding read_thread_events
  last_page n h = rw (read_from n) (
      read_loop-fits is_uuid (some limit) _ (drop n events) []
        (Converts-drop is_uuid n _ events converts) (omega (arith, length-drop n events)))

  inner_page :
      (n : ℕ)
      → limit < length events - n
      → read_thread_events is_uuid db t (record { after = some n; limit = some limit })
        ≡ ok (record { events = take limit (drop n events); has_more = true })
  unfolding read_thread_events
  inner_page n h =
      let l = length-drop n events in
      rw (read_from n, sym (append-nil (drop n (rows db stream))))
        (read_loop-full is_uuid limit (drop n (rows db stream)) [] (drop n events) []
            (Converts-drop is_uuid n _ events converts) (omega arith) (omega (arith, l))
            (omega (arith, l))
          ∙ ap (λ k. ok (record { events = take k (drop n events); has_more = true }))
              (omega arith))

  follow_from :
      (low : 1 ≤ limit) (fuel n : ℕ)
      → n ≤ length events
      → length events - n < fuel
      → follow is_uuid db t limit fuel n ≡ some (drop n events)
  unfolding follow
  follow_from low zero n h enough = absurd (omega arith)
  follow_from low (suc fuel) n h enough = elim (Bool-cases (leb (length events - n) limit)) [
    | inl e ↦ rw (follow, last_page n (ground arith)) refl
    | inr e ↦
        let more : limit < length events - n = ground arith in
        let page = take limit (drop n events) in
        let e : last_seen n page ≡ n + limit =
          last_seen-take n n limit (drop n events)
            (subst (λ k. Sequenced k (drop n events)) (omega arith)
              (Sequenced-drop n 1 events
                (Converts-Sequenced is_uuid stream 1 _ events (v.numbered stream) converts)))
            (omega (arith, length-drop n events)) refl in
        let rest = follow_from low fuel (n + limit) (omega arith) (omega arith) in
        rw (follow, inner_page n more, e, rest) (ap some (take-drop limit n events))
  ]

  -- Where every row of the thread has a wire form, a reader who asks for pages of a positive size
  -- and resumes each time after the last sequence received gets every event of the thread, in
  -- order and once each, within one page more than there are events.
  pub follow_all : 1 ≤ limit → follow is_uuid db t limit (suc (length events)) 0 ≡ some events
  follow_all low = follow_from low (suc (length events)) 0 (omega arith) (omega arith)
