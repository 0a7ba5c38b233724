-- ===== src/Thread/Roundtrip.antt =====
-- What is appended to a thread is what its readers get, and what a reader refuses.
use bee_agent.Prelude.{
  ℕ, suc, ◌+◌, ◌≤◌, String, ◌≡◌, refl, ap, ◌∙◌, subst, Bool, true, false, Option, none, some, List,
  [], ◌∷◌, ◌++◌, arith, take, drop, length, ok, err, All,
}
use bee_agent.Errors.{unknown_thread_event_type}
use bee_agent.Chronicle.{
  Db, NewEvent, StoredEvent, Registry, envelope_schema, get_latest_sequence, read_stream, rows,
  stamp, validate_all,
}
use bee_agent.Chronicle.Appending.{IsChronicle, Appended, append-Appended}
use bee_agent.Chronicle.Reading.{read_stream-drop}
use bee_agent.Thread.Protocol.{ThreadBody, ThreadEvent}
use bee_agent.Thread.Build.{thread_stream_id, thread_event_type, register_thread_chronicle_events}
use bee_agent.Thread.Store.{append_thread_events, read_thread_events}
use bee_agent.Thread.Pages.{Room, Converts, read_loop-fits, read_loop-full, read_loop-refused}
use bee_agent.Thread.Wire.{Scoped, wires, Converts-stamp, is_thread_type, to_thread_event_unknown}
use bee_agent.Thread.Building.{Built, Built-Scoped}
use bee_agent.Thread.Registering.{validate_new-Scoped}

module _ {A : Type 0} where
  drop-length : (n : ℕ) (xs ys : List A) → n ≡ length xs → drop n (xs ++ ys) ≡ ys
  drop-length n [] ys h = rw h refl
  drop-length n (x ∷ xs) ys h = rw h (drop-length (length xs) xs ys refl)

-- An event whose envelope fits the schema of the registry.
abbrev pub Enveloped : Registry ThreadBody → NewEvent ThreadBody → Type 0
Enveloped r event = envelope_schema r.is_uuid (thread_event_type event.body) event ≡ true

module _ (is_uuid : String → Bool) where
  valid :
      (r registry : Registry ThreadBody) (t : String) (events : List (NewEvent ThreadBody))
      → register_thread_chronicle_events is_uuid r ≡ ok registry
      → r.type_of ≡ thread_event_type
      → All (Enveloped r) events
      → All (Scoped is_uuid t) events
      → validate_all registry events ≡ ok tt
  unfolding validate_all
  valid r registry t [] h q e scoped = refl
  valid r registry t (event ∷ events) h q e scoped =
      rw (validate_new-Scoped is_uuid r registry t event h q e.0 scoped.0)
        (valid r registry t events h q e.1 scoped.1)

  All-Scoped :
      (t : String) (events : List (NewEvent ThreadBody))
      → All (Built is_uuid t) events
      → All (Scoped is_uuid t) events
  All-Scoped t [] h = tt
  All-Scoped t (event ∷ events) h = (Built-Scoped is_uuid t event h.0, All-Scoped t events h.1)

  -- What a reader gets who already has the events before the batch.
  read_batch :
      (db db' : Db ThreadBody) (t : String) (events : List (NewEvent ThreadBody)) (now : ℕ)
      → IsChronicle db
      → Appended db
          (thread_stream_id t)
          (stamp (thread_stream_id t) (get_latest_sequence db (thread_stream_id t) + 1) now events)
          db'
      → All (Scoped is_uuid t) events
      → read_thread_events is_uuid db' t
          (record { after = some (get_latest_sequence db (thread_stream_id t)); limit = none })
        ≡ ok (record {
          events = wires t (get_latest_sequence db (thread_stream_id t) + 1) events;
          has_more = false;
        })
  unfolding read_thread_events
  read_batch db db' t events now v appended scoped =
      let s = thread_stream_id t in
      let n = get_latest_sequence db s in
      let e : read_stream db' s n ≡ stamp s (n + 1) now events =
        read_stream-drop db' s n appended.chronicle
        ∙ ap (drop n) appended.here
        ∙ drop-length n (rows db s) (stamp s (n + 1) now events) (v.counted s) in
      rw e (
        read_loop-fits is_uuid none _ (wires t (n + 1) events) []
          (Converts-stamp is_uuid t s (n + 1) now events scoped (omega arith)) tt)

  -- Round trip: once the thread event types are registered, a batch that is not empty, of events
  -- that the builders made for one thread from valid values and whose envelopes fit the schema, is
  -- appended to that thread, and
  -- reading after the last event that the thread had returns exactly the batch, in order: each
  -- with the next sequence number, its own payload, and its turn where it has one.
  pub append_thread_events-read_thread_events :
      (r registry : Registry ThreadBody) (db : Db ThreadBody) (t : String)
      (event : NewEvent ThreadBody) (events : List (NewEvent ThreadBody)) (now : ℕ)
      → register_thread_chronicle_events is_uuid r ≡ ok registry
      → r.type_of ≡ thread_event_type
      → All (Enveloped r) (event ∷ events)
      → IsChronicle db
      → All (Built is_uuid t) (event ∷ events)
      → (stored : List (StoredEvent ThreadBody)) × (db' : Db ThreadBody) × (append_thread_events
            registry db t
            (event ∷ events)
            now
          ≡ ok (stored, db'))
        × (read_thread_events is_uuid db' t
              (record { after = some (get_latest_sequence db (thread_stream_id t)); limit = none })
            ≡ ok (record {
              events = wires t (get_latest_sequence db (thread_stream_id t) + 1) (event ∷ events);
              has_more = false;
            }))
  unfolding append_thread_events
  append_thread_events-read_thread_events r registry db t event events now h q e v built =
      let s = thread_stream_id t in
      let scoped = All-Scoped t (event ∷ events) built in
      let (db', result, appended) =
        append-Appended registry db s event events (get_latest_sequence db s + 1) now v
          (valid r registry t (event ∷ events) h q e scoped) refl in
      (
        stamp s (get_latest_sequence db s + 1) now (event ∷ events),
        db',
        result,
        read_batch db db' t (event ∷ events) now v appended scoped,
      )

  -- The first event of the thread that is of no thread type makes a read fail with that type, once
  -- every row before it has a wire form and the page has room for one event more; where the page is
  -- full before it, the page is served, and says that there is more.
  pub read_thread_events_unknown :
      (db : Db ThreadBody) (t : String) (limit : Option ℕ)
      (before after : List (StoredEvent ThreadBody)) (bad : StoredEvent ThreadBody)
      (events : List ThreadEvent)
      → rows db (thread_stream_id t) ≡ before ++ bad ∷ after
      → IsChronicle db
      → Converts is_uuid before events
      → is_thread_type (thread_event_type bad.body) ≡ false
      → (Room limit (suc (length events))
          → read_thread_events is_uuid db t (record { after = none; limit = limit })
            ≡ err (unknown_thread_event_type (thread_event_type bad.body)))
        × ((n : ℕ)
            → limit ≡ some n
            → n ≤ length events
            → read_thread_events is_uuid db t (record { after = none; limit = limit })
              ≡ ok (record { events = take n events; has_more = true }))
  unfolding read_thread_events
  read_thread_events_unknown db t limit before after bad events e v converts unknown =
      let s = thread_stream_id t in
      let q : read_stream db s 0 ≡ before ++ bad ∷ after = read_stream-drop db s 0 v ∙ e in
      (
        λ room. rw q (
            read_loop-refused is_uuid limit before after bad
              (unknown_thread_event_type (thread_event_type bad.body)) events [] converts
              (to_thread_event_unknown is_uuid bad unknown)
              (subst (Room limit) (omega arith) room)),
        λ n l h.
            rw (q, l)
              (read_loop-full is_uuid n before (bad ∷ after) events [] converts (omega arith)
                  (omega arith) (omega arith)
                ∙ ap (λ k. ok (record { events = take k events; has_more = true })) (omega arith)),
      )
