-- ===== src/Thread/Store.antt =====
-- packages/thread/src/index.ts: appending to a thread's stream and reading it back as wire events.
use bee_agent.Prelude.{
  ℕ, ◌+◌, String, Bool, true, false, Option, none, some, or_else, any_of, List, [], ◌∷◌, ◌++◌,
  Result, ok, err, guard, require, ◌>>◌, ◌>>=◌, if◌then◌else◌, ◌==◌, str_eq, length,
}
use bee_agent.Errors.{Error, unknown_thread_event_type, thread_event_invalid}
use bee_agent.Chronicle.{
  Db, NewEvent, StoredEvent, Registry, append, get_latest_sequence, read_stream,
}
use bee_agent.Thread.Protocol.{ThreadBody, ThreadEvent, ThreadEventPage, ThreadEventQuery}
use bee_agent.Thread.Schema.{on_thread, thread_event_schema}
use bee_agent.Thread.Build.{thread_stream_id, thread_event_type, thread_event_types}

-- `appendThreadEvents`
unfoldable pub append_thread_events :
    Registry ThreadBody
    → Db ThreadBody
    → String
    → List (NewEvent ThreadBody)
    → ℕ
    → Result Error (List (StoredEvent ThreadBody) × Db ThreadBody)
append_thread_events registry db thread_id events now =
    let expected_sequence = get_latest_sequence db (thread_stream_id thread_id) + 1 in
    append registry db (thread_stream_id thread_id) events expected_sequence now

-- `query.limit !== undefined && events.length === query.limit`
unfoldable pub is_full : Option ℕ → List ThreadEvent → Bool
is_full none events = false
is_full (some limit) events = length events == limit

module _ (is_uuid : String → Bool) where
  -- `toThreadEvent`: the candidate object has no `threadId` where the envelope has none, which the
  -- schema refuses.
  unfoldable pub to_thread_event : StoredEvent ThreadBody → Result Error ThreadEvent
  to_thread_event stored = do
    guard (any_of (str_eq (thread_event_type stored.body)) thread_event_types)
        (unknown_thread_event_type (thread_event_type stored.body))
    thread_id ← require stored.thread_id thread_event_invalid
    let candidate : ThreadEvent = record {
      sequence = stored.sequence;
      thread_id = thread_id;
      turn_id = if on_thread stored.body then none else stored.turn_id;
      body = stored.body;
    }
    guard (thread_event_schema is_uuid candidate) thread_event_invalid
    ok candidate

  -- The loop of `readThreadEvents`: an event past a full page is not converted.
  unfoldable pub read_loop :
      Option ℕ → List (StoredEvent ThreadBody) → List ThreadEvent → Result Error ThreadEventPage
  read_loop limit [] events = ok (record { events = events; has_more = false })
  read_loop limit (stored ∷ rest) events = elim (is_full limit events) [
    | true ↦ ok (record { events = events; has_more = true })
    | false ↦ elim (to_thread_event stored) [
      | err error ↦ err error
      | ok event ↦ read_loop limit rest (events ++ event ∷ [])
    ]
  ]

  unfoldable pub read_thread_events :
      Db ThreadBody → String → ThreadEventQuery → Result Error ThreadEventPage
  read_thread_events db thread_id query =
      read_loop query.limit (read_stream db (thread_stream_id thread_id) (or_else query.after 0)) []
