-- ===== src/Thread/Building.antt =====
-- The events that the builders of packages/thread/src/index.ts make are valid events of their thread.
use bee_agent.Prelude.{
  String, ◌≡◌, refl, ap, subst, inl, inr, Bool, true, Option, none, some, arith,
}
use bee_agent.Events.{Call}
use bee_agent.Chronicle.{
  Db, NewEvent, StoredEvent, Actor, Registry, append, get_latest_sequence, read_stream, rows, stamp,
  validate_all, validate_new,
}
use bee_agent.Prelude.Units.{Text}
use bee_agent.Thread.Protocol.{
  Thread, Turn, Item, AgentCheckpoint, RecoveryFailure, Compaction, ThreadBody, thread_renamed,
  turn_started, turn_completed, turn_failed, turn_cancelled, item_started, item_completed,
  item_delta, item_failed, agent_checkpoint, agent_recovery_failed, context_compacted,
}
use bee_agent.Thread.Schema.{thread_schema, turn_schema, item_schema, payload_schema}
use bee_agent.Thread.Build.{
  base_event, on_turn, thread_created_event, thread_renamed_event, turn_started_event,
  turn_completed_event, turn_failed_event, turn_cancelled_event, item_started_event,
  item_completed_event, item_delta_event, item_failed_event, agent_checkpoint_event,
  agent_recovery_failed_event, context_compacted_event,
}
use bee_agent.Thread.Wire.{Scoped}

module _ (is_uuid : String → Bool) where
  -- An event that a builder made for the thread `t`, from a value that fits its schema.
  pub data Built (t : String) : NewEvent ThreadBody → Type 0 where
    creation :
        (c : Call) (a : Option Actor) (thread : Thread)
        → thread.id ≡ t
        → thread_schema is_uuid thread ≡ true
        → Built t (thread_created_event c a thread)
    renaming :
        (c : Call) (a : Option Actor) (title : Text)
        → is_uuid t ≡ true
        → payload_schema is_uuid (thread_renamed title) ≡ true
        → Built t (thread_renamed_event c a t title)
    starting :
        (c : Call) (a : Option Actor) (turn : Turn)
        → turn.thread_id ≡ t
        → turn_schema is_uuid turn ≡ true
        → Built t (turn_started_event c a turn)
    completion :
        (c : Call) (a : Option Actor) (turn : Turn)
        → turn.thread_id ≡ t
        → turn_schema is_uuid turn ≡ true
        → Built t (turn_completed_event c a turn)
    failure :
        (c : Call) (a : Option Actor) (turn : Turn) (error : String)
        → turn.thread_id ≡ t
        → payload_schema is_uuid (turn_failed turn error) ≡ true
        → Built t (turn_failed_event c a turn error)
    cancellation :
        (c : Call) (a : Option Actor) (turn : Turn)
        → turn.thread_id ≡ t
        → turn_schema is_uuid turn ≡ true
        → Built t (turn_cancelled_event c a turn)
    item_start :
        (c : Call) (a : Option Actor) (item : Item)
        → item.thread_id ≡ t
        → item_schema is_uuid item ≡ true
        → Built t (item_started_event c a item)
    item_end :
        (c : Call) (a : Option Actor) (item : Item)
        → item.thread_id ≡ t
        → item_schema is_uuid item ≡ true
        → Built t (item_completed_event c a item)
    delta :
        (c : Call) (a : Option Actor) (u item_id text : String)
        → is_uuid t ≡ true
        → is_uuid u ≡ true
        → payload_schema is_uuid (item_delta item_id text) ≡ true
        → Built t (item_delta_event c a (record { thread_id = t; turn_id = u }) item_id text)
    item_failure :
        (c : Call) (a : Option Actor) (u item_id error : String)
        → is_uuid t ≡ true
        → is_uuid u ≡ true
        → payload_schema is_uuid (item_failed item_id error) ≡ true
        → Built t (item_failed_event c a (record { thread_id = t; turn_id = u }) item_id error)
    checkpoint :
        (c : Call) (a : Option Actor) (u : String) (at : AgentCheckpoint)
        → is_uuid t ≡ true
        → is_uuid u ≡ true
        → payload_schema is_uuid (agent_checkpoint at) ≡ true
        → Built t (agent_checkpoint_event c a (record { thread_id = t; turn_id = u }) at)
    recovery :
        (c : Call) (a : Option Actor) (u : String) (of : RecoveryFailure)
        → is_uuid t ≡ true
        → is_uuid u ≡ true
        → payload_schema is_uuid (agent_recovery_failed of) ≡ true
        → Built t (agent_recovery_failed_event c a (record { thread_id = t; turn_id = u }) of)
    compaction :
        (c : Call) (a : Option Actor) (u : String) (of : Compaction)
        → is_uuid t ≡ true
        → is_uuid u ≡ true
        → payload_schema is_uuid (context_compacted of) ≡ true
        → Built t (context_compacted_event c a (record { thread_id = t; turn_id = u }) of)

  base_event-Scoped :
      (c : Call) (a : Option Actor) (t u : String) (body : ThreadBody)
      → is_uuid t ≡ true
      → is_uuid u ≡ true
      → payload_schema is_uuid body ≡ true
      → Scoped is_uuid t (base_event c t (some u) body a)
  unfolding base_event bee_agent.Chronicle.new_chronicle_event
  base_event-Scoped c a t u body ht hu h = record {
    fits = h;
    thread = refl;
    uuid = ht;
    turn = inr (u, refl, hu);
  }

  thread_id_valid :
      (thread : Thread) → thread_schema is_uuid thread ≡ true → is_uuid thread.id ≡ true
  unfolding thread_schema
  thread_id_valid thread h = ground arith

  turn_ids :
      (turn : Turn)
      → turn_schema is_uuid turn ≡ true
      → (is_uuid turn.thread_id ≡ true) × (is_uuid turn.id ≡ true)
  unfolding turn_schema
  turn_ids turn h = (ground arith, ground arith)

  item_ids :
      (item : Item)
      → item_schema is_uuid item ≡ true
      → (is_uuid item.thread_id ≡ true) × (is_uuid item.turn_id ≡ true)
  unfolding item_schema
  item_ids item h = (ground arith, ground arith)

  on_turn-Scoped :
      (c : Call) (a : Option Actor) (turn : Turn) (body : ThreadBody)
      → turn_schema is_uuid turn ≡ true
      → payload_schema is_uuid body ≡ true
      → Scoped is_uuid turn.thread_id (on_turn c a turn body)
  unfolding on_turn
  on_turn-Scoped c a turn body s h =
      base_event-Scoped c a turn.thread_id turn.id body (turn_ids turn s).0 (turn_ids turn s).1 h

  -- Only the version stamp of the event depends on the turn's.
  stamped :
      (t : String) (event : NewEvent ThreadBody) (version : Option String)
      → Scoped is_uuid t event
      → Scoped is_uuid t
          (elim version [ none ↦ event | some v ↦ record event { structure_version = some v } ])
  stamped t event none scoped = scoped
  stamped t event (some v) scoped = record {
    fits = scoped.fits;
    thread = scoped.thread;
    uuid = scoped.uuid;
    turn = scoped.turn;
  }

  failed_turn :
      (turn : Turn) (error : String)
      → payload_schema is_uuid (turn_failed turn error) ≡ true
      → turn_schema is_uuid turn ≡ true
  unfolding payload_schema
  failed_turn turn error h = ground arith

  pub Built-Scoped :
      (t : String) (event : NewEvent ThreadBody) → Built t event → Scoped is_uuid t event
  unfolding payload_schema thread_created_event thread_renamed_event turn_started_event
      turn_completed_event turn_failed_event turn_cancelled_event item_started_event
      item_completed_event item_delta_event item_failed_event agent_checkpoint_event
      agent_recovery_failed_event context_compacted_event base_event
      bee_agent.Chronicle.new_chronicle_event
  Built-Scoped t _ (creation c a thread e h) = record {
    fits = h;
    thread = ap some e;
    uuid = subst (λ x. is_uuid x ≡ true) e (thread_id_valid thread h);
    turn = inl refl;
  }
  Built-Scoped t _ (renaming c a title u h) = record {
    fits = h;
    thread = refl;
    uuid = u;
    turn = inl refl;
  }
  Built-Scoped t _ (starting c a turn e h) =
      subst (λ x. Scoped is_uuid x (turn_started_event c a turn)) e
        (stamped turn.thread_id (on_turn c a turn (turn_started turn)) turn.structure_version
          (on_turn-Scoped c a turn (turn_started turn) h h))
  Built-Scoped t _ (completion c a turn e h) =
      subst (λ x. Scoped is_uuid x (turn_completed_event c a turn)) e
        (on_turn-Scoped c a turn (turn_completed turn) h h)
  Built-Scoped t _ (failure c a turn error e h) =
      subst (λ x. Scoped is_uuid x (turn_failed_event c a turn error)) e
        (on_turn-Scoped c a turn (turn_failed turn error) (failed_turn turn error h) h)
  Built-Scoped t _ (cancellation c a turn e h) =
      subst (λ x. Scoped is_uuid x (turn_cancelled_event c a turn)) e
        (on_turn-Scoped c a turn (turn_cancelled turn) h h)
  Built-Scoped t _ (item_start c a item e h) =
      subst (λ x. Scoped is_uuid x (item_started_event c a item)) e
        (base_event-Scoped c a item.thread_id item.turn_id (item_started item) (item_ids item h).0
          (item_ids item h).1 h)
  Built-Scoped t _ (item_end c a item e h) =
      subst (λ x. Scoped is_uuid x (item_completed_event c a item)) e
        (base_event-Scoped c a item.thread_id item.turn_id (item_completed item) (item_ids item h).0
          (item_ids item h).1 h)
  Built-Scoped t _ (delta c a u item_id text ht hu h) = base_event-Scoped c a t u _ ht hu h
  Built-Scoped t _ (item_failure c a u item_id error ht hu h) = base_event-Scoped c a t u _ ht hu h
  Built-Scoped t _ (checkpoint c a u at ht hu h) = base_event-Scoped c a t u _ ht hu h
  Built-Scoped t _ (recovery c a u of ht hu h) = base_event-Scoped c a t u _ ht hu h
  Built-Scoped t _ (compaction c a u of ht hu h) = base_event-Scoped c a t u _ ht hu h
