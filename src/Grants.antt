-- ===== src/Grants.antt =====
-- User grants: packages/execution/src/grant-events.ts and packages/runtime/src/grant-store.ts. A
-- `Set` is a `Map` to the unit type. Other writers of the log may move the tail between the read
-- of it and the append: what they do in each attempt is the argument `others`.
use bee_agent.Prelude.{
  ℕ, zero, suc, ◌+◌, String, Bool, true, false, ◌&&◌, Option, none, some, or_else, List, [], ◌∷◌,
  Result, ok, err, guard, ◌>>◌, ◌>>=◌, if◌then◌else◌,
}
use bee_agent.Prelude.Map
use bee_agent.Prelude.Map.{Map}
use bee_agent.Errors.{Error, grant_schema_invalid}
use bee_agent.Chronicle.{
  Db, NewEvent, StoredEvent, Actor, ActorType, Registry, append, get_latest_sequence,
  new_chronicle_event, read_stream, register,
}
use bee_agent.Events.{Call}
use bee_agent.Prelude.Text.{non_empty, optionally}
pub mod Replay
pub mod Agreement
pub mod Losing

pub record GrantPayload : Type 0 where
  pub capability : String
  pub reason : Option String
  pub by : String
  pub at : ℕ

pub data GrantBody : Type 0 where
  grant_recorded grant_revoked : GrantPayload → GrantBody
  -- an event type of another package
  other_fact : String → GrantBody

abbrev pub grant_event_type : GrantBody → String
grant_event_type (grant_recorded _) = "grant.recorded"
grant_event_type (grant_revoked _) = "grant.revoked"
grant_event_type (other_fact type) = type

abbrev pub grants_stream_id : String
grants_stream_id = "grants"

-- `GrantBaseSchema`
unfoldable pub grant_schema : GrantPayload → Bool
grant_schema p = non_empty p.capability && optionally non_empty p.reason && non_empty p.by

abbrev pub grant_body_schema : GrantBody → Bool
grant_body_schema (grant_recorded p) = grant_schema p
grant_body_schema (grant_revoked p) = grant_schema p
grant_body_schema (other_fact _) = false

unfoldable pub register_grant_chronicle_events :
    Registry GrantBody → Result Error (Registry GrantBody)
register_grant_chronicle_events r = do
  r' ← register "grant.recorded" grant_body_schema none r
  register "grant.revoked" grant_body_schema none r'

abbrev pub grant_actor : Actor
grant_actor = record { type = ActorType.user; id = "host" }

pub record GrantInput : Type 0 where
  pub capability : String
  pub reason : Option String
  pub by : Option String

-- The payload that both builders parse.
abbrev pub grant_payload : Call → GrantInput → GrantPayload
grant_payload call input = record {
  capability = input.capability;
  reason = input.reason;
  by = or_else input.by "user";
  at = call.now;
}

abbrev pub grant_event : Call → GrantBody → Option Actor → NewEvent GrantBody
grant_event call body actor = new_chronicle_event call.event_id call.now (record {
  event_id = none;
  schema_version = none;
  event_time = none;
  task_id = none;
  thread_id = none;
  turn_id = none;
  structure_version = none;
  actor = or_else actor grant_actor;
  correlation_id = none;
  classification = none;
  retention_class = none;
  body = body;
})

unfoldable pub grant_recorded_event :
    Call → GrantInput → Option Actor → Result Error (NewEvent GrantBody)
grant_recorded_event call input actor = do
  guard (grant_schema (grant_payload call input)) grant_schema_invalid
  ok (grant_event call (grant_recorded (grant_payload call input)) actor)

unfoldable pub grant_revoked_event :
    Call → GrantInput → Option Actor → Result Error (NewEvent GrantBody)
grant_revoked_event call input actor = do
  guard (grant_schema (grant_payload call input)) grant_schema_invalid
  ok (grant_event call (grant_revoked (grant_payload call input)) actor)

pub record GrantedCapability : Type 0 where
  pub capability : String
  pub reason : Option String
  pub by : String
  pub at : ℕ

-- `#granted` and `#details`
pub record Live : Type 0 where
  pub granted : Map (Unit {0})
  pub details : Map GrantedCapability

pub record UserGrantStore : Type 0 where
  pub chronicle : Db GrantBody
  pub live : Live

abbrev pub nothing_granted : Live
nothing_granted = record { granted = []; details = [] }

abbrev pub grant_to : GrantedCapability → Live → Live
grant_to d l = record {
  granted = Map.set d.capability tt l.granted;
  details = Map.set d.capability d l.details;
}

abbrev pub withdraw : String → Live → Live
withdraw capability l = record {
  granted = Map.delete capability l.granted;
  details = Map.delete capability l.details;
}

-- The body of the loop of `rebuild`.
unfoldable pub replay_grant : Live → GrantBody → Live
replay_grant l (grant_recorded p) =
    grant_to (record { capability = p.capability; reason = p.reason; by = p.by; at = p.at }) l
replay_grant l (grant_revoked p) = withdraw p.capability l
replay_grant l (other_fact _) = l

unfoldable pub replay_grants : Live → List (StoredEvent GrantBody) → Live
replay_grants l [] = l
replay_grants l (row ∷ rows) = replay_grants (replay_grant l row.body) rows

unfoldable pub rebuild_grants : UserGrantStore → UserGrantStore
rebuild_grants s = record s {
  live = replay_grants nothing_granted (read_stream s.chronicle grants_stream_id 0);
}

-- `has` and `list`
unfoldable pub has_grant : String → UserGrantStore → Bool
has_grant capability s = elim (Map.get capability s.live.granted) [ none ↦ false | some _ ↦ true ]

unfoldable pub list_grants : UserGrantStore → List GrantedCapability
list_grants s = Map.values s.live.details

module _ (registry : Registry GrantBody) (others : ℕ → Db GrantBody → Db GrantBody) where
  -- One pass of the loop of `#append`, and the passes that are left after it. A refusal is swallowed.
  unfoldable pub append_grant_attempts :
      (left : ℕ) → ℕ → NewEvent GrantBody → Db GrantBody → Db GrantBody
  append_grant_attempts zero now event db = db
  append_grant_attempts (suc left) now event db =
      let expected = get_latest_sequence db grants_stream_id + 1 in
      let moved = others left db in
      elim (append registry moved grants_stream_id (event ∷ []) expected now) [
        | ok (stored, db') ↦ db'
        | err error ↦ append_grant_attempts left now event moved
      ]

  unfoldable pub append_grant : ℕ → NewEvent GrantBody → Db GrantBody → Db GrantBody
  append_grant now event db = append_grant_attempts 2 now event db

  -- `record`: `later` is the second reading of the clock.
  unfoldable pub record_grant :
      Call → (later : ℕ) → GrantInput → UserGrantStore → Result Error UserGrantStore
  record_grant call later input s = do
    event ← grant_recorded_event call input none
    ok (record {
      chronicle = append_grant call.now event s.chronicle;
      live =
          grant_to
            (record {
              capability = input.capability;
              reason = input.reason;
              by = or_else input.by "user";
              at = later;
            })
            s.live;
    })

  -- `revoke` passes no `by`.
  unfoldable pub revoke_grant :
      Call → (capability : String) → Option String → UserGrantStore → Result Error UserGrantStore
  revoke_grant call capability reason s = do
    event ←
        grant_revoked_event call (record { capability = capability; reason = reason; by = none })
          none
    ok (record {
      chronicle = append_grant call.now event s.chronicle;
      live = withdraw capability s.live;
    })
