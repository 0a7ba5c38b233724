-- ===== src/Tests/Permissions.antt =====
-- Instances of the theorems on user grants.
use bee_agent.Prelude.{
  ℕ, String, ◌≡◌, refl, true, false, none, some, List, [], ◌∷◌, ok, ◌==◌, if◌then◌else◌,
}
use bee_agent.Prelude.Text.{has_prefix}
use bee_agent.Prelude.Map
use bee_agent.Errors.{sequence_conflict}
use bee_agent.Chronicle.{
  Db, NewEvent, Registration, Registry, StoredEvent, append, empty, get_latest_sequence, rows,
  stamp, validate_new,
}
use bee_agent.Chronicle.Appending.{IsChronicle, empty-IsChronicle}
use bee_agent.Chronicle.Outcome.{append-IsChronicle}
use bee_agent.Grants.{
  GrantBody, GrantInput, GrantPayload, UserGrantStore, grant_body_schema, grant_event,
  grant_event_type, grant_payload, grant_recorded, grant_revoked, grants_stream_id, has_grant,
  nothing_granted, other_fact, rebuild_grants, register_grant_chronicle_events, revoke_grant,
  withdraw,
}
use bee_agent.Grants.Agreement.{
  Accepting, grant_entry, GrantOperation, IsAgreed, Same, perform_grant, perform_grant-IsAgreed,
  quiet, records,
}
use bee_agent.Grants.Losing.{revoke_grant_lost}
use bee_agent.Tests.Fixtures.{call_at}

abbrev unregistered : Registry GrantBody
unregistered = record { type_of = grant_event_type; is_uuid = λ t. has_prefix t "u"; types = [] }

abbrev grant_registry : Registry GrantBody
grant_registry = record unregistered {
  types = ("grant.recorded", grant_entry) ∷ ("grant.revoked", grant_entry) ∷ [];
}

registering_grants : register_grant_chronicle_events unregistered ≡ ok grant_registry
unfolding register_grant_chronicle_events bee_agent.Chronicle.register Map.get Map.set
registering_grants = refl

accepting : Accepting grant_registry
unfolding Map.get
accepting = record { types = refl; recorded = refl; revoked = refl }

abbrev no_grants : UserGrantStore
no_grants = record { chronicle = empty; live = nothing_granted }

no_grants-IsAgreed : IsAgreed no_grants
unfolding bee_agent.Grants.replay_grants rows Map.get
no_grants-IsAgreed = record {
  chronicle = empty-IsChronicle;
  same = record { granted = λ _. refl; details = λ _. refl };
}

abbrev ask : GrantInput
ask = record { capability = "net.fetch"; reason = some "weather"; by = none }

abbrev grant_net : GrantOperation
grant_net = records (call_at "ue-1" 1) 2 ask

perform_grant-IsAgreed_example :
    (s' : UserGrantStore) × (perform_grant grant_registry quiet grant_net no_grants ≡ ok s')
    × IsAgreed s'
    × Same s'.live (rebuild_grants s').live
unfolding bee_agent.Grants.grant_schema
perform_grant-IsAgreed_example =
    perform_grant-IsAgreed grant_registry accepting grant_net no_grants no_grants-IsAgreed refl refl

abbrev recorded_at : String → String → ℕ → NewEvent GrantBody
recorded_at id capability now =
    grant_event (call_at id now)
      (grant_recorded (record { capability = capability; reason = none; by = "user"; at = now }))
      none

-- The log has one grant; before each attempt of the revocation another grant is appended.
abbrev row_at : String → String → ℕ → ℕ → StoredEvent GrantBody
row_at id capability sequence now = record {
  event = recorded_at id capability now;
  stream_id = "grants";
  sequence = sequence;
  ingest_time = now;
}

abbrev log_with : ℕ → List (StoredEvent GrantBody) → Db GrantBody
log_with n log = record { streams = ("grants", n) ∷ []; events = ("grants", log) ∷ [] }

abbrev fetch_row : StoredEvent GrantBody
fetch_row = row_at "ue-1" "net.fetch" 1 1

abbrev write_row : StoredEvent GrantBody
write_row = row_at "ue-9" "fs.write" 2 9

abbrev read_row : StoredEvent GrantBody
read_row = row_at "ue-8" "fs.read" 3 9

abbrev grants_1 : Db GrantBody
grants_1 = log_with 1 (fetch_row ∷ [])

abbrev grants_2 : Db GrantBody
grants_2 = log_with 2 (fetch_row ∷ write_row ∷ [])

abbrev grants_3 : Db GrantBody
grants_3 = log_with 3 (fetch_row ∷ write_row ∷ read_row ∷ [])

appending_fetch :
    append grant_registry empty "grants" (recorded_at "ue-1" "net.fetch" 1 ∷ []) 1 1
    ≡ ok (fetch_row ∷ [], grants_1)
unfolding append bee_agent.Chronicle.validate_all validate_new Map.get
    bee_agent.Chronicle.new_chronicle_event bee_agent.Grants.grant_schema
    bee_agent.Chronicle.append_locked Map.set bee_agent.Chronicle.insert_rows stamp
    bee_agent.Chronicle.insert_row bee_agent.Chronicle.last_sequence
    bee_agent.Chronicle.envelope_schema
appending_fetch = refl

appending_write :
    append grant_registry grants_1 "grants" (recorded_at "ue-9" "fs.write" 9 ∷ []) 2 9
    ≡ ok (write_row ∷ [], grants_2)
unfolding append bee_agent.Chronicle.validate_all validate_new Map.get
    bee_agent.Chronicle.new_chronicle_event bee_agent.Grants.grant_schema
    bee_agent.Chronicle.append_locked bee_agent.Chronicle.insert_rows stamp
    bee_agent.Chronicle.insert_row Map.set bee_agent.Chronicle.last_sequence
    bee_agent.Chronicle.envelope_schema
appending_write = refl

appending_read :
    append grant_registry grants_2 "grants" (recorded_at "ue-8" "fs.read" 9 ∷ []) 3 9
    ≡ ok (read_row ∷ [], grants_3)
unfolding append bee_agent.Chronicle.validate_all validate_new Map.get
    bee_agent.Chronicle.new_chronicle_event bee_agent.Grants.grant_schema
    bee_agent.Chronicle.append_locked bee_agent.Chronicle.insert_rows stamp
    bee_agent.Chronicle.insert_row Map.set bee_agent.Chronicle.last_sequence
    bee_agent.Chronicle.envelope_schema
appending_read = refl

grants_3-IsChronicle : IsChronicle grants_3
grants_3-IsChronicle =
    append-IsChronicle grant_registry grants_2 "grants" _ 3 9
      (append-IsChronicle grant_registry grants_1 "grants" _ 2 9
        (append-IsChronicle grant_registry empty "grants" _ 1 1 empty-IsChronicle appending_fetch)
        appending_write)
      appending_read

-- The other writer.
abbrev busy : ℕ → Db GrantBody → Db GrantBody
busy left db = if left == 0 then grants_3 else grants_2

abbrev one_grant : UserGrantStore
one_grant = record {
  chronicle = grants_1;
  live = record {
    granted = ("net.fetch", tt) ∷ [];
    details =
        ("net.fetch", record { capability = "net.fetch"; reason = none; by = "user"; at = 1 }) ∷ [];
  };
}

revoke_grant_lost_example :
    (s' : UserGrantStore) × (revoke_grant grant_registry busy
        (call_at "ue-7" 9)
        "net.fetch"
        none
        one_grant
      ≡ ok s')
    × (has_grant "net.fetch" s' ≡ false)
    × (has_grant "net.fetch" (rebuild_grants s') ≡ true)
unfolding bee_agent.Grants.grant_schema append bee_agent.Chronicle.validate_all validate_new Map.get
    bee_agent.Chronicle.new_chronicle_event bee_agent.Chronicle.append_locked
    bee_agent.Chronicle.same_events bee_agent.Grants.replay_grants bee_agent.Grants.replay_grant
    Map.set bee_agent.Chronicle.envelope_schema
revoke_grant_lost_example =
    revoke_grant_lost grant_registry busy (call_at "ue-7" 9) "net.fetch" none one_grant refl
      (sequence_conflict "grants" 2 3, refl) (sequence_conflict "grants" 3 4, refl)
      grants_3-IsChronicle refl
