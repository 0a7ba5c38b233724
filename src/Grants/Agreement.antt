-- ===== src/Grants/Agreement.antt =====
-- The live grants against the log, when no other writer is in the way.
use bee_agent.Prelude.{
  ℕ, ◌+◌, String, ◌≡◌, refl, sym, ap, subst, ◌∙◌, inl, inr, true, false, Option, none, some,
  or_else, [], ◌∷◌, str_eq, Result, ok, Bool-cases,
}
use mathlib.Core.Option
use bee_agent.Prelude.Map
use bee_agent.Prelude.Map.{get-set, get-delete}
use bee_agent.Errors.{Error}
use bee_agent.Events.{Call}
use bee_agent.Chronicle.{
  Db, NewEvent, Registration, StoredEvent, Registry, append, get_latest_sequence, register, rows,
  stamp, validate_all, validate_new,
}
use bee_agent.Chronicle.Appending.{IsChronicle, Appended, append-Appended}
use bee_agent.Grants.{
  GrantBody, grant_event_type, other_fact, GrantInput, GrantPayload, GrantedCapability, Live,
  UserGrantStore, append_grant, append_grant_attempts, grant_event, grant_payload, grant_recorded,
  grant_revoked, grant_schema, grant_body_schema, grant_to, grants_stream_id, nothing_granted,
  rebuild_grants, record_grant, grant_recorded_event, grant_revoked_event, replay_grant,
  replay_grants, revoke_grant, withdraw,
}
use bee_agent.Grants.Replay.{remembered, replay_grants-append, rebuild_grants-remembered}

-- What a grant says, apart from the second reading of the clock.
abbrev pub facts : GrantedCapability → String × Option String × String
facts d = (d.capability, d.reason, d.by)

-- The same capabilities are granted, for the same reasons and by the same users.
pub record Same (l m : Live) : Type 0 where
  pub granted : (c : String) → Map.get c l.granted ≡ Map.get c m.granted
  pub details :
      (c : String) → Option.map facts (Map.get c l.details) ≡ Option.map facts (Map.get c m.details)

grant_to-Same :
    (l m : Live) (d e : GrantedCapability)
    → Same l m
    → d.capability ≡ e.capability
    → facts d ≡ facts e
    → Same (grant_to d l) (grant_to e m)
grant_to-Same l m d e h q f = record {
  granted = λ c.
      rw (get-set d.capability c tt l.granted, get-set e.capability c tt m.granted, q, h.granted c)
        refl;
  details = λ c.
      rw
        (
          get-set d.capability c d l.details,
          get-set e.capability c e m.details,
          ap (λ k. str_eq k c) (sym q),
        )
        (elim (Bool-cases (str_eq d.capability c)) [
          | inl b ↦ rw b (ap some f)
          | inr b ↦ rw b (h.details c)
        ]);
}

withdraw-Same : (l m : Live) (c : String) → Same l m → Same (withdraw c l) (withdraw c m)
withdraw-Same l m k h = record {
  granted = λ c. rw (get-delete k c l.granted, get-delete k c m.granted, h.granted c) refl;
  details = λ c.
      rw (get-delete k c l.details, get-delete k c m.details)
        (elim (Bool-cases (str_eq k c)) [ inl b ↦ rw b refl | inr b ↦ rw b (h.details c) ]);
}

-- The tables agree, and a restart would find what is granted now.
pub record IsAgreed (s : UserGrantStore) : Type 0 where
  pub chronicle : IsChronicle s.chronicle
  pub same : Same s.live (remembered s.chronicle)

abbrev pub quiet : ℕ → Db GrantBody → Db GrantBody
quiet attempt db = db

append_grant-Appended :
    (registry : Registry GrantBody) (now : ℕ) (event : NewEvent GrantBody) (db : Db GrantBody)
    → IsChronicle db
    → validate_new registry event ≡ ok tt
    → (k : ℕ) × Appended db grants_stream_id
        (stamp grants_stream_id k now (event ∷ []))
        (append_grant registry quiet now event db)
unfolding append_grant append_grant_attempts validate_all
append_grant-Appended registry now event db v valid =
    let k = get_latest_sequence db grants_stream_id + 1 in
    let (db', result, appended) =
      append-Appended registry db grants_stream_id event [] k now v (rw valid refl) refl in
    (
      k,
      subst (Appended db grants_stream_id (stamp grants_stream_id k now (event ∷ [])))
          (sym (stored db' result)) appended,
    )
  where
    stored :
        (db' : Db GrantBody)
        → append registry db grants_stream_id
            (event ∷ [])
            (get_latest_sequence db grants_stream_id + 1)
            now
          ≡ ok (
            stamp grants_stream_id (get_latest_sequence db grants_stream_id + 1) now (event ∷ []),
            db',
          )
        → append_grant registry quiet now event db ≡ db'
    stored db' result = rw (append_grant_attempts, result) refl

-- A restart after the append.
remembered-Appended :
    (db db' : Db GrantBody) (k now : ℕ) (event : NewEvent GrantBody)
    → Appended db grants_stream_id (stamp grants_stream_id k now (event ∷ [])) db'
    → remembered db' ≡ replay_grant (remembered db) event.body
unfolding replay_grants stamp
remembered-Appended db db' k now event appended =
    ap (replay_grants nothing_granted) appended.here
    ∙ replay_grants-append nothing_granted (rows db grants_stream_id) _

-- A host operation: `record` or `revoke`.
pub data GrantOperation : Type 0 where
  records : Call → (later : ℕ) → GrantInput → GrantOperation
  revokes : Call → (capability : String) → Option String → GrantOperation

abbrev pub payload_of : GrantOperation → GrantPayload
payload_of (records call later input) = grant_payload call input
payload_of (revokes call capability reason) =
    grant_payload call (record { capability = capability; reason = reason; by = none })

abbrev pub perform_grant :
    Registry GrantBody
    → (ℕ → Db GrantBody → Db GrantBody)
    → GrantOperation
    → UserGrantStore
    → Result Error UserGrantStore
perform_grant registry others (records call later input) s =
    record_grant registry others call later input s
perform_grant registry others (revokes call capability reason) s =
    revoke_grant registry others call capability reason s

abbrev pub call_of : GrantOperation → Call
call_of (records call later input) = call
call_of (revokes call capability reason) = call

abbrev pub grant_entry : Registration GrantBody
grant_entry = record { payload = grant_body_schema; ignorable = false }

-- The registry has the two event types of grants, each with the schema of its payload.
pub record Accepting (registry : Registry GrantBody) : Type 0 where
  pub types : registry.type_of ≡ grant_event_type
  pub recorded : Map.get "grant.recorded" registry.types ≡ some grant_entry
  pub revoked : Map.get "grant.revoked" registry.types ≡ some grant_entry

-- Then it takes the events that the builders make of valid payloads.
validate_new-grant_event :
    (registry : Registry GrantBody) (call : Call) (body : GrantBody)
    → Accepting registry
    → registry.is_uuid call.event_id ≡ true
    → grant_body_schema body ≡ true
    → validate_new registry (grant_event call body none) ≡ ok tt
unfolding validate_new bee_agent.Chronicle.envelope_schema bee_agent.Chronicle.new_chronicle_event
validate_new-grant_event registry call (grant_recorded p) a u h =
    rw (validate_new, a.types, u, a.recorded, h) refl
validate_new-grant_event registry call (grant_revoked p) a u h =
    rw (validate_new, a.types, u, a.revoked, h) refl
validate_new-grant_event registry call (other_fact _) a u h = absurd (cc h)

module _ (registry : Registry GrantBody) (accepting : Accepting registry) where
  -- The body that was written decides what a restart finds.
  agreed :
      (s : UserGrantStore) (live : Live) (now : ℕ) (event : NewEvent GrantBody)
      → IsAgreed s
      → validate_new registry event ≡ ok tt
      → Same live (replay_grant (remembered s.chronicle) event.body)
      → IsAgreed
          (record { chronicle = append_grant registry quiet now event s.chronicle; live = live })
  agreed s live now event v accepted same =
      let (k, appended) =
        append_grant-Appended registry now event s.chronicle v.chronicle accepted in
      record {
        chronicle = appended.chronicle;
        same = rw (remembered-Appended s.chronicle _ k now event appended) same;
      }

  restarted : (s : UserGrantStore) → IsAgreed s → Same s.live (rebuild_grants s).live
  restarted s v = rw (rebuild_grants-remembered s v.chronicle) v.same

  -- With a registry that has the two event types of grants with the schema of their payload,
  -- `record` and `revoke` of a valid payload, with a uuid as event id, succeed where no other writer
  -- moves the log in between, and afterwards a restart finds the capabilities that are granted, for the same
  -- reasons and by the same users, if it did before.
  pub perform_grant-IsAgreed :
      (op : GrantOperation) (s : UserGrantStore)
      → IsAgreed s
      → registry.is_uuid (call_of op).event_id ≡ true
      → grant_schema (payload_of op) ≡ true
      → (s' : UserGrantStore) × (perform_grant registry quiet op s ≡ ok s')
        × IsAgreed s'
        × Same s'.live (rebuild_grants s').live
  unfolding record_grant revoke_grant grant_recorded_event grant_revoked_event replay_grant
      bee_agent.Chronicle.new_chronicle_event
  perform_grant-IsAgreed (records call later input) s v u fits =
      let d : GrantedCapability = record {
        capability = input.capability;
        reason = input.reason;
        by = or_else input.by "user";
        at = later;
      } in
      let event = grant_event call (grant_recorded (grant_payload call input)) none in
      let after =
        agreed s (grant_to d s.live) call.now event v
          (validate_new-grant_event registry call (grant_recorded (grant_payload call input))
            accepting u fits)
          (grant_to-Same s.live (remembered s.chronicle) d _ v.same refl refl) in
      (_, rw fits refl, after, restarted _ after)
  perform_grant-IsAgreed (revokes call capability reason) s v u fits =
      let input : GrantInput = record { capability = capability; reason = reason; by = none } in
      let event = grant_event call (grant_revoked (grant_payload call input)) none in
      let after =
        agreed s (withdraw capability s.live) call.now event v
          (validate_new-grant_event registry call (grant_revoked (grant_payload call input))
            accepting u fits)
          (withdraw-Same s.live (remembered s.chronicle) capability v.same) in
      (_, rw fits refl, after, restarted _ after)
