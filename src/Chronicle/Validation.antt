-- ===== src/Chronicle/Validation.antt =====
-- packages/knowledge/src/registry.ts. The uuid test of zod is the parameter `is_uuid`; a registered
-- payload schema is the function that says whether its `safeParse` succeeds.
use bee_agent.Prelude.{
  String, Bool, false, Option, none, some, or_else, List, [], ◌∷◌, Result, ok, err, guard, require,
  ◌>>=◌, ◌>>◌, if◌then◌else◌,
}
use bee_agent.Prelude.Map
use bee_agent.Prelude.Map.{Map}
use bee_agent.Errors.{
  Error, already_registered, unknown_event_type, envelope_invalid, payload_invalid,
}
use bee_agent.Chronicle.Envelope.{NewEvent, StoredEvent, envelope_schema}

pub record Registration (B : Type 0) : Type 0 where
  pub payload : B → Bool
  pub ignorable : Bool

pub record Registry (B : Type 0) : Type 0 where
  pub type_of : B → String
  pub is_uuid : String → Bool
  pub types : Map (Registration B)

pub data ReplayValidation : Type 0 where
  replayable : ReplayValidation
  refused : Bool → Error → ReplayValidation

module _ {B : Type 0} where
  -- `ChronicleSchemaRegistry.register`
  unfoldable pub register :
      String → (B → Bool) → Option Bool → Registry B → Result Error (Registry B)
  register type payload ignorable r = elim (Map.get type r.types) [
    | some _ ↦ err (already_registered type)
    | none ↦
        let entry : Registration B = record {
          payload = payload;
          ignorable = or_else ignorable false;
        } in
        ok (record r { types = Map.set type entry r.types })
  ]

  -- `validateNew`: envelope, then type, then payload
  unfoldable pub validate_new : Registry B → NewEvent B → Result Error (Unit {0})
  validate_new r event = do
    guard (envelope_schema r.is_uuid (r.type_of event.body) event)
        (envelope_invalid (r.type_of event.body))
    registration ←
        require (Map.get (r.type_of event.body) r.types) (unknown_event_type (r.type_of event.body))
    guard (registration.payload event.body) (payload_invalid (r.type_of event.body))

  -- The loop of `append` over the batch.
  unfoldable pub validate_all : Registry B → List (NewEvent B) → Result Error (Unit {0})
  validate_all r [] = ok tt
  validate_all r (event ∷ events) = validate_new r event >> validate_all r events

  unfoldable pub validate_replay : Registry B → StoredEvent B → ReplayValidation
  validate_replay r event = elim (Map.get (r.type_of event.body) r.types) [
    | none ↦ refused false (unknown_event_type (r.type_of event.body))
    | some registration ↦
        if registration.payload event.body
        then replayable
        else refused registration.ignorable (payload_invalid (r.type_of event.body))
  ]
