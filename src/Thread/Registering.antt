-- ===== src/Thread/Registering.antt =====
-- `registerThreadChronicleEvents`: what the registry holds afterwards.
use bee_agent.Prelude.{
  String, ◌≡◌, refl, sym, ap, ◌∙◌, subst, inl, inr, Bool, true, false, none, some, any_of, List, [],
  ◌∷◌, arith, if◌then◌else◌, ◌||◌, str_eq, str_eq_iff, ok, >>=-eq-ok, Option-cases, ok-injective,
}
use bee_agent.Prelude.Map
use bee_agent.Prelude.Map.{get-set}
use bee_agent.Chronicle.{NewEvent, envelope_schema, Registration, Registry, register, validate_new}
use bee_agent.Thread.Protocol.{ThreadBody}
use bee_agent.Thread.Schema.{payload_schema}
use bee_agent.Thread.Build.{
  thread_event_type, thread_event_types, register_types, register_thread_chronicle_events,
}
use bee_agent.Thread.Wire.{Scoped, known}

module _ (is_uuid : String → Bool) where
  abbrev pub entry : Registration ThreadBody
  entry = record { payload = payload_schema is_uuid; ignorable = false }

  register-ok :
      (type : String) (r r' : Registry ThreadBody)
      → register type (payload_schema is_uuid) none r ≡ ok r'
      → r' ≡ record r { types = Map.set type entry r.types }
  unfolding register
  register-ok type r r' h = elim (Option-cases (Map.get type r.types)) [
    | inl e ↦ sym (ok-injective (rw (register, e) at h))
    | inr (x, e) ↦ absurd (ground arith)
  ]

  one_more :
      (type t : String) (rest : Bool) (before after : Map.Map (Registration ThreadBody))
      → after ≡ Map.set type entry before
      → (if rest then some entry else Map.get t after)
        ≡ (if str_eq t type || rest then some entry else Map.get t before)
  one_more type t rest before after e =
      rw e (ground (arith, get-set type t entry before, str_eq_iff type t, str_eq_iff t type))

  -- What a registration that returns has added: the entries of `types`, and nothing else.
  pub record Registers (types : List String) (r r' : Registry ThreadBody) : Type 0 where
    pub same_type : r'.type_of ≡ r.type_of
    pub same_uuid : r'.is_uuid ≡ r.is_uuid
    pub entries :
        (type : String)
        → Map.get type r'.types
          ≡ (if any_of (str_eq type) types then some entry else Map.get type r.types)

  register_types-Registers :
      (types : List String) (r r' : Registry ThreadBody)
      → register_types is_uuid types r ≡ ok r'
      → Registers types r r'
  unfolding register_types
  register_types-Registers [] r r' h =
      let e = ok-injective h in
      subst (Registers [] r) e
        (record { same_type = refl; same_uuid = refl; entries = λ type. refl })
  register_types-Registers (type ∷ types) r r' h =
      let (r1, first, rest) =
        >>=-eq-ok (register type (payload_schema is_uuid) none r) (register_types is_uuid types)
          h in
      let e = register-ok type r r1 first in
      let after = register_types-Registers types r1 r' rest in
      record {
        same_type = after.same_type ∙ ap (λ (x : Registry ThreadBody). x.type_of) e;
        same_uuid = after.same_uuid ∙ ap (λ (x : Registry ThreadBody). x.is_uuid) e;
        entries = λ t.
            after.entries t
            ∙ one_more type t (any_of (str_eq t) types) r.types r1.types
                (ap (λ (x : Registry ThreadBody). x.types) e);
      }

  -- A registration of the thread's types that returns has given every type of the thread its
  -- payload schema, and left every other type as it was.
  pub register_thread_chronicle_events-Registers :
      (r r' : Registry ThreadBody)
      → register_thread_chronicle_events is_uuid r ≡ ok r'
      → Registers thread_event_types r r'
  unfolding register_thread_chronicle_events
  register_thread_chronicle_events-Registers r r' h =
      register_types-Registers thread_event_types r r' h

  -- Afterwards an event of a thread is accepted.
  pub validate_new-Scoped :
      (r r' : Registry ThreadBody) (thread_id : String) (event : NewEvent ThreadBody)
      → register_thread_chronicle_events is_uuid r ≡ ok r'
      → r.type_of ≡ thread_event_type
      → envelope_schema r.is_uuid (thread_event_type event.body) event ≡ true
      → Scoped is_uuid thread_id event
      → validate_new r' event ≡ ok tt
  unfolding validate_new
  validate_new-Scoped r r' thread_id event h t e scoped =
      let after = register_thread_chronicle_events-Registers r r' h in
      let q : r'.type_of ≡ thread_event_type = after.same_type ∙ t in
      let found : Map.get (thread_event_type event.body) r'.types ≡ some entry =
        after.entries (thread_event_type event.body)
        ∙ ap
            (λ (b : Bool). if b then some entry else Map.get (thread_event_type event.body) r.types)
            (known is_uuid event.body scoped.fits) in
      rw (q, after.same_uuid, e, found, scoped.fits) refl
