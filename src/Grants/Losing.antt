-- ===== src/Grants/Losing.antt =====
-- A grant or a revocation whose append is refused in both attempts.
use bee_agent.Prelude.{
  ℕ, ◌+◌, String, ◌≡◌, refl, true, false, Option, none, some, [], ◌∷◌, ok, err, arith, str_eq_iff,
}
use bee_agent.Prelude.Map
use bee_agent.Prelude.Map.{get-delete}
use bee_agent.Errors.{Error}
use bee_agent.Events.{Call}
use bee_agent.Chronicle.{Db, Registry, append, get_latest_sequence}
use bee_agent.Chronicle.Appending.{IsChronicle}
use bee_agent.Grants.{
  GrantBody, GrantInput, UserGrantStore, append_grant, append_grant_attempts, grant_event,
  grant_payload, grant_revoked, grant_revoked_event, grant_schema, grants_stream_id, has_grant,
  rebuild_grants, revoke_grant, withdraw,
}
use bee_agent.Grants.Replay.{remembered, rebuild_grants-remembered}

deleted : (c : String) (m : Map.Map (Unit {0})) → Map.get c (Map.delete c m) ≡ none
deleted c m = ground (arith, get-delete c c m, str_eq_iff c c)

module _ (registry : Registry GrantBody) (others : ℕ → Db GrantBody → Db GrantBody) (call : Call)
    (capability : String) (reason : Option String) where
  abbrev input : GrantInput
  input = record { capability = capability; reason = reason; by = none }

  -- The append of the revocation is refused in the attempt `left`, made on the database `db`.
  abbrev pub Refused : (left : ℕ) → Db GrantBody → Type 0
  Refused left db =
      (error : Error) × (append registry (others left db) grants_stream_id
          (grant_event call (grant_revoked (grant_payload call input)) none ∷ [])
          (get_latest_sequence db grants_stream_id + 1) call.now
        ≡ err error)

  -- A revocation that finds other writers ahead of it in both attempts still returns: the
  -- capability is gone from the live grants, and a restart grants it again if the log did.
  pub revoke_grant_lost :
      (s : UserGrantStore)
      → grant_schema (grant_payload call input) ≡ true
      → Refused 1 s.chronicle
      → Refused 0 (others 1 s.chronicle)
      → IsChronicle (others 0 (others 1 s.chronicle))
      → Map.get capability (remembered (others 0 (others 1 s.chronicle))).granted ≡ some tt
      → (s' : UserGrantStore) × (revoke_grant registry others call capability reason s ≡ ok s')
        × (has_grant capability s' ≡ false)
        × (has_grant capability (rebuild_grants s') ≡ true)
  unfolding revoke_grant grant_revoked_event append_grant append_grant_attempts has_grant
  revoke_grant_lost s fits (e, first) (f, second) v held =
      let s' : UserGrantStore = record {
        chronicle = others 0 (others 1 s.chronicle);
        live = withdraw capability s.live;
      } in
      (
        s',
        rw (fits, append_grant_attempts, first, append_grant_attempts, second) refl,
        rw (has_grant, deleted capability s.live.granted) refl,
        rw (rebuild_grants-remembered s' v, has_grant, held) refl,
      )
