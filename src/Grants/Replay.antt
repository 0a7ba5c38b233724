-- ===== src/Grants/Replay.antt =====
-- What the replay of a log says of one capability.
use bee_agent.Prelude.{◌≡◌, refl, ap, List, [], ◌∷◌, ◌++◌}
use bee_agent.Chronicle.{Db, StoredEvent, rows}
use bee_agent.Chronicle.Appending.{IsChronicle}
use bee_agent.Chronicle.Reading.{read_stream-drop}
use bee_agent.Grants.{
  GrantBody, Live, UserGrantStore, grants_stream_id, nothing_granted, replay_grant, replay_grants,
  rebuild_grants,
}

pub replay_grants-append :
    (l : Live) (xs ys : List (StoredEvent GrantBody))
    → replay_grants l (xs ++ ys) ≡ replay_grants (replay_grants l xs) ys
unfolding replay_grants
replay_grants-append l [] ys = refl
replay_grants-append l (x ∷ xs) ys = replay_grants-append (replay_grant l x.body) xs ys

-- What a restart finds.
abbrev pub remembered : Db GrantBody → Live
remembered db = replay_grants nothing_granted (rows db grants_stream_id)

pub rebuild_grants-remembered :
    (s : UserGrantStore)
    → IsChronicle s.chronicle
    → rebuild_grants s ≡ record s { live = remembered s.chronicle }
unfolding rebuild_grants
rebuild_grants-remembered s v =
    ap (λ log. record s { live = replay_grants nothing_granted log })
      (read_stream-drop s.chronicle grants_stream_id 0 v)
