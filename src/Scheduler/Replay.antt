-- ===== src/Scheduler/Replay.antt =====
-- The triggers in memory against the replay of the stream.
use bee_agent.Prelude.{
  ℕ, zero, suc, ◌+◌, ◌≡◌, refl, sym, ap, subst, ◌∙◌, inl, inr, List, [], ◌∷◌, ◌++◌, Result, ok, err,
  ◌>>=◌, >>=-eq-ok, bind_ext, bind_assoc, ok-injective, ok-snd, Bool-cases,
}
use bee_agent.Prelude.Map.{Map}
use bee_agent.Errors.{Error}
use bee_agent.Chronicle.{
  Db, NewEvent, StoredEvent, append, rows, stamp, get_latest_sequence, validate_all,
}
use bee_agent.Chronicle.Appending.{IsChronicle, Appended, append-Appended}
use bee_agent.Chronicle.Reading.{read_stream-drop}
use bee_agent.Kanban.Store.{Env}
use bee_agent.Scheduler.Protocol.{SchedulerTrigger}
use bee_agent.Scheduler.{
  AgentScheduler, scheduler_stream_id, replay, replay_all, rebuild, first_attempt, append_attempts,
  append_event, is_conflict,
}
use bee_agent.Events.{Body}

-- The tables agree, and the replay of the stream gives the triggers in memory.
pub record IsScheduled (s : AgentScheduler) : Type 0 where
  pub chronicle : IsChronicle s.chronicle
  pub agrees : replay_all [] (rows s.chronicle scheduler_stream_id) ≡ ok s.triggers

-- A successful append wrote its event at the end of the stream.
pub record Written (db : Db Body) (event : NewEvent Body) (db' : Db Body) : Type 0 where
  pub sequence : ℕ
  pub time : ℕ
  pub appended :
      Appended db scheduler_stream_id (stamp scheduler_stream_id sequence time (event ∷ [])) db'

first_attempt-Written :
    (env : Env) (now : ℕ) (event : NewEvent Body) (db : Db Body) {db' : Db Body}
    → IsChronicle db
    → first_attempt env now event db ≡ ok db'
    → Written db event db'
unfolding first_attempt append
first_attempt-Written env now event db v h =
    let k = get_latest_sequence db scheduler_stream_id + 1 in
    let (written, appending, returned) =
      >>=-eq-ok (append env.registry db scheduler_stream_id (event ∷ []) k now) _ h in
    let (_, valid, _) = >>=-eq-ok (validate_all env.registry (event ∷ [])) _ appending in
    let (db'', result, appended) =
      append-Appended env.registry db scheduler_stream_id event [] k now v valid refl in
    record {
      sequence = k;
      time = now;
      appended =
          subst (Appended db scheduler_stream_id (stamp scheduler_stream_id k now (event ∷ [])))
            (ok-snd (sym result ∙ appending) ∙ ok-injective returned) appended;
    }

append_attempts-Written :
    (n : ℕ) (env : Env) (now : ℕ) (event : NewEvent Body) (db : Db Body) {db' : Db Body}
    → IsChronicle db
    → append_attempts n env now event db ≡ ok db'
    → Written db event db'
unfolding append_attempts
append_attempts-Written zero env now event db v h = first_attempt-Written env now event db v h
append_attempts-Written (suc n) env now event db {db'} v h =
    tried (first_attempt env now event db) refl (append_attempts-Written n env now event db v)
  where
    tried :
        (r : Result Error (Db Body))
        → first_attempt env now event db ≡ r
        → (append_attempts n env now event db ≡ ok db' → Written db event db')
        → Written db event db'
    tried (ok d) e retried =
        first_attempt-Written env now event db v (e ∙ (rw (e, append_attempts) at h))
    tried (err x) e retried = elim (Bool-cases (is_conflict x)) [
      | inl again ↦ retried (rw (e, append_attempts, again) at h)
      | inr other ↦ absurd (cc (rw (e, append_attempts, other) at h))
    ]

pub replay_all-append :
    (m : Map SchedulerTrigger) (xs ys : List (StoredEvent Body))
    → replay_all m (xs ++ ys) ≡ (replay_all m xs >>= λ m'. replay_all m' ys)
unfolding replay_all
replay_all-append m [] ys = refl
replay_all-append m (x ∷ xs) ys =
    bind_ext (replay m x.body) (λ m'. replay_all-append m' xs ys)
    ∙ sym (bind_assoc (replay m x.body) (λ m'. replay_all m' xs) (λ m'. replay_all m' ys))

-- An event that is written where memory and stream agree, and the state that its replay gives.
pub Written-IsScheduled :
    (s : AgentScheduler) (event : NewEvent Body) (db : Db Body) (m : Map SchedulerTrigger)
    → IsScheduled s
    → Written s.chronicle event db
    → replay s.triggers event.body ≡ ok m
    → IsScheduled (record { chronicle = db; triggers = m })
unfolding replay_all stamp
Written-IsScheduled s event db m v w h = record {
  chronicle = w.appended.chronicle;
  agrees =
      ap (replay_all []) w.appended.here
      ∙ replay_all-append [] (rows s.chronicle scheduler_stream_id) _
      ∙ rw (v.agrees, replay_all, h);
}

pub append_event-Written :
    (env : Env) (now : ℕ) (event : NewEvent Body) (db : Db Body) {db' : Db Body}
    → IsChronicle db
    → append_event env now event db ≡ ok db'
    → Written db event db'
unfolding append_event
append_event-Written env now event db v h = append_attempts-Written 2 env now event db v h

-- Where memory and stream agree, a rebuild gives the state in memory, its map in the same order.
pub rebuild-same : (s : AgentScheduler) → IsScheduled s → rebuild s.chronicle ≡ ok s
unfolding rebuild
rebuild-same s v = rw (read_stream-drop s.chronicle scheduler_stream_id 0 v.chronicle, v.agrees)
