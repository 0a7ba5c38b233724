-- ===== src/Scheduler/Recording.antt =====
-- What each operation of the scheduler leaves in memory and in the stream.
use bee_agent.Prelude.{
  ℕ, String, ◌≡◌, refl, sym, ap, subst, ◌∙◌, not, ◌&&◌, ◌||◌, is_some, Option, some, [], Result, ok,
  err, >>=-eq-ok, require-eq-ok, guard-eq-ok, ok-injective, ok-snd,
}
use bee_agent.Prelude.Map
use bee_agent.Prelude.Map.{Map, get-set_self, get-delete}
use bee_agent.Errors.{Error}
use bee_agent.Chronicle.{Db, empty, rows, get_latest_sequence, new_chronicle_event}
use bee_agent.Chronicle.Appending.{IsChronicle}
use bee_agent.Kanban.Store.{Env}
use bee_agent.Scheduler.Protocol.{SchedulerTrigger, trigger_schema, triggered_schema}
use bee_agent.Scheduler.{
  AgentScheduler, RegisterSchedulerTriggerInput, scheduler_stream_id, replay, replay_all,
  append_event, interval_fits, registered, register, remove,
}
use bee_agent.Scheduler.Fire.{
  SchedulerFiredRun, TurnPort, payload_of, rescheduled, run_of, settle, fire,
}
use bee_agent.Scheduler.Replay.{IsScheduled, Written, Written-IsScheduled, append_event-Written}
use bee_agent.Events.{
  Body, Call, scheduler_trigger_registered_event, scheduler_trigger_triggered_event,
  scheduler_trigger_removed_event,
}

pub register-IsScheduled :
    (env : Env) (call : Call) (input : RegisterSchedulerTriggerInput) (s : AgentScheduler)
    {t : SchedulerTrigger} {s' : AgentScheduler}
    → IsScheduled s
    → register env call input s ≡ ok (t, s')
    → IsScheduled s'
      × (s'.triggers ≡ Map.set (registered call input).id (registered call input) s.triggers)
unfolding register replay new_chronicle_event
register-IsScheduled env call input s v h =
    let (_, h1) = guard-eq-ok (interval_fits input.interval_ms) _ _ h in
    let (_, h2) =
      guard-eq-ok (not (is_some input.when && (is_some input.at || is_some input.interval_ms))) _ _
        h1 in
    let (_, h3) =
      guard-eq-ok (is_some input.when || (is_some input.at || is_some input.interval_ms)) _ _ h2 in
    let (_, h4) = guard-eq-ok (trigger_schema env.is_uuid (registered call input)) _ _ h3 in
    let trigger = registered call input in
    let event = scheduler_trigger_registered_event call trigger in
    let (db, written, returned) = >>=-eq-ok (append_event env call.now event s.chronicle) _ h4 in
    (
      subst IsScheduled (ok-snd returned) (
          Written-IsScheduled s event db (Map.set trigger.id trigger s.triggers) v
            (append_event-Written env call.now event s.chronicle v.chronicle written) refl),
      ap (λ (u : AgentScheduler). u.triggers) (sym (ok-snd returned)),
    )

pub remove-IsScheduled :
    (env : Env) (call : Call) (id : String) (reason : Option String) (s : AgentScheduler)
    {s' : AgentScheduler}
    → IsScheduled s
    → remove env call id reason s ≡ ok s'
    → IsScheduled s' × (s'.triggers ≡ Map.delete id s.triggers)
unfolding remove replay new_chronicle_event
remove-IsScheduled env call id reason s v h =
    let (trigger, _, h') = require-eq-ok (Map.get id s.triggers) _ _ h in
    let event = scheduler_trigger_removed_event call id reason (some trigger.thread_id) in
    let (db, written, returned) = >>=-eq-ok (append_event env call.now event s.chronicle) _ h' in
    (
      subst IsScheduled (ok-injective returned) (
          Written-IsScheduled s event db (Map.delete id s.triggers) v
            (append_event-Written env call.now event s.chronicle v.chronicle written) refl),
      ap (λ (u : AgentScheduler). u.triggers) (sym (ok-injective returned)),
    )

-- The replay of a firing does what the firing does, if the trigger was the one in memory.
replay_fired :
    (call : Call) (now : ℕ) (t : SchedulerTrigger) (run : SchedulerFiredRun)
    (m : Map SchedulerTrigger)
    → Map.get t.id m ≡ some t
    → replay m (scheduler_trigger_triggered_event call (payload_of now t run)).body
      ≡ ok (rescheduled now t m)
unfolding replay new_chronicle_event
replay_fired call now t run m stored = rw stored

pub settle-Written :
    (env : Env) (call : Call) (now : ℕ) (t : SchedulerTrigger) (run : SchedulerFiredRun)
    (s : AgentScheduler) {done : SchedulerFiredRun} {s' : AgentScheduler}
    → IsChronicle s.chronicle
    → settle env call now t run s ≡ ok (done, s')
    → Written s.chronicle
        (scheduler_trigger_triggered_event call (payload_of now t run))
        s'.chronicle
      × (s'.triggers ≡ rescheduled now t s.triggers)
unfolding settle
settle-Written env call now t run s v h =
    let (_, h') = guard-eq-ok (triggered_schema env.is_uuid (payload_of now t run)) _ _ h in
    let event = scheduler_trigger_triggered_event call (payload_of now t run) in
    let (db, written, returned) = >>=-eq-ok (append_event env call.now event s.chronicle) _ h' in
    (
      subst (Written s.chronicle event) (ap (λ (u : AgentScheduler). u.chronicle) (ok-snd returned))
          (append_event-Written env call.now event s.chronicle v written),
      ap (λ (u : AgentScheduler). u.triggers) (sym (ok-snd returned)),
    )

pub settle-IsScheduled :
    (env : Env) (call : Call) (now : ℕ) (t : SchedulerTrigger) (run : SchedulerFiredRun)
    (s : AgentScheduler) {done : SchedulerFiredRun} {s' : AgentScheduler}
    → IsScheduled s
    → Map.get t.id s.triggers ≡ some t
    → settle env call now t run s ≡ ok (done, s')
    → IsScheduled s'
settle-IsScheduled env call now t run s {s' = s'} v stored h =
    let (written, triggers) = settle-Written env call now t run s v.chronicle h in
    Written-IsScheduled s (scheduler_trigger_triggered_event call (payload_of now t run))
      s'.chronicle s'.triggers v written
      (replay_fired call now t run s.triggers stored ∙ ap ok (sym triggers))

-- A turn keeps the tables of the log in agreement and writes to other streams than the scheduler's.
abbrev pub KeepsStream : TurnPort → Type 0
KeepsStream turns =
    (t : SchedulerTrigger) (db : Db Body)
    → IsChronicle db
    → IsChronicle (turns t db).1
      × (rows (turns t db).1 scheduler_stream_id ≡ rows db scheduler_stream_id)

-- A firing, whatever becomes of it, keeps memory and stream in agreement.
pub fire-IsScheduled :
    (env : Env) (turns : TurnPort) (call : Call) (now : ℕ) (t : SchedulerTrigger)
    (s : AgentScheduler)
    → KeepsStream turns
    → IsScheduled s
    → Map.get t.id s.triggers ≡ some t
    → IsScheduled (fire env turns call now t s).1
unfolding fire
fire-IsScheduled env turns call now t s keeps v stored =
    settled
      (settle env call now t (run_of now t (turns t s.chronicle).0)
        (record s { chronicle = (turns t s.chronicle).1 }))
      refl
  where
    after : IsScheduled (record s { chronicle = (turns t s.chronicle).1 })
    after = record {
      chronicle = (keeps t s.chronicle v.chronicle).0;
      agrees = ap (replay_all []) (keeps t s.chronicle v.chronicle).1 ∙ v.agrees;
    }

    settled :
        (r : Result Error (SchedulerFiredRun × AgentScheduler))
        → settle env call now t
            (run_of now t (turns t s.chronicle).0)
            (record s { chronicle = (turns t s.chronicle).1 })
          ≡ r
        → IsScheduled (fire env turns call now t s).1
    settled (err x) e = rw (fire, e) after
    settled (ok (done, s')) e =
        rw (fire, e)
          (settle-IsScheduled env call now t (run_of now t (turns t s.chronicle).0) _ after stored
            e)

pub empty-IsScheduled : IsScheduled (record { chronicle = empty; triggers = [] })
unfolding rows get_latest_sequence Map.get replay_all
empty-IsScheduled = record {
  chronicle = record { numbered = λ _. tt; counted = λ _. refl };
  agrees = refl;
}
