-- ===== src/Scheduler/Firing.antt =====
-- The loops of `tick`, and `notify`, keep the triggers in memory in agreement with the stream.
use Prim.Native.Nat.{Ordering}
use bee_agent.Prelude.{
  ℕ, suc, String, ◌≡◌, ◌≢◌, refl, sym, ap, subst, ◌∙◌, inl, inr, ◌⊎◌, arith, str_eq_iff, Bool, true,
  false, Option, none, some, List, [], ◌∷◌, ◌++◌, Result, ok, err, All, All-Member, All-of_Member,
  Member-filter, filter, length,
}
use bee_agent.Prelude.Map
use bee_agent.Prelude.Map.{Map, get-set_ne, get-delete}
use bee_agent.Prelude.Sort.{Member-sort}
use bee_agent.Errors.{Error}
use bee_agent.Chronicle.Appending.{IsChronicle}
use bee_agent.Kanban.Store.{Env}
use bee_agent.Scheduler.Protocol.{SchedulerTrigger, SchedulerWhen}
use bee_agent.Scheduler.{AgentScheduler}
use bee_agent.Scheduler.Fire.{
  SchedulerFiredRun, TurnPort, run_of, rescheduled, following, settle, fire,
}
use bee_agent.Scheduler.Ticking.{
  fire_all, is_pending, is_satisfied, is_due, due_triggers, fire_pending, tick, is_notified,
  fire_first, notify,
}
use bee_agent.Scheduler.Replay.{IsScheduled}
use bee_agent.Scheduler.Recording.{KeepsStream, settle-Written, fire-IsScheduled}
use bee_agent.Scheduler.Tidy.{
  Tidy, Apart, Kept, Tidy-rescheduled, Tidy-get, Apart-values, Apart-filter, Apart-sort,
}
use bee_agent.Events.{Call}

-- Memory agrees with the stream, and has each trigger once, under its id.
pub record IsSound (s : AgentScheduler) : Type 0 where
  pub scheduled : IsScheduled s
  pub tidy : Tidy s.triggers

rescheduled_others :
    (now : ℕ) (t : SchedulerTrigger) (m : Map SchedulerTrigger) (id : String)
    → t.id ≢ id
    → Map.get id (rescheduled now t m) ≡ Map.get id m
rescheduled_others now t m id apart = by_when t.when
  where
    by_when :
        (w : Option SchedulerWhen)
        → Map.get id (elim w [
          | some _ ↦ Map.delete t.id m
          | none ↦ Map.set t.id (record t { next_run_at = following now t }) m
        ])
          ≡ Map.get id m
    by_when (some w) = get-delete t.id id m ∙ ground (arith, str_eq_iff t.id id)
    by_when none = get-set_ne t.id id (record t { next_run_at = following now t }) m apart

module _ (env : Env) (turns : TurnPort) (keeps : KeepsStream turns) where
  -- The triggers in memory after a firing: as before if its record failed.
  fired_triggers :
      (call : Call) (now : ℕ) (t : SchedulerTrigger) (s : AgentScheduler)
      → IsChronicle s.chronicle
      → ((fire env turns call now t s).1.triggers ≡ s.triggers)
        ⊎ ((fire env turns call now t s).1.triggers ≡ rescheduled now t s.triggers)
  unfolding fire
  fired_triggers call now t s v =
      settled
        (settle env call now t (run_of now t (turns t s.chronicle).0)
          (record s { chronicle = (turns t s.chronicle).1 }))
        refl
    where
      settled :
          (r : Result Error (SchedulerFiredRun × AgentScheduler))
          → settle env call now t
              (run_of now t (turns t s.chronicle).0)
              (record s { chronicle = (turns t s.chronicle).1 })
            ≡ r
          → ((fire env turns call now t s).1.triggers ≡ s.triggers)
            ⊎ ((fire env turns call now t s).1.triggers ≡ rescheduled now t s.triggers)
      settled (err x) e = inl (rw (fire, e))
      settled (ok (done, s')) e = inr (
          rw (fire, e)
            (settle-Written env call now t (run_of now t (turns t s.chronicle).0) _
              (keeps t s.chronicle v).0 e).1)

  fire-IsSound :
      (call : Call) (now : ℕ) (t : SchedulerTrigger) (s : AgentScheduler)
      → IsSound s
      → Map.get t.id s.triggers ≡ some t
      → IsSound (fire env turns call now t s).1
  fire-IsSound call now t s v stored = record {
    scheduled = fire-IsScheduled env turns call now t s keeps v.scheduled stored;
    tidy = elim (fired_triggers call now t s v.scheduled.chronicle) [
      | inl e ↦ subst Tidy (sym e) v.tidy
      | inr e ↦ subst Tidy (sym e) (Tidy-rescheduled now t s.triggers v.tidy)
    ];
  }

  fire_others :
      (call : Call) (now : ℕ) (t : SchedulerTrigger) (s : AgentScheduler) (id : String)
      → IsChronicle s.chronicle
      → t.id ≢ id
      → Map.get id (fire env turns call now t s).1.triggers ≡ Map.get id s.triggers
  fire_others call now t s id v apart = elim (fired_triggers call now t s v) [
    | inl e ↦ ap (Map.get id) e
    | inr e ↦ ap (Map.get id) e ∙ rescheduled_others now t s.triggers id apart
  ]

  Kept-fire :
      (call : Call) (now : ℕ) (t : SchedulerTrigger) (ts : List SchedulerTrigger)
      (s : AgentScheduler)
      → IsChronicle s.chronicle
      → All (λ u. t.id ≢ u.id) ts
      → Kept s.triggers ts
      → Kept (fire env turns call now t s).1.triggers ts
  Kept-fire call now t ts s v apart kept = All-of_Member _ ts (λ u m.
      fire_others call now t s u.id v (All-Member _ ts u apart m) ∙ All-Member _ ts u kept m)

  pub fire_all-IsSound :
      (calls : ℕ → Call) (now : ℕ) (wanted : AgentScheduler → SchedulerTrigger → Bool)
      (ts : List SchedulerTrigger) (n : ℕ) (fired : List SchedulerFiredRun) (s : AgentScheduler)
      → IsSound s
      → Kept s.triggers ts
      → Apart ts
      → IsSound (fire_all env turns calls now wanted ts n fired s).1
  unfolding fire_all
  fire_all-IsSound calls now wanted [] n fired s v kept apart = v
  fire_all-IsSound calls now wanted (t ∷ ts) n fired s v kept apart =
      turn (wanted s t) refl (fire env turns (calls n) now t s).0 refl
        (fire_all-IsSound calls now wanted ts n fired s v kept.1 apart.1)
        (λ fired'.
          fire_all-IsSound calls now wanted ts (suc n) fired' (fire env turns (calls n) now t s).1
            (fire-IsSound (calls n) now t s v kept.0)
            (Kept-fire (calls n) now t ts s v.scheduled.chronicle apart.0 kept.1) apart.1)
    where
      turn :
          (b : Bool)
          → wanted s t ≡ b
          → (r : Result Error SchedulerFiredRun) → (fire env turns (calls n) now t s).0 ≡ r
          → IsSound (fire_all env turns calls now wanted ts n fired s).1
          → ((fired' : List SchedulerFiredRun)
              → IsSound
                  (fire_all env turns calls now wanted ts
                    (suc n)
                    fired'
                    (fire env turns (calls n) now t s).1).1)
          → IsSound (fire_all env turns calls now wanted (t ∷ ts) n fired s).1
      turn false e r e' skipped went = rw (fire_all, e) skipped
      turn true e (err x) e' skipped went =
          rw (fire_all, e, e') (fire-IsSound (calls n) now t s v kept.0)
      turn true e (ok run) e' skipped went = rw (fire_all, e, e') (went (fired ++ run ∷ []))

  -- A test of the triggers in memory.
  Kept-filter :
      (p : SchedulerTrigger → Bool) (m : Map SchedulerTrigger)
      → Tidy m
      → Kept m (filter p (Map.values m))
  Kept-filter p m v =
      All-of_Member _ (filter p (Map.values m))
        (λ t h. Tidy-get m t v ((Member-filter p (Map.values m) t).0 h).0)

  fire_pending-IsSound :
      (calls : ℕ → Call) (now : ℕ) (r : Result Error (List SchedulerFiredRun)) (s : AgentScheduler)
      → IsSound s
      → IsSound (fire_pending env turns calls now r s).1
  unfolding fire_pending
  fire_pending-IsSound calls now (err x) s v = v
  fire_pending-IsSound calls now (ok fired) s v =
      fire_all-IsSound calls now is_satisfied (filter is_pending (Map.values s.triggers))
        (length fired) fired s v (Kept-filter is_pending s.triggers v.tidy)
        (Apart-filter is_pending (Map.values s.triggers) (Apart-values s.triggers v.tidy))

  due-IsSound :
      (id_order : String → String → Ordering) (calls : ℕ → Call) (now : ℕ) (s : AgentScheduler)
      → IsSound s
      → IsSound (fire_all env turns calls now (λ _ _. true) (due_triggers id_order now s) 0 [] s).1
  unfolding due_triggers
  due-IsSound id_order calls now s v =
      fire_all-IsSound calls now (λ _ _. true) (due_triggers id_order now s) 0 [] s v
        (All-of_Member _ (due_triggers id_order now s) (λ t m.
          All-Member _ (filter (is_due now) (Map.values s.triggers)) t
            (Kept-filter (is_due now) s.triggers v.tidy)
            ((Member-sort _ (filter (is_due now) (Map.values s.triggers)) t).0 m)))
        (Apart-sort _ (filter (is_due now) (Map.values s.triggers))
          (Apart-filter (is_due now) (Map.values s.triggers) (Apart-values s.triggers v.tidy)))

  pub tick-IsSound :
      (id_order : String → String → Ordering) (calls : ℕ → Call) (now : ℕ) (s : AgentScheduler)
      → IsSound s
      → IsSound (tick env turns id_order calls now s).1
  unfolding tick
  tick-IsSound id_order calls now s v =
      fire_pending-IsSound calls now _ _ (due-IsSound id_order calls now s v)

  fire_first-IsSound :
      (call : Call) (now : ℕ) (ts : List SchedulerTrigger) (s : AgentScheduler)
      → IsSound s
      → Kept s.triggers ts
      → IsSound (fire_first env turns call now ts s).1
  unfolding fire_first
  fire_first-IsSound call now [] s v kept = v
  fire_first-IsSound call now (t ∷ ts) s v kept = told (fire env turns call now t s).0 refl
    where
      told :
          (r : Result Error SchedulerFiredRun)
          → (fire env turns call now t s).0 ≡ r
          → IsSound (fire_first env turns call now (t ∷ ts) s).1
      told (err x) e = rw (fire_first, e) (fire-IsSound call now t s v kept.0)
      told (ok run) e = rw (fire_first, e) (fire-IsSound call now t s v kept.0)

  pub notify-IsSound :
      (call : Call) (now : ℕ) (stream_id event_type : String) (s : AgentScheduler)
      → IsSound s
      → IsSound (notify env turns call now stream_id event_type s).1
  unfolding notify
  notify-IsSound call now stream_id event_type s v =
      fire_first-IsSound call now
        (filter (is_notified stream_id event_type) (Map.values s.triggers)) s v
        (Kept-filter (is_notified stream_id event_type) s.triggers v.tidy)
