-- ===== src/Tests/Work.antt =====
-- Instances of the theorems on listing and dispatching.
use bee_agent.Prelude.{
  true, ℕ, ◌≡◌, refl, inl, inr, arith, subst, str_eq, Bool-cases, some, none, ok, err, ◌≢◌, [], ◌∷◌,
  List,
}
use bee_agent.Errors.{lease_lost}
use bee_agent.Kanban.Status.{ready}
use bee_agent.Kanban.Store.Listing.{list, KanbanTaskQuery, everything}
use bee_agent.Kanban.Store.Listed.{Listed, list-Listed}
use bee_agent.Kanban.Dispatcher.{
  KanbanDispatcher, new_dispatcher, claim_next, reclaim_expired, complete, fail, block,
}
use bee_agent.Kanban.Dispatcher.Claiming.{Claimed, claim_next-Claimed}
use bee_agent.Kanban.Dispatcher.Reclaimed.{Reclaimed, reclaim_expired-Reclaimed}
use bee_agent.Kanban.Dispatcher.Ownership.{finish_after_transition}
use bee_agent.Kanban.Dispatcher.Progress.{ClaimFits, claim_next_succeeds}
use bee_agent.Kanban.Dispatcher.{has_capacity}
use bee_agent.Kanban.Dispatcher.Ready.{Runnable}
use bee_agent.Kanban.Task.{KanbanTask}
use bee_agent.Kanban.Store.{KanbanStore}
use bee_agent.Kanban.Store.History.{perform, renews}
use bee_agent.Kanban.Store.Progress.{perform_succeeds}
use bee_agent.Events.{Call}
use bee_agent.Tests.Fixtures.{
  env, call_at, claim_it, claiming, task_3, task_4, Registered-env, store_3, store_4, kanban_3,
  kanban_4, fresh_3, differ,
}

abbrev one_ready : KanbanTaskQuery
one_ready = record everything { status = some (ready ∷ []); limit = some 1 }

list-Listed_example : Listed store_3 one_ready (list one_ready store_3)
list-Listed_example = list-Listed store_3 kanban_3 one_ready

abbrev dispatcher : KanbanDispatcher
dispatcher = record { lease_duration_ms = 45; max_concurrent = 1 }

-- The call draws the lease id `u-7`.
abbrev claim_call : Call
claim_call = record { event_id = "ue-4"; fresh_id = "u-7"; now = 5 }

claimed : claim_next env claim_call dispatcher "worker" 5 store_3 ≡ ok (some task_4, store_4)
unfolding claim_next list bee_agent.Prelude.Sort.sort_by
    bee_agent.Kanban.Dispatcher.dependencies_satisfied bee_agent.Kanban.Store.transition
    bee_agent.Prelude.Map.get bee_agent.Kanban.Transition.apply_transition
    bee_agent.Kanban.Status.can_transition bee_agent.Chronicle.append
    bee_agent.Chronicle.validate_all bee_agent.Chronicle.validate_new
    bee_agent.Chronicle.new_chronicle_event bee_agent.Chronicle.append_locked
    bee_agent.Events.kanban_stream_id bee_agent.Chronicle.insert_rows bee_agent.Chronicle.stamp
    bee_agent.Chronicle.insert_row bee_agent.Chronicle.last_sequence bee_agent.Prelude.Map.set
    bee_agent.Kanban.Status.is_terminal bee_agent.Chronicle.envelope_schema
    bee_agent.Events.kanban_payload_schema bee_agent.Kanban.Task.task_schema
claimed = refl

claim_next-Claimed_example :
    Claimed env claim_call store_3 kanban_3 (fresh_3 5) dispatcher "worker" 5 task_4 store_4
claim_next-Claimed_example =
    claim_next-Claimed env claim_call store_3 kanban_3 (fresh_3 5) dispatcher "worker" 5 claimed

reclaim_expired-Reclaimed_example :
    Reclaimed env
      (λ _. call_at "ue-5" 60)
      60
      store_4
      (reclaim_expired env (λ _. call_at "ue-5" 60) 60 store_4)
reclaim_expired-Reclaimed_example =
    reclaim_expired-Reclaimed env (λ _. call_at "ue-5" 60) 60 store_4 kanban_4

finish_after_transition_example :
    (complete env (call_at "ue-5" 9) "u-1" "u-8" 9 store_4 ≡ err (lease_lost "u-1" "u-8"))
    × (fail env (call_at "ue-5" 9) "u-1" "u-8" none 9 store_4 ≡ err (lease_lost "u-1" "u-8"))
    × (block env (call_at "ue-5" 9) "u-1" "u-8" none 9 store_4 ≡ err (lease_lost "u-1" "u-8"))
finish_after_transition_example =
    finish_after_transition env (call_at "ue-4" 5) store_3 kanban_3 (fresh_3 5) (call_at "ue-5" 9)
      "u-1" "u-8" none 9 claim_it claiming (inr (_, refl, differ "u-7" "u-8" refl))

perform_succeeds_example :
    (t : KanbanTask) × (s' : KanbanStore) × (perform env
        (call_at "ue-5" 9)
        (renews "u-1" "u-7" 90)
        store_4
      ≡ ok (t, s'))
unfolding bee_agent.Kanban.Fold.holds_lease bee_agent.Kanban.Store.get bee_agent.Prelude.Map.get
    bee_agent.Chronicle.envelope_schema bee_agent.Chronicle.new_chronicle_event
    bee_agent.Events.kanban_payload_schema
perform_succeeds_example =
    perform_succeeds env Registered-env (call_at "ue-5" 9) store_4 kanban_4 (renews "u-1" "u-7" 90)
      (task_4, refl, refl, (refl, refl))

Runnable-3 : Runnable store_3 5 task_3
unfolding bee_agent.Kanban.Store.get bee_agent.Prelude.Map.get
Runnable-3 = record { stored = refl; is_ready = refl; scheduled = refl; dependencies = tt }

below_limit : has_capacity dispatcher "worker" store_3 ≡ true
unfolding has_capacity list bee_agent.Prelude.Sort.sort_by
below_limit = refl

fits_3 : ClaimFits env claim_call dispatcher "worker" 5 task_3
unfolding bee_agent.Chronicle.envelope_schema bee_agent.Chronicle.new_chronicle_event
    bee_agent.Kanban.Transition.transitioned bee_agent.Events.kanban_payload_schema
    bee_agent.Kanban.Task.task_schema
fits_3 = (refl, refl)

-- It is the only task.
claim_fits :
    (task : KanbanTask)
    → Runnable store_3 5 task
    → ClaimFits env claim_call dispatcher "worker" 5 task
unfolding bee_agent.Kanban.Store.get bee_agent.Prelude.Map.get
claim_fits task r = elim (Bool-cases (str_eq "u-1" task.id)) [
  | inl e ↦
      let same : task_3 ≡ task = ground (arith, r.stored, e) in
      subst (ClaimFits env claim_call dispatcher "worker" 5) same fits_3
  | inr e ↦ absurd (ground (arith, r.stored, e))
]

claim_next_succeeds_example :
    (t : KanbanTask) × (s' : KanbanStore) × (claim_next env claim_call dispatcher "worker" 5 store_3
      ≡ ok (some t, s'))
claim_next_succeeds_example =
    claim_next_succeeds env Registered-env claim_call store_3 kanban_3 dispatcher "worker" 5
      claim_fits task_3 Runnable-3 below_limit
