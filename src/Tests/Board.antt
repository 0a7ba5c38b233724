-- ===== src/Tests/Board.antt =====
-- Instances of the theorems on the task store.
use bee_agent.Prelude.{String, ◌≡◌, refl, inl, inr, none, some, [], ◌∷◌, ok, err, ◌≢◌}
use bee_agent.Errors.{version_conflict, lease_lost}
use bee_agent.Chronicle.{StoredEvent, rows}
use bee_agent.Kanban.Status.{inbox, triaged, done}
use bee_agent.Kanban.Status.Paths.{Answers, shortest_transition_path-Answers}
use bee_agent.Kanban.Status.{shortest_transition_path}
use bee_agent.Kanban.Fold.{fold_stream}
use bee_agent.Kanban.Task.{KanbanTask, KanbanComment}
use bee_agent.Kanban.Store.{
  KanbanStore, transition, renew_lease, update, create, comment, rebuild, get, new_comment,
}
use bee_agent.Kanban.Store.Invariant.{IsKanban}
use bee_agent.Kanban.Store.Operations.{Transitioned, transition-Transitioned}
use bee_agent.Kanban.Store.Creation.{Created, create-Created}
use bee_agent.Kanban.Store.History.{
  Performed, perform-Performed, transitions, perform, Reach-IsKanban,
}
use bee_agent.Kanban.Store.Guards.{transition_once, renew_after_transition, create_again}
use bee_agent.Kanban.Store.CommentLog.{comment_not_folded}
use bee_agent.Kanban.Store.Rebuild.{Recovered, rebuild-Recovered}
use bee_agent.Events.{kanban_stream_id, kanban_task_commented_event}
use bee_agent.Tests.Fixtures.{
  env, call_at, blank_init, move_to, rename_at, claim_it, triaging, claiming, task_1, task_2,
  task_4, store_1, store_2, store_3, row_1, store_with, store_4, kanban_1, kanban_3, kanban_4,
  Reach-4, fresh_1, fresh_3, differ,
}

rebuild-Recovered_example :
    (s' : KanbanStore) × (rebuild store_4.chronicle ≡ ok s') × Recovered store_4 s'
rebuild-Recovered_example = rebuild-Recovered store_4 kanban_4

Reach-IsKanban_example : IsKanban store_4
Reach-IsKanban_example = Reach-IsKanban env store_4 Reach-4

perform-Performed_example : Performed store_1 task_2 store_2
unfolding perform
perform-Performed_example =
    perform-Performed env (call_at "ue-2" 2) store_1 kanban_1 (fresh_1 2)
      (transitions "u-1" (move_to triaged 1)) triaging

create-Created_example :
    Created env (call_at "ue-2" 2) store_1 kanban_1 (fresh_1 2) blank_init task_1 store_1
unfolding create bee_agent.Prelude.Map.get
create-Created_example =
    create-Created env (call_at "ue-2" 2) store_1 kanban_1 (fresh_1 2) blank_init refl

transition-Transitioned_example :
    Transitioned env (call_at "ue-4" 5) store_3 kanban_3 (fresh_3 5) "u-1" claim_it task_4 store_4
transition-Transitioned_example =
    transition-Transitioned env (call_at "ue-4" 5) store_3 kanban_3 (fresh_3 5) "u-1" claim_it
      claiming

transition_once_example :
    (transition env (call_at "ue-3" 3) "u-1" (move_to triaged 1) store_2
      ≡ err (version_conflict "u-1" 1 2))
    × (update env (call_at "ue-3" 3) "u-1" (rename_at 1) store_2 ≡ err (version_conflict "u-1" 1 2))
transition_once_example =
    transition_once env (call_at "ue-2" 2) store_1 kanban_1 (fresh_1 2) (call_at "ue-3" 3) "u-1"
      (move_to triaged 1) (move_to triaged 1) (rename_at 1) triaging refl refl

renew_after_transition_example :
    renew_lease env (call_at "ue-5" 9) "u-1" "u-8" 90 store_4 ≡ err (lease_lost "u-1" "u-8")
renew_after_transition_example =
    renew_after_transition env (call_at "ue-4" 5) store_3 kanban_3 (fresh_3 5) (call_at "ue-5" 9)
      "u-1" "u-8" 90 claim_it claiming (inr (_, refl, differ "u-7" "u-8" refl))

create_again_example : create env (call_at "ue-3" 3) blank_init store_1 ≡ ok (task_1, store_1)
unfolding create bee_agent.Prelude.Map.get
create_again_example =
    create_again env (call_at "ue-2" 2) store_1 kanban_1 (fresh_1 2) env (call_at "ue-3" 3)
      blank_init blank_init "key" refl refl refl

shortest_transition_path-Answers_example : Answers inbox done (shortest_transition_path inbox done)
shortest_transition_path-Answers_example = shortest_transition_path-Answers inbox done

-- The claim renewed, and a comment and an update on the new task.
abbrev note : KanbanComment
note = record { id = "u-1"; author = "ann"; body = "please hurry"; at = 3 }

abbrev task_noted : KanbanTask
task_noted = record task_1 { comments = note ∷ []; version = 2; updated_at = 3 }

abbrev store_noted : KanbanStore
store_noted = store_with task_noted (
    row_1
    ∷ record {
      event = kanban_task_commented_event (call_at "ue-2" 3) "u-1" note;
      stream_id = "kanban:u-1";
      sequence = 2;
      ingest_time = 3;
    }
    ∷ [])

comment_not_folded_example :
    (f : KanbanTask) × (fold_stream none (rows store_noted.chronicle (kanban_stream_id "u-1"))
      ≡ ok (some f))
    × (get store_noted "u-1" ≡ some task_noted)
    × (f.updated_at ≡ 1)
    × (task_noted.updated_at ≡ (new_comment (call_at "ue-2" 3) "ann" "please hurry" none).at)
unfolding comment bee_agent.Prelude.Map.get fold_stream rows kanban_stream_id
    bee_agent.Kanban.Fold.fold_task bee_agent.Chronicle.new_chronicle_event
    bee_agent.Chronicle.append bee_agent.Chronicle.validate_all bee_agent.Chronicle.validate_new
    bee_agent.Chronicle.append_locked bee_agent.Chronicle.insert_rows bee_agent.Chronicle.stamp
    bee_agent.Chronicle.insert_row bee_agent.Prelude.Map.set bee_agent.Chronicle.envelope_schema
    bee_agent.Events.kanban_payload_schema bee_agent.Kanban.Task.comment_schema
comment_not_folded_example =
    comment_not_folded env (call_at "ue-2" 3) store_1 kanban_1 (fresh_1 3) "u-1" "ann"
      "please hurry" none task_1 refl refl refl
