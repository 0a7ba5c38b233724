-- ===== src/Errors.antt =====
-- The error classes that the modelled code throws, with the fields that identify them.
use bee_agent.Prelude.{ℕ, String}
use bee_agent.Prelude.Units.{Text}
use bee_agent.Kanban.Status.{KanbanTaskStatus}

pub data Error : Type 0 where
  -- knowledge: registry and store
  already_registered : String → Error
  unknown_event_type : String → Error
  envelope_invalid payload_invalid : String → Error
  -- stream, expected sequence, actual next sequence
  sequence_conflict : String → ℕ → ℕ → Error
  -- a UNIQUE constraint of the database
  constraint_violated : Error
  -- kanban
  task_not_found : String → Error
  lease_lost : String → String → Error
  -- task, expected version, actual version
  version_conflict : String → ℕ → ℕ → Error
  invalid_transition : KanbanTaskStatus → KanbanTaskStatus → Error
  task_schema_invalid : Error
  commented_before_created lease_renewed_before_created : Error
  -- thread
  unknown_thread_event_type : String → Error
  thread_event_invalid thread_schema_invalid : Error
  -- context: manifest, renderer, digest of the manifest and of the rebuilt section
  context_manifest_invalid : Error
  no_renderer : Text → Error
  context_reconstruction : Text → Text → Error
  -- agent loop: turn, then sequence, expected and actual digest of the checkpoint
  turn_not_found : String → Error
  checkpoint_mismatch : ℕ → Text → Text → Error
  -- grants
  grant_schema_invalid : Error
  -- scheduler
  trigger_not_found : String → Error
  bad_interval when_with_schedule trigger_without_schedule trigger_schema_invalid : Error
