-- ===== src/Kanban/Construct.antt =====
-- packages/kanban/src/construct.ts: `newKanbanTask`.
use bee_agent.Prelude.{
  ℕ, String, Bool, Option, none, List, [], or_else, Result, ok, err, if◌then◌else◌,
}
use bee_agent.Errors.{Error, task_schema_invalid}
use bee_agent.Kanban.Status.{inbox}
use bee_agent.Kanban.Task.{
  KanbanPriority, KanbanDependency, KanbanSource, KanbanWorkspace, KanbanBudget, KanbanTask,
  task_schema,
}

pub record NewKanbanTaskInit : Type 0 where
  pub title : String
  pub priority : Option KanbanPriority
  pub goal : Option String
  pub acceptance_criteria : Option (List String)
  pub labels : Option (List String)
  pub dependencies : Option (List KanbanDependency)
  pub source : Option KanbanSource
  pub workspace : Option KanbanWorkspace
  pub required_capabilities : Option (List String)
  pub budget : Option KanbanBudget
  pub scheduled_at : Option ℕ
  pub deadline : Option ℕ
  pub idempotency_key : Option String
  pub id : Option String
  pub now : Option ℕ

-- `KanbanTaskSchema.parse`: the task itself, or a `ZodError`.
unfoldable pub parse_task : (String → Bool) → KanbanTask → Result Error KanbanTask
parse_task is_uuid task = if task_schema is_uuid task then ok task else err task_schema_invalid

-- The object that `newKanbanTask` parses.
unfoldable pub drafted : String → ℕ → NewKanbanTaskInit → KanbanTask
drafted fresh clock init =
    let now = or_else init.now clock in
    record {
      id = or_else init.id fresh;
      title = init.title;
      goal = init.goal;
      acceptance_criteria = or_else init.acceptance_criteria [];
      priority = or_else init.priority KanbanPriority.medium;
      labels = or_else init.labels [];
      dependencies = or_else init.dependencies [];
      source = init.source;
      workspace = init.workspace;
      required_capabilities = or_else init.required_capabilities [];
      budget = init.budget;
      scheduled_at = init.scheduled_at;
      deadline = init.deadline;
      idempotency_key = init.idempotency_key;
      status = inbox;
      claim = none;
      artifact_refs = [];
      trajectory_refs = [];
      comments = [];
      version = 1;
      created_at = now;
      updated_at = now;
      ended_at = none;
    }

unfoldable pub new_kanban_task :
    (String → Bool) → String → ℕ → NewKanbanTaskInit → Result Error KanbanTask
unfolding parse_task drafted
new_kanban_task is_uuid fresh clock init = parse_task is_uuid (drafted fresh clock init)
