-- ===== src/Kanban/Task.antt =====
-- packages/kanban/src/protocol.ts: the task card and its zod schema. Date texts are the instants
-- they denote (milliseconds); whether a text is a uuid is zod's answer, the parameter `is_uuid`.
use bee_agent.Prelude.{
  ℕ, String, Bool, true, not, ◌&&◌, Option, none, some, List, every, ltb, str_eq,
}
use bee_agent.Kanban.Status.{KanbanTaskStatus}

pub data KanbanPriority : Type 0 where
  lowest low medium high urgent : KanbanPriority

pub data KanbanDependencyKind : Type 0 where
  blocks related : KanbanDependencyKind

pub record KanbanDependency : Type 0 where
  pub task_id : String
  pub kind : KanbanDependencyKind
  pub satisfied_when : Option KanbanTaskStatus

pub record KanbanSource : Type 0 where
  pub thread_id : String
  pub turn_id : Option String
  pub item_id : Option String

pub record KanbanWorkspace : Type 0 where
  pub workspace_id : String
  pub path : Option String

pub record KanbanBudget : Type 0 where
  pub max_tokens : Option ℕ
  pub max_cost_cents : Option ℕ
  pub max_duration_ms : Option ℕ

pub record KanbanClaimLease : Type 0 where
  pub claimant : String
  pub lease_id : String
  pub claimed_at : ℕ
  pub expires_at : ℕ

pub record KanbanRef : Type 0 where
  pub id : String
  pub version : String

pub record KanbanComment : Type 0 where
  pub id : String
  pub author : String
  pub body : String
  pub at : ℕ

pub record KanbanTask : Type 0 where
  pub id : String
  pub title : String
  pub goal : Option String
  pub acceptance_criteria : List String
  pub priority : KanbanPriority
  pub labels : List String
  pub dependencies : List KanbanDependency
  pub source : Option KanbanSource
  pub workspace : Option KanbanWorkspace
  pub required_capabilities : List String
  pub budget : Option KanbanBudget
  pub scheduled_at : Option ℕ
  pub deadline : Option ℕ
  pub idempotency_key : Option String
  pub status : KanbanTaskStatus
  pub claim : Option KanbanClaimLease
  pub artifact_refs : List KanbanRef
  pub trajectory_refs : List KanbanRef
  pub comments : List KanbanComment
  pub version : ℕ
  pub created_at : ℕ
  pub updated_at : ℕ
  pub ended_at : Option ℕ

-- `z.string().min(1)`, and a schema under `.optional()`
nonempty : String → Bool
nonempty s = not (str_eq s "")

optional {ℓ} : {A : Type ℓ} → (A → Bool) → Option A → Bool
optional p none = true
optional p (some a) = p a

positive : ℕ → Bool
positive n = ltb 0 n

module _ (is_uuid : String → Bool) where
  unfoldable pub dependency_schema : KanbanDependency → Bool
  dependency_schema d = is_uuid d.task_id

  unfoldable pub source_schema : KanbanSource → Bool
  unfolding optional
  source_schema s = is_uuid s.thread_id && optional is_uuid s.turn_id && optional is_uuid s.item_id

  unfoldable pub lease_schema : KanbanClaimLease → Bool
  unfolding nonempty
  lease_schema c = nonempty c.claimant && is_uuid c.lease_id

  unfoldable pub comment_schema : KanbanComment → Bool
  unfolding nonempty
  comment_schema c = is_uuid c.id && nonempty c.author && nonempty c.body

  unfoldable pub ref_schema : KanbanRef → Bool
  unfolding nonempty
  ref_schema r = nonempty r.id && nonempty r.version

  unfoldable pub budget_schema : KanbanBudget → Bool
  unfolding optional positive
  budget_schema b = optional positive b.max_tokens && optional positive b.max_duration_ms

  -- `KanbanTaskSchema`
  unfoldable pub task_schema : KanbanTask → Bool
  unfolding dependency_schema source_schema lease_schema comment_schema ref_schema budget_schema
      nonempty optional positive
  task_schema t =
      is_uuid t.id
      && nonempty t.title
      && optional nonempty t.goal
      && every nonempty t.acceptance_criteria
      && every nonempty t.labels
      && every dependency_schema t.dependencies
      && optional source_schema t.source
      && optional (λ w. nonempty w.workspace_id) t.workspace
      && every nonempty t.required_capabilities
      && optional budget_schema t.budget
      && optional nonempty t.idempotency_key
      && optional lease_schema t.claim
      && every ref_schema t.artifact_refs
      && every ref_schema t.trajectory_refs
      && every comment_schema t.comments
      && positive t.version
