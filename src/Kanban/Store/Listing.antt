-- ===== src/Kanban/Store/Listing.antt =====
-- packages/kanban/src/store.ts: `list`, its filters and its order.
use Prim.Native.Nat.{compare, Ordering}
use bee_agent.Prelude.{
  ℕ, String, ◌≡◌, refl, ◌↔◌, Bool, true, false, ◌==◌, Option, none, some, List, [], ◌∷◌, arith, leb,
  str_eq, filter, any_of, take, Member, Member-filter,
}
use bee_agent.Prelude.Map
use bee_agent.Prelude.Sort.{sort_by}
use bee_agent.Prelude.Comparing.{
  and_then, at_most, reverse, IsComparator, compare-IsComparator, and_then-IsComparator,
}
use bee_agent.Kanban.Status.{KanbanTaskStatus, includes}
use bee_agent.Kanban.Task.{KanbanTask, KanbanPriority, lowest, low, medium, high, urgent}
use bee_agent.Kanban.Store.{KanbanStore}

-- One status or a list of them is a list here.
pub record KanbanTaskQuery : Type 0 where
  pub status : Option (List KanbanTaskStatus)
  pub labels : Option (List String)
  pub priority : Option KanbanPriority
  pub scheduled_before : Option ℕ
  pub source_thread_id : Option String
  pub source_item_id : Option String
  pub limit : Option ℕ

abbrev pub everything : KanbanTaskQuery
everything = record {
  status = none;
  labels = none;
  priority = none;
  scheduled_before = none;
  source_thread_id = none;
  source_item_id = none;
  limit = none;
}

-- `PRIORITY_ORDER`
abbrev pub priority_order : KanbanPriority → ℕ
priority_order urgent = 0
priority_order high = 1
priority_order medium = 2
priority_order low = 3
priority_order lowest = 4

-- `compareOptionalDate`: an absent date comes last.
abbrev pub compare_optional_date : Option ℕ → Option ℕ → Ordering
compare_optional_date none none = Ordering.eq
compare_optional_date none (some b) = Ordering.gt
compare_optional_date (some a) none = Ordering.lt
compare_optional_date (some a) (some b) = compare a b

-- `compareTasks`
unfoldable pub compare_tasks : KanbanTask → KanbanTask → Ordering
compare_tasks a b = and_then (compare (priority_order a.priority) (priority_order b.priority)) (
    and_then (compare_optional_date a.deadline b.deadline) (
      and_then (compare_optional_date a.scheduled_at b.scheduled_at)
        (compare a.created_at b.created_at)))

optional_swap : (x y : Option ℕ) → compare_optional_date y x ≡ reverse (compare_optional_date x y)
optional_swap none none = refl
optional_swap none (some y) = refl
optional_swap (some x) none = refl
optional_swap (some x) (some y) = (compare-IsComparator (λ n. n)).swaps x y

optional_chain :
    (x y z : Option ℕ)
    → at_most (compare_optional_date x y) ≡ true
    → at_most (compare_optional_date y z) ≡ true
    → compare_optional_date x z ≡ and_then (compare_optional_date x y) (compare_optional_date y z)
optional_chain none none z h h' = refl
optional_chain none (some y) z h h' = cc
optional_chain (some x) none none h h' = refl
optional_chain (some x) none (some z) h h' = cc
optional_chain (some x) (some y) none h h' = ground arith
optional_chain (some x) (some y) (some z) h h' = (compare-IsComparator (λ n. n)).chains x y z h h'

optional_date-IsComparator :
    (key : KanbanTask → Option ℕ) → IsComparator (λ a b. compare_optional_date (key a) (key b))
optional_date-IsComparator key = record {
  swaps = λ x y. optional_swap (key x) (key y);
  chains = λ x y z. optional_chain (key x) (key y) (key z);
}

pub compare_tasks-IsComparator : IsComparator compare_tasks
unfolding compare_tasks
compare_tasks-IsComparator =
    and_then-IsComparator (compare-IsComparator (λ (t : KanbanTask). priority_order t.priority)) (
      and_then-IsComparator (optional_date-IsComparator (λ t. t.deadline)) (
        and_then-IsComparator (optional_date-IsComparator (λ t. t.scheduled_at))
          (compare-IsComparator (λ (t : KanbanTask). t.created_at))))

-- The comparator does not put `a` after `b`.
abbrev pub before : KanbanTask → KanbanTask → Bool
before a b = at_most (compare_tasks a b)

-- `if (query.x !== undefined) tasks = tasks.filter(…)`
narrow : {Q : Type 0} → Option Q → (Q → KanbanTask → Bool) → List KanbanTask → List KanbanTask
narrow none p tasks = tasks
narrow (some q) p tasks = filter (p q) tasks

-- `task.scheduledAt === undefined || task.scheduledAt <= query.scheduledBefore`
abbrev pub due : ℕ → KanbanTask → Bool
due limit task = elim task.scheduled_at [ none ↦ true | some at ↦ leb at limit ]

abbrev pub from_thread : String → KanbanTask → Bool
from_thread id task = elim task.source [ none ↦ false | some src ↦ str_eq src.thread_id id ]

abbrev pub from_item : String → KanbanTask → Bool
from_item id task = elim task.source [
  | none ↦ false
  | some src ↦ elim src.item_id [ none ↦ false | some item ↦ str_eq item id ]
]

-- A query with an empty list of labels does not filter by labels.
abbrev pub labelled : List String → KanbanTask → Bool
labelled [] task = true
labelled (l ∷ ls) task = any_of (λ label. any_of (str_eq label) task.labels) (l ∷ ls)

abbrev pub limited : Option ℕ → List KanbanTask → List KanbanTask
limited none tasks = tasks
limited (some n) tasks = take n tasks

abbrev pub prioritized : KanbanPriority → KanbanTask → Bool
prioritized priority task = priority_order task.priority == priority_order priority

unfoldable pub narrowed : KanbanTaskQuery → List KanbanTask → List KanbanTask
unfolding narrow
narrowed query tasks = narrow query.source_item_id from_item (
    narrow query.source_thread_id from_thread (
      narrow query.scheduled_before due (
        narrow query.priority prioritized (
          narrow query.labels labelled
            (narrow query.status (λ statuses task. includes statuses task.status) tasks)))))

unfoldable pub list : KanbanTaskQuery → KanbanStore → List KanbanTask
unfolding narrowed
list query s = limited query.limit (sort_by before (narrowed query (Map.values s.tasks)))

-- A test of a query: absent, or passed.
abbrev pub Passes : {Q : Type 0} → Option Q → (Q → KanbanTask → Bool) → KanbanTask → Type 0
Passes none p task = Unit
Passes (some q) p task = p q task ≡ true

-- What a query asks of a task.
pub record Matches (query : KanbanTaskQuery) (task : KanbanTask) : Type 0 where
  pub status : Passes query.status (λ statuses t. includes statuses t.status) task
  pub labels : Passes query.labels labelled task
  pub priority : Passes query.priority prioritized task
  pub scheduled : Passes query.scheduled_before due task
  pub thread : Passes query.source_thread_id from_thread task
  pub item : Passes query.source_item_id from_item task

Member-narrow :
    {Q : Type 0} (q : Option Q) (p : Q → KanbanTask → Bool) (tasks : List KanbanTask)
    (t : KanbanTask)
    → Member t (narrow q p tasks) ↔ (Member t tasks × Passes q p t)
unfolding narrow
Member-narrow none p tasks t = (λ m. (m, tt), λ m. m.0)
Member-narrow (some q) p tasks t = Member-filter (p q) tasks t

pub Member-narrowed :
    (query : KanbanTaskQuery) (tasks : List KanbanTask) (t : KanbanTask)
    → Member t (narrowed query tasks) ↔ (Member t tasks × Matches query t)
unfolding narrowed
Member-narrowed query tasks t = (
  λ m.
      let (m, item) = (Member-narrow query.source_item_id from_item _ t).0 m in
      let (m, thread) = (Member-narrow query.source_thread_id from_thread _ t).0 m in
      let (m, scheduled) = (Member-narrow query.scheduled_before due _ t).0 m in
      let (m, priority) = (Member-narrow query.priority prioritized _ t).0 m in
      let (m, labels) = (Member-narrow query.labels labelled _ t).0 m in
      let (m, status) = (Member-narrow query.status _ tasks t).0 m in
      (
        m,
        record {
          status = status;
          labels = labels;
          priority = priority;
          scheduled = scheduled;
          thread = thread;
          item = item;
        },
      ),
  λ m. (Member-narrow query.source_item_id from_item _ t).1 (
    (Member-narrow query.source_thread_id from_thread _ t).1 (
      (Member-narrow query.scheduled_before due _ t).1 (
        (Member-narrow query.priority prioritized _ t).1 (
          (Member-narrow query.labels labelled _ t).1
              ((Member-narrow query.status _ tasks t).1 (m.0, m.1.status), m.1.labels),
          m.1.priority,
        ),
        m.1.scheduled,
      ),
      m.1.thread,
    ),
    m.1.item,
  ),
)
