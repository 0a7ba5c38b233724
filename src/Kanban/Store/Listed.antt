-- ===== src/Kanban/Store/Listed.antt =====
-- What `list` returns.
use bee_agent.Prelude.{
  ℕ, String, ◌≡◌, refl, sym, ap, subst, ◌∙◌, ◌⊎◌, inl, inr, true, Option, none, some, List, All,
  Member, length,
}
use bee_agent.Prelude.Map
use bee_agent.Prelude.Map.{get_of_Member, Member-of_get}
use bee_agent.Prelude.Sort.{
  sort_by, Member-sort, IsSorted, sort-IsSorted, take_first, Member-take, take-IsSorted,
}
use bee_agent.Prelude.Comparing.{at_most_total, at_most_trans}
use bee_agent.Kanban.Task.{KanbanTask}
use bee_agent.Kanban.Store.{KanbanStore, get}
use bee_agent.Kanban.Store.Invariant.{IsKanban}
use bee_agent.Kanban.Store.Operations.{get-named}
use bee_agent.Kanban.Store.Listing.{
  KanbanTaskQuery, before, compare_tasks-IsComparator, list, limited, narrowed, Matches,
  Member-narrowed,
}

-- The tasks of a query: in order, stored and matching; a matching task that is not among them is
-- not before any of them, and then the limit is reached.
pub record Listed (s : KanbanStore) (query : KanbanTaskQuery) (tasks : List KanbanTask)
    : Type 0 where
  pub sorted : IsSorted before tasks
  pub stored : (t : KanbanTask) → Member t tasks → (get s t.id ≡ some t) × Matches query t
  pub best :
      (id : String) (t : KanbanTask)
      → get s id ≡ some t
      → Matches query t
      → Member t tasks ⊎ (All (λ u. before u t ≡ true) tasks × (query.limit ≡ some (length tasks)))

module _ (s : KanbanStore) (v : IsKanban s) (query : KanbanTaskQuery) where
  found : List KanbanTask
  found = sort_by before (narrowed query (Map.values s.tasks))

  found-IsSorted : IsSorted before found
  unfolding found
  found-IsSorted =
      sort-IsSorted before (at_most_total compare_tasks-IsComparator)
        (at_most_trans compare_tasks-IsComparator) (narrowed query (Map.values s.tasks))

  stored_found : (t : KanbanTask) → Member t found → (get s t.id ≡ some t) × Matches query t
  unfolding found get
  stored_found t m =
      let (m', matching) =
        (Member-narrowed query (Map.values s.tasks) t).0
          ((Member-sort before (narrowed query (Map.values s.tasks)) t).0 m) in
      let (id, read) = get_of_Member s.tasks t v.distinct m' in
      (subst (λ i. get s i ≡ some t) (sym (get-named s v id t read).named) read, matching)

  found_stored :
      (id : String) (t : KanbanTask) → get s id ≡ some t → Matches query t → Member t found
  unfolding found get
  found_stored id t read matching =
      (Member-sort before (narrowed query (Map.values s.tasks)) t).1 (
        (Member-narrowed query (Map.values s.tasks) t).1
          (Member-of_get s.tasks id t read, matching))

  limit-Listed : (limit : Option ℕ) → query.limit ≡ limit → Listed s query (limited limit found)
  limit-Listed none e = record {
    sorted = found-IsSorted;
    stored = stored_found;
    best = λ id t read matching. inl (found_stored id t read matching);
  }
  limit-Listed (some n) e = record {
    sorted = take-IsSorted before n found found-IsSorted;
    stored = λ t m. stored_found t (Member-take before n found t m);
    best = λ id t read matching.
        elim (take_first before n found t found-IsSorted (found_stored id t read matching)) [
          | inl m ↦ inl m
          | inr (all, full) ↦ inr (all, e ∙ ap some (sym full))
        ];
  }

  -- In a state where projection and log agree, `list` returns tasks that are stored and match the
  -- query, in the order of priority, deadline, schedule and age; every stored task that matches
  -- is returned, or else the limit is reached by tasks that the order does not put after it.
  pub list-Listed : Listed s query (list query s)
  unfolding list found narrowed
  list-Listed = limit-Listed query.limit refl
