-- ===== src/Kanban/Status.antt =====
-- packages/kanban/src/state-machine.ts: the statuses, the transition table and the walk over it.
pub mod Paths
use bee_agent.Prelude.{
  ℕ, zero, suc, ◌≡◌, refl, ap, ◌∙◌, sym, ◌↔◌, Bool, true, false, not, ◌&&◌, ◌||◌, Option, none,
  some, List, [], ◌∷◌, ◌++◌, arith, ◌==◌, if◌then◌else◌, drop, any_of, every,
}

pub data KanbanTaskStatus : Type 0 where
  inbox triaged ready running blocked review done failed cancelled archived : KanbanTaskStatus

-- `KANBAN_TASK_STATUSES`
abbrev pub kanban_task_statuses : List KanbanTaskStatus
kanban_task_statuses =
    inbox ∷ triaged ∷ ready ∷ running ∷ blocked ∷ review ∷ done ∷ failed ∷ cancelled ∷ archived ∷ []

-- The position of a status in that list, by which `===` is decided.
abbrev pub rank : KanbanTaskStatus → ℕ
rank inbox = 0
rank triaged = 1
rank ready = 2
rank running = 3
rank blocked = 4
rank review = 5
rank done = 6
rank failed = 7
rank cancelled = 8
rank archived = 9

abbrev pub status_eq : KanbanTaskStatus → KanbanTaskStatus → Bool
status_eq a b = rank a == rank b

-- `statuses.includes(status)`
abbrev pub includes : List KanbanTaskStatus → KanbanTaskStatus → Bool
includes statuses status = any_of (λ s. status_eq s status) statuses

-- `KANBAN_TRANSITIONS`, and `allowedTransitions`
abbrev pub allowed_transitions : KanbanTaskStatus → List KanbanTaskStatus
allowed_transitions inbox = triaged ∷ cancelled ∷ failed ∷ archived ∷ []
allowed_transitions triaged = ready ∷ cancelled ∷ failed ∷ archived ∷ []
allowed_transitions ready = running ∷ cancelled ∷ failed ∷ archived ∷ []
allowed_transitions running = ready ∷ blocked ∷ review ∷ done ∷ cancelled ∷ failed ∷ archived ∷ []
allowed_transitions blocked = running ∷ ready ∷ cancelled ∷ failed ∷ archived ∷ []
allowed_transitions review = done ∷ running ∷ cancelled ∷ failed ∷ archived ∷ []
allowed_transitions done = archived ∷ []
allowed_transitions failed = ready ∷ running ∷ cancelled ∷ archived ∷ []
allowed_transitions cancelled = archived ∷ []
allowed_transitions archived = []

abbrev pub kanban_terminal_statuses : List KanbanTaskStatus
kanban_terminal_statuses = done ∷ failed ∷ cancelled ∷ archived ∷ []

unfoldable pub is_terminal : KanbanTaskStatus → Bool
is_terminal status = includes kanban_terminal_statuses status

unfoldable pub is_active : KanbanTaskStatus → Bool
unfolding is_terminal
is_active status = not (is_terminal status)

unfoldable pub can_transition : KanbanTaskStatus → KanbanTaskStatus → Bool
can_transition from to = includes (allowed_transitions from) to

-- The walk of `shortestTransitionPath` never Passes through these.
unfoldable pub terminalish : KanbanTaskStatus → Bool
terminalish status =
    status_eq status failed || status_eq status cancelled || status_eq status archived

-- One round of the `while`: it returns, or it goes on with a longer queue and more statuses seen.
pub data Round : Type 0 where
  found : List KanbanTaskStatus → Round
  more : List (List KanbanTaskStatus) → List KanbanTaskStatus → Round

-- `path[path.length - 1]!`; no path of the queue is empty.
last_of : KanbanTaskStatus → List KanbanTaskStatus → KanbanTaskStatus
last_of from [] = from
last_of from (s ∷ path) = last_of s path

-- The `for` over the targets of the path's last status.
unfoldable pub visit :
    (from to : KanbanTaskStatus) (path : List KanbanTaskStatus)
    → List KanbanTaskStatus
    → List (List KanbanTaskStatus)
    → List KanbanTaskStatus
    → Round
unfolding terminalish
visit from to path [] queue seen = more queue seen
visit from to path (next ∷ rest) queue seen =
    let skipped = visit from to path rest queue seen in
    let extended = path ++ next ∷ [] in
    let longer = visit from to path rest (queue ++ extended ∷ []) (next ∷ seen) in
    if includes seen next
    then skipped
    else if not (status_eq next to) && not (status_eq next from) && terminalish next
    then skipped
    else if status_eq next to
    then found (drop 1 extended)
    else longer

-- The `while` on fuel: `none` when it runs out, `some none` when the queue is empty.
unfoldable pub walk :
    ℕ
    → (from to : KanbanTaskStatus) → List (List KanbanTaskStatus)
    → List KanbanTaskStatus
    → Option (Option (List KanbanTaskStatus))
unfolding visit last_of
walk zero from to queue seen = none
walk (suc fuel) from to [] seen = some none
walk (suc fuel) from to (path ∷ queue) seen =
    elim (visit from to path (allowed_transitions (last_of from path)) queue seen) [
      | found p ↦ some (some p)
      | more queue' seen' ↦ walk fuel from to queue' seen'
    ]

-- Every status enters the queue once at most, so eleven rounds are enough.
unfoldable pub shortest_transition_path :
    KanbanTaskStatus → KanbanTaskStatus → Option (Option (List KanbanTaskStatus))
unfolding walk
shortest_transition_path from to =
    if status_eq from to then some (some []) else walk 11 from to ((from ∷ []) ∷ []) (from ∷ [])

of_rank : ℕ → KanbanTaskStatus
of_rank zero = inbox
of_rank (suc zero) = triaged
of_rank (suc (suc zero)) = ready
of_rank (suc (suc (suc zero))) = running
of_rank (suc (suc (suc (suc zero)))) = blocked
of_rank (suc (suc (suc (suc (suc zero))))) = review
of_rank (suc (suc (suc (suc (suc (suc zero)))))) = done
of_rank (suc (suc (suc (suc (suc (suc (suc zero))))))) = failed
of_rank (suc (suc (suc (suc (suc (suc (suc (suc zero)))))))) = cancelled
of_rank _ = archived

of_rank-rank : (s : KanbanTaskStatus) → of_rank (rank s) ≡ s
unfolding of_rank
of_rank-rank inbox = refl
of_rank-rank _ = refl

pub status_eq_iff : (a b : KanbanTaskStatus) → (status_eq a b ≡ true) ↔ (a ≡ b)
status_eq_iff a b = (
  λ h.
      let e : rank a ≡ rank b = ground arith in
      sym (of_rank-rank a) ∙ ap of_rank e ∙ of_rank-rank b,
  λ e. ground (arith, ap rank e),
)

-- A test that Passes on the list of all statuses Passes at each.
pub every_status :
    (p : KanbanTaskStatus → Bool)
    → every p kanban_task_statuses ≡ true
    → (s : KanbanTaskStatus) → p s ≡ true
every_status p h inbox = ground arith
every_status p h _ = ground arith
