-- ===== src/Kanban/Dispatcher/Reclaimed.antt =====
-- `reclaimExpired` releases the lapsed tasks, and no other.
use bee_agent.Prelude.{
  Option, ℕ, suc, ◌<◌, ◌≤◌, leb, String, ◌≡◌, ◌≢◌, refl, sym, ap, subst, ◌∙◌, ◌⊎◌, inl, inr, true,
  false, none, some, List, [], ◌∷◌, ◌++◌, Result, ok, arith, str_eq, str_eq_iff, Member, All,
  All-of_Member, Bool-cases,
}
use bee_agent.Errors.{Error}
use bee_agent.Kanban.Status.{ready, running, includes, status_eq_iff}
use bee_agent.Kanban.Task.{KanbanTask, KanbanClaimLease}
use bee_agent.Kanban.Store.{KanbanStore, Env, get}
use bee_agent.Kanban.Store.Invariant.{IsKanban}
use bee_agent.Kanban.Store.Operations.{get-named}
use bee_agent.Kanban.Store.Listing.{Matches, list}
use bee_agent.Kanban.Store.Listed.{list-Listed}
use bee_agent.Kanban.Dispatcher.{running_query, lapsed, reclaim_loop, reclaim_expired}
use bee_agent.Kanban.Dispatcher.Reclaiming.{
  Named, Freed, Released, reclaim_loop-Turn, skipped, stopped, released,
}
use bee_agent.Events.{Call}

module _ (env : Env) (calls : ℕ → Call) (now : ℕ) where
  -- A task that no lapsed entry names is kept.
  loop_keeps :
      (tasks : List KanbanTask) (n : ℕ) (ids : List String) (s : KanbanStore) (id : String)
      → Named s
      → All (λ t. lapsed now t ≡ true → t.id ≢ id) tasks
      → get (reclaim_loop env calls now tasks n ids s).1 id ≡ get s id
  unfolding reclaim_loop
  loop_keeps [] n ids s id v h = refl
  loop_keeps (task ∷ tasks) n ids s id v h =
      elim (reclaim_loop-Turn env calls now task tasks n ids s v) [
        | skipped _ e ↦ ap (λ r. get r.1 id) e ∙ loop_keeps tasks n ids s id v h.1
        | stopped x e ↦ ap (λ r. get r.1 id) e
        | released s' q r e ↦
            ap (λ r. get r.1 id) e
            ∙ loop_keeps tasks (suc n) (ids ++ task.id ∷ []) s' id r.named h.1
            ∙ r.others id (h.0 q)
      ]

  Released-Freed :
      (s s' : KanbanStore) (task id : String) → Released task s s' → Freed s id → Freed s' id
  Released-Freed s s' task id r f = elim (Bool-cases (str_eq task id)) [
    | inl e ↦ subst (Freed s') ((str_eq_iff task id).0 e) r.freed
    | inr e ↦ record {
      task = f.task;
      read = r.others id (λ q. cc (e, (str_eq_iff task id).1 q)) ∙ f.read;
      is_ready = f.is_ready;
      unclaimed = f.unclaimed;
    }
  ]

  -- A freed task stays so.
  loop_frees :
      (tasks : List KanbanTask) (n : ℕ) (ids : List String) (s : KanbanStore) (id : String)
      → Named s
      → Freed s id
      → Freed (reclaim_loop env calls now tasks n ids s).1 id
  unfolding reclaim_loop
  loop_frees [] n ids s id v f = f
  loop_frees (task ∷ tasks) n ids s id v f =
      elim (reclaim_loop-Turn env calls now task tasks n ids s v) [
        | skipped _ e ↦ subst (λ r. Freed r.1 id) (sym e) (loop_frees tasks n ids s id v f)
        | stopped x e ↦ subst (λ r. Freed r.1 id) (sym e) f
        | released s' q r e ↦
            subst (λ r'. Freed r'.1 id) (sym e)
              (loop_frees tasks (suc n) (ids ++ task.id ∷ []) s' id r.named
                (Released-Freed s s' task.id id r f))
      ]

  -- Every lapsed entry is freed by a loop that ends well.
  loop_releases :
      (tasks : List KanbanTask) (n : ℕ) (ids out : List String) (s s' : KanbanStore)
      (t : KanbanTask)
      → Named s
      → reclaim_loop env calls now tasks n ids s ≡ (ok out, s')
      → Member t tasks
      → lapsed now t ≡ true
      → Freed s' t.id
  loop_releases [] n ids out s s' t v h m q = absurd m
  loop_releases (task ∷ tasks) n ids out s s' t v h m q =
      elim (reclaim_loop-Turn env calls now task tasks n ids s v) [
        | skipped live e ↦ elim m [
          | inl same ↦ cc (live, q, ap (lapsed now) same)
          | inr later ↦ loop_releases tasks n ids out s s' t v (sym e ∙ h) later q
        ]
        | stopped x e ↦ cc (e, h)
        | released s'' q' r e ↦ elim m [
          | inl same ↦ subst (Freed s') (ap (λ (u : KanbanTask). u.id) (sym same)) (
              subst (λ p. Freed p.1 task.id) (sym e ∙ h)
                (loop_frees tasks (suc n) (ids ++ task.id ∷ []) s'' task.id r.named r.freed))
          | inr later ↦
              loop_releases tasks (suc n) (ids ++ task.id ∷ []) out s'' s' t r.named (sym e ∙ h)
                later q
        ]
      ]

  -- What `reclaimExpired` does to one state: a task that is not running, or has no lease that ends by
  -- now, is as it was; and if no transition failed, every running task whose lease ends by now is
  -- ready again, under no lease.
  pub record Reclaimed (s : KanbanStore) (r : Result Error (List String) × KanbanStore)
      : Type 0 where
    pub kept :
        (id : String) (t : KanbanTask)
        → get s id ≡ some t
        → (t.status ≢ running) ⊎ ((c : KanbanClaimLease) → t.claim ≡ some c → now < c.expires_at)
        → get r.1 id ≡ some t
    pub freed :
        (out : List String) (id : String) (t : KanbanTask) (c : KanbanClaimLease)
        → r.0 ≡ ok out
        → get s id ≡ some t
        → t.status ≡ running
        → t.claim ≡ some c
        → c.expires_at ≤ now
        → (u : KanbanTask) × (get r.1 id ≡ some u) × (u.status ≡ ready) × (u.claim ≡ none)

  lapsed_true :
      (o : Option KanbanClaimLease) (c : KanbanClaimLease)
      → o ≡ some c
      → c.expires_at ≤ now
      → elim o [ none ↦ false | some d ↦ leb d.expires_at now ] ≡ true
  lapsed_true o c e h = rw e (ground arith)

  lapsed_false :
      (o : Option KanbanClaimLease)
      → ((c : KanbanClaimLease) → o ≡ some c → now < c.expires_at)
      → elim o [ none ↦ false | some d ↦ leb d.expires_at now ] ≡ false
  lapsed_false none h = refl
  lapsed_false (some c) h = let q = h c refl in ground arith

  IsKanban-Named : (s : KanbanStore) → IsKanban s → Named s
  IsKanban-Named s v id t read = (get-named s v id t read).named

  running_status : (t : KanbanTask) → includes (running ∷ []) t.status ≡ true → t.status ≡ running
  running_status t h = sym ((status_eq_iff running t.status).0 (ground arith))

  running-Matches : (t : KanbanTask) → t.status ≡ running → Matches running_query t
  running-Matches t h = record {
    status = rw h;
    labels = tt;
    priority = tt;
    scheduled = tt;
    thread = tt;
    item = tt;
  }

  -- In a state where projection and log agree, `reclaimExpired` leaves every task that is not
  -- running, or has no lease that ends by now, as it was, whether it ends well or stops at a failed
  -- transition; and if it ends well, every running task whose lease ends by now is ready, under no
  -- lease.
  pub reclaim_expired-Reclaimed :
      (s : KanbanStore) → IsKanban s → Reclaimed s (reclaim_expired env calls now s)
  unfolding reclaim_expired
  reclaim_expired-Reclaimed s v =
      let l = list-Listed s v running_query in
      record {
        kept = λ id t read why.
            loop_keeps (list running_query s) 0 [] s id (IsKanban-Named s v) (
              All-of_Member _ (list running_query s) (λ u m q e.
                let (read', fits) = l.stored u m in
                let same : u ≡ t = cc (read', read, ap (get s) e) in
                elim why [
                  | inl idle ↦
                      idle (
                        ap (λ (w : KanbanTask). w.status) (sym same) ∙ running_status u fits.status)
                  | inr live ↦ cc (lapsed_false t.claim live, q, same)
                ]))
            ∙ read;
        freed = λ out id t c good read active claimed ended.
            elim (l.best id t read (running-Matches t active)) [
              | inl m ↦
                  let f =
                    loop_releases (list running_query s) 0 [] out s
                      (reclaim_loop env calls now (list running_query s) 0 [] s).1 t
                      (IsKanban-Named s v)
                      (ap (λ r. (r, (reclaim_loop env calls now (list running_query s) 0 [] s).1))
                        good)
                      m (lapsed_true t.claim c claimed ended) in
                  (
                    f.task,
                    ap (get _) (sym (IsKanban-Named s v id t read)) ∙ f.read,
                    f.is_ready,
                    f.unclaimed,
                  )
              | inr full ↦ cc (full.1)
            ];
      }
