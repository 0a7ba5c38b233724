-- ===== src/Context/Choice.antt =====
-- Which tool results the projection of packages/runtime/src/context-policy.ts leaves out.
use bee_agent.Prelude.{
  ℕ, zero, suc, ◌-◌, ◌≤◌, ◌<◌, ◌≡◌, refl, sym, ap, ◌∙◌, ◌⊎◌, inl, inr, true, false, List, [], ◌∷◌,
  ◌++◌, arith, leb, take, drop, length, filter, Bool-cases, Bool, not, ◌&&◌, Option, none, some,
  or_else,
}
use mathlib.Core.List.{append-nil, append_assoc}
use bee_agent.Context.Policy.{
  LlmMessage, system, user, assistant, tool, includes, is_tool_message, is_error_result, message_at,
  ToolResultCompactionPolicy, elide_loop, elided_indexes, may_elide, recent_of, tokens_at,
  tokens_of_all, tool_indexes,
}

abbrev unflagged : Option Bool → Bool
unflagged none = true
unflagged (some is_error) = not is_error

-- A tool result that is not among `recent` and is no error.
abbrev pub free_message : List ℕ → ℕ → Option LlmMessage → Bool
free_message recent i none = false
free_message recent i (some (tool m)) = unflagged m.is_error && not (includes i recent)
free_message recent i (some (system _)) = false
free_message recent i (some (user _)) = false
free_message recent i (some (assistant _ _)) = false

abbrev pub is_free : List LlmMessage → List ℕ → ℕ → Bool
is_free history recent i = free_message recent i (message_at history i)

is_free_lem :
    (history : List LlmMessage) (recent : List ℕ) (i : ℕ)
    → may_elide history recent i ≡ is_free history recent i
unfolding may_elide
is_free_lem history recent i = by_message (message_at history i)
  where
    by_flag :
        (flag : Option Bool)
        → (not (includes i recent) && not (or_else flag false))
          ≡ (unflagged flag && not (includes i recent))
    by_flag none = ground arith
    by_flag (some flag) = ground arith

    by_message :
        (m : Option LlmMessage)
        → elim m [
          | none ↦ false
          | some x ↦ is_tool_message x && not (includes i recent) && not (is_error_result x)
        ]
          ≡ free_message recent i m
    by_message none = refl
    by_message (some (tool m)) = by_flag m.is_error
    by_message (some (system _)) = refl
    by_message (some (user _)) = refl
    by_message (some (assistant _ _)) = refl

-- The newest `keep` results, which stay. With a `keep` of 0 all of them stay.
abbrev pub most_recent : ℕ → List ℕ → List ℕ
most_recent zero indexes = indexes
most_recent (suc keep) indexes = drop (length indexes - suc keep) indexes

recent_of_lem : (keep : ℕ) (indexes : List ℕ) → recent_of keep indexes ≡ most_recent keep indexes
unfolding recent_of
recent_of_lem zero indexes = refl
recent_of_lem (suc keep) indexes = ground arith

-- The results that may go, oldest first.
abbrev pub candidates : List LlmMessage → List ℕ → List ℕ → List ℕ
candidates history recent indexes = filter (is_free history recent) indexes

-- The choice: the oldest candidates, as few as bring the total within the budget, or all of them.
pub record Chosen (history : List LlmMessage) (recent : List ℕ) (budget total : ℕ)
    (indexes chosen : List ℕ) : Type 0 where
  pub count : ℕ
  pub oldest : chosen ≡ take count (candidates history recent indexes)
  pub enough :
      (total - tokens_of_all history chosen ≤ budget) ⊎ (chosen ≡ candidates history recent indexes)
  pub needed :
      (m : ℕ)
      → m < count
      → budget < total - tokens_of_all history (take m (candidates history recent indexes))

module _ (history : List LlmMessage) (recent : List ℕ) (budget : ℕ) where
  passed :
      (i total : ℕ) (indexes chosen : List ℕ)
      → is_free history recent i ≡ false
      → Chosen history recent budget total indexes chosen
      → Chosen history recent budget total (i ∷ indexes) chosen
  passed i total indexes chosen e c = record {
    count = c.count;
    oldest = rw e c.oldest;
    enough = rw e c.enough;
    needed = rw e c.needed;
  }

  within : (total : ℕ) → leb total budget ≡ true → total - tokens_of_all history [] ≤ budget
  unfolding tokens_of_all
  within total e = ground arith

  later_needed :
      (i total count : ℕ) (rest : List ℕ)
      → budget < total
      → ((m : ℕ)
          → m < count
          → budget < total - tokens_at history i - tokens_of_all history (take m rest))
      → (m : ℕ) → m < suc count
      → budget < total - tokens_of_all history (take m (i ∷ rest))
  unfolding tokens_of_all
  later_needed i total count rest over needed zero h = omega arith
  later_needed i total count rest over needed (suc m) h = omega (arith, needed m (omega arith))

  taken :
      (i total : ℕ) (indexes chosen : List ℕ)
      → is_free history recent i ≡ true
      → budget < total
      → Chosen history recent budget (total - tokens_at history i) indexes chosen
      → Chosen history recent budget total (i ∷ indexes) (i ∷ chosen)
  unfolding tokens_of_all
  taken i total indexes chosen e over c = record {
    count = suc c.count;
    oldest = rw e (ap (λ rest. i ∷ rest) c.oldest);
    enough = rw e (elim c.enough [
      | inl fits ↦ inl (omega (arith, fits))
      | inr all ↦ inr (ap (λ rest. i ∷ rest) all)
    ]);
    needed = rw e (later_needed i total c.count (candidates history recent indexes) over c.needed);
  }

  elide_loop-Chosen :
      (indexes : List ℕ) (total : ℕ) (before : List ℕ)
      → (chosen : List ℕ) × (elide_loop history recent budget indexes total before
          ≡ before ++ chosen)
        × Chosen history recent budget total indexes chosen
  unfolding elide_loop
  elide_loop-Chosen [] total before = (
    [],
    sym (append-nil before),
    record { count = 0; oldest = refl; enough = inr refl; needed = λ m h. absurd (omega arith) },
  )
  elide_loop-Chosen (i ∷ indexes) total before = elim (Bool-cases (leb total budget)) [
    | inl e ↦ (
      [],
      rw (elide_loop, e) (sym (append-nil before)),
      record {
        count = 0;
        oldest = refl;
        enough = inl (within total e);
        needed = λ m h. absurd (omega arith);
      },
    )
    | inr e ↦ elim (Bool-cases (may_elide history recent i)) [
      | inr held ↦
          let (chosen, result, c) = elide_loop-Chosen indexes total before in
          (
            chosen,
            rw (elide_loop, e, held) result,
            passed i total indexes chosen (sym (is_free_lem history recent i) ∙ held) c,
          )
      | inl free ↦
          let (chosen, result, c) =
            elide_loop-Chosen indexes (total - tokens_at history i) (before ++ i ∷ []) in
          (
            i ∷ chosen,
            rw (elide_loop, e, free) (result ∙ append_assoc before (i ∷ []) chosen),
            taken i total indexes chosen (sym (is_free_lem history recent i) ∙ free) (ground arith)
                c,
          )
    ]
  ]

pub elided_indexes-Chosen :
    (history : List LlmMessage) (policy : ToolResultCompactionPolicy)
    → (chosen : List ℕ) × (elided_indexes history policy ≡ chosen)
      × Chosen history
          (most_recent policy.keep_recent_tool_results (tool_indexes 0 history))
          policy.tool_result_budget_tokens
          (tokens_of_all history (tool_indexes 0 history))
          (tool_indexes 0 history)
          chosen
unfolding elided_indexes
elided_indexes-Chosen history policy =
    let indexes = tool_indexes 0 history in
    rw (recent_of_lem policy.keep_recent_tool_results indexes) (
      elide_loop-Chosen history (most_recent policy.keep_recent_tool_results indexes)
        policy.tool_result_budget_tokens indexes (tokens_of_all history indexes) [])
