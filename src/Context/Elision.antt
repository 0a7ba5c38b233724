-- ===== src/Context/Elision.antt =====
-- What the projection does with the messages that it leaves out, and with the others.
use bee_agent.Prelude.{
  ℕ, zero, suc, ◌+◌, ◌≡◌, refl, sym, ap, subst, ◌∙◌, inl, inr, true, false, Option, none, some,
  List, [], ◌∷◌, arith, take, Member, All, All-of_Member,
}
use bee_agent.Prelude.Units.{Text}
use bee_agent.Context.Policy.{
  ContextElision, LlmMessage, system, user, assistant, ProjectedHistory, ToolMessage,
  ToolResultCompactionPolicy, elided_indexes, elisions_at, includes, message_at, messages_at,
  project_history, tokens_of_all, tool_indexes, tool,
}
use bee_agent.Context.Choice.{
  Chosen, candidates, elided_indexes-Chosen, free_message, is_free, most_recent,
}
use bee_agent.Context.Places.{ArePlaces, tool_indexes-ArePlaces}
use bee_agent.Context.Report.{
  Reports, elisions_at-Member, elisions_at-Reports, messages_at_lem, projected_at, report,
}

take_nil : (n : ℕ) → take {A = ℕ} n [] ≡ []
take_nil zero = refl
take_nil (suc n) = refl

module _ (sha256 : Text → Text) where
  -- What a projection does.
  pub record Projected (history : List LlmMessage) (policy : ToolResultCompactionPolicy)
      (r : ProjectedHistory) : Type 0 where
    pub chosen : List ℕ
    pub indexes : List ℕ
    pub places : ArePlaces history indexes
    pub choice :
        Chosen history
          (most_recent policy.keep_recent_tool_results indexes)
          policy.tool_result_budget_tokens
          (tokens_of_all history indexes)
          indexes
          chosen
    pub kept :
        (i : ℕ) → message_at r.messages i ≡ projected_at sha256 chosen i (message_at history i)
    pub reported :
        (i : ℕ) (message : ToolMessage)
        → message_at history i ≡ some (tool message)
        → includes i chosen ≡ true
        → Member (report sha256 i message) r.elisions
    pub only :
        (elision : ContextElision)
        → Member elision r.elisions
        → Reports sha256 0 chosen history elision

  unchanged : (m : Option LlmMessage) (i : ℕ) → m ≡ projected_at sha256 [] i m
  unchanged none i = refl
  unchanged (some m) i = refl

  -- A projection leaves out tool results only: of those that are no errors and not among the most
  -- recent, the oldest, as few as bring the total within the budget, or all where these are not
  -- enough; where the policy keeps 0 recent results, all of them count as recent. Each is replaced
  -- by a placeholder under its call, tool and flag, which tells its tokens, its tool and the start of
  -- its digest. Exactly these results are reported, each with its index, tool, tokens and digest;
  -- every other message stays as it is, in its place.
  pub project_history-Projected :
      (history : List LlmMessage) (policy : ToolResultCompactionPolicy)
      → Projected history policy (project_history sha256 history policy)
  unfolding project_history
  project_history-Projected history policy =
      let (chosen, result, choice) = elided_indexes-Chosen history policy in
      by_choice chosen result choice
    where
      by_choice :
          (chosen : List ℕ)
          → elided_indexes history policy ≡ chosen
          → Chosen history
              (most_recent policy.keep_recent_tool_results (tool_indexes 0 history))
              policy.tool_result_budget_tokens
              (tokens_of_all history (tool_indexes 0 history))
              (tool_indexes 0 history)
              chosen
          → Projected history policy (project_history sha256 history policy)
      by_choice [] result choice = record {
        chosen = [];
        indexes = tool_indexes 0 history;
        places = tool_indexes-ArePlaces history;
        choice = choice;
        kept = λ i. rw (project_history, result) (unchanged (message_at history i) i);
        reported = λ i message found among. absurd (cc among);
        only = λ elision m. absurd (rw (project_history, result) at m);
      }
      by_choice (j ∷ rest) result choice = record {
        chosen = j ∷ rest;
        indexes = tool_indexes 0 history;
        places = tool_indexes-ArePlaces history;
        choice = choice;
        kept = λ i.
            let e : 0 + i ≡ i = omega arith in
            rw (project_history, result)
              (subst
                (λ k.
                  message_at (messages_at sha256 0 (j ∷ rest) history) i
                  ≡ projected_at sha256 (j ∷ rest) k (message_at history i))
                e (messages_at_lem sha256 0 i (j ∷ rest) history));
        reported = λ i message found among.
            let e : 0 + i ≡ i = omega arith in
            rw (project_history, result)
              (subst
                (λ k. Member (report sha256 k message) (elisions_at sha256 0 (j ∷ rest) history)) e
                (elisions_at-Member sha256 0 i (j ∷ rest) history message found
                  (subst (λ k. includes k (j ∷ rest) ≡ true) (sym e) among)));
        only = λ elision m.
            elisions_at-Reports sha256 0 (j ∷ rest) history elision
              (rw (project_history, result) at m);
      }

-- A result that is recent stays.
none_free :
    (history : List LlmMessage) (recent indexes : List ℕ)
    → All (λ i. includes i recent ≡ true) indexes
    → candidates history recent indexes ≡ []
none_free history recent [] h = refl
none_free history recent (i ∷ indexes) h =
    let e : is_free history recent i ≡ false = recent_stays (message_at history i) in
    rw e (none_free history recent indexes h.1)
  where
    recent_stays : (m : Option LlmMessage) → free_message recent i m ≡ false
    recent_stays none = refl
    recent_stays (some (tool x)) = ground (arith, h.0)
    recent_stays (some (system _)) = refl
    recent_stays (some (user _)) = refl
    recent_stays (some (assistant _ _)) = refl

includes_more :
    (i j : ℕ) (indexes : List ℕ) → includes i indexes ≡ true → includes i (j ∷ indexes) ≡ true
includes_more i j indexes h = ground arith

includes_self : (indexes : List ℕ) → All (λ i. includes i indexes ≡ true) indexes
includes_self indexes = All-of_Member _ indexes (by_member indexes)
  where
    by_member : (among : List ℕ) (i : ℕ) → Member i among → includes i among ≡ true
    by_member [] i m = absurd m
    by_member (j ∷ js) i (inl e) = ground arith
    by_member (j ∷ js) i (inr m) = includes_more i j js (by_member js i m)

-- With no recent results to keep, the projection leaves every result in, whatever the budget.
pub project_history_keep_none :
    (sha256 : Text → Text) (history : List LlmMessage) (policy : ToolResultCompactionPolicy)
    → policy.keep_recent_tool_results ≡ 0
    → project_history sha256 history policy ≡ record { messages = history; elisions = [] }
unfolding project_history
project_history_keep_none sha256 history policy keep =
    let indexes = tool_indexes 0 history in
    let (chosen, result, choice) = elided_indexes-Chosen history policy in
    let all : most_recent policy.keep_recent_tool_results indexes ≡ indexes = rw keep refl in
    let e : candidates history (most_recent policy.keep_recent_tool_results indexes) indexes ≡ [] =
      rw all (none_free history indexes indexes (includes_self indexes)) in
    let empty : chosen ≡ [] = choice.oldest ∙ ap (take choice.count) e ∙ take_nil choice.count in
    rw (project_history, result ∙ empty) refl
