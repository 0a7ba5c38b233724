-- ===== src/Context/Report.antt =====
-- How a projection replaces and reports the results that it leaves out.
use bee_agent.Prelude.{
  ℕ, zero, suc, ◌+◌, ◌/◌, ◌++◌, Bool, drop, length, ◌≡◌, refl, sym, ap, subst, ◌∙◌, inl, inr, true,
  false, Option, none, some, List, [], ◌∷◌, arith, if◌then◌else◌, take, Bool-cases, Member,
}
use bee_agent.Prelude.Units.{Text, units}
use bee_agent.Context.Budget.{estimate_tokens}
use bee_agent.Context.Json.{canonical_json, string}
use bee_agent.Context.Policy.{
  ContextElision, LlmMessage, system, user, assistant, decimal, elision_placeholder, ToolMessage,
  elided, elision_of, elisions_at, includes, message_at, messages_at, tool,
}

-- What is told of an elided result.
abbrev pub report : (Text → Text) → ℕ → ToolMessage → ContextElision
report sha256 i m = record {
  message_index = i;
  tool_id = m.tool_id;
  original_tokens = (length m.content + 3) / 4;
  digest = units "sha256:" ++ sha256 (canonical_json (string m.content));
}

-- The text that stands in for it: its tokens, its tool and the first digits of its digest.
abbrev pub stand_in : ContextElision → Text
stand_in e =
    units "[elided by context policy: ~"
    ++ decimal e.original_tokens
    ++ units "-token tool result for '"
    ++ e.tool_id
    ++ units "' ("
    ++ take 8 (drop 7 e.digest)
    ++ units "); the full output is retained in this thread's durable log]"

-- A message at an index of the projection: a chosen result keeps its call, its tool and its flag.
abbrev pub projected : (Text → Text) → Bool → ℕ → LlmMessage → LlmMessage
projected sha256 true i (tool m) = tool (record {
  call_id = m.call_id;
  tool_id = m.tool_id;
  content = stand_in (report sha256 i m);
  is_error = m.is_error;
})
projected sha256 _ i m = m

abbrev pub projected_at : (Text → Text) → List ℕ → ℕ → Option LlmMessage → Option LlmMessage
projected_at sha256 chosen i none = none
projected_at sha256 chosen i (some m) = some (projected sha256 (includes i chosen) i m)

projected_lem :
    (sha256 : Text → Text) (b : Bool) (i : ℕ) (m : LlmMessage)
    → (if b then elided sha256 i m else m) ≡ projected sha256 b i m
unfolding elided elision_of elision_placeholder estimate_tokens
projected_lem sha256 true i (tool m) = refl
projected_lem sha256 true i (system _) = refl
projected_lem sha256 true i (user _) = refl
projected_lem sha256 true i (assistant _ _) = refl
projected_lem sha256 false i (tool m) = refl
projected_lem sha256 false i (system _) = refl
projected_lem sha256 false i (user _) = refl
projected_lem sha256 false i (assistant _ _) = refl

elision_of-report :
    (sha256 : Text → Text) (i : ℕ) (m : ToolMessage) → elision_of sha256 i m ≡ report sha256 i m
unfolding elision_of estimate_tokens
elision_of-report sha256 i m = refl

module _ (sha256 : Text → Text) where
  pub messages_at_lem :
      (n i : ℕ) (chosen : List ℕ) (ms : List LlmMessage)
      → message_at (messages_at sha256 n chosen ms) i
        ≡ projected_at sha256 chosen (n + i) (message_at ms i)
  unfolding messages_at
  messages_at_lem n i chosen [] = refl
  messages_at_lem n zero chosen (m ∷ ms) =
      let e : n + 0 ≡ n = omega arith in
      rw e (ap some (projected_lem sha256 (includes n chosen) n m))
  messages_at_lem n (suc i) chosen (m ∷ ms) =
      let e : n + suc i ≡ suc n + i = omega arith in rw e (messages_at_lem (suc n) i chosen ms)

  -- An elision of the rest is one of the whole.
  elisions_later :
      (n : ℕ) (chosen : List ℕ) (m : LlmMessage) (ms : List LlmMessage) (elision : ContextElision)
      → Member elision (elisions_at sha256 (suc n) chosen ms)
      → Member elision (elisions_at sha256 n chosen (m ∷ ms))
  unfolding elisions_at
  elisions_later n chosen (tool message) ms elision later = elim (Bool-cases (includes n chosen)) [
    | inl e ↦ rw (elisions_at, e) (inr later)
    | inr e ↦ rw (elisions_at, e) later
  ]
  elisions_later n chosen _ ms elision later = later

  pub elisions_at-Member :
      (n i : ℕ) (chosen : List ℕ) (ms : List LlmMessage) (message : ToolMessage)
      → message_at ms i ≡ some (tool message)
      → includes (n + i) chosen ≡ true
      → Member (report sha256 (n + i) message) (elisions_at sha256 n chosen ms)
  unfolding elisions_at
  elisions_at-Member n i chosen [] message found among = absurd (cc found)
  elisions_at-Member n zero chosen (m ∷ ms) message found among =
      let e : n + 0 ≡ n = omega arith in
      let same : m ≡ tool message = cc found in
      rw (e, same, elisions_at, subst (λ k. includes k chosen ≡ true) e among)
        (inl (sym (elision_of-report sha256 n message)))
  elisions_at-Member n (suc i) chosen (m ∷ ms) message found among =
      let e : n + suc i ≡ suc n + i = omega arith in
      let later = elisions_at-Member (suc n) i chosen ms message found (rw e at among) in
      rw e (elisions_later n chosen m ms (report sha256 (suc n + i) message) later)

  -- An elision is the report of a chosen result, where the messages stand from index `n` on.
  pub record Reports (n : ℕ) (chosen : List ℕ) (ms : List LlmMessage) (elision : ContextElision)
      : Type 0 where
    pub index : ℕ
    pub message : ToolMessage
    pub found : message_at ms index ≡ some (tool message)
    pub among : includes (n + index) chosen ≡ true
    pub same : elision ≡ report sha256 (n + index) message

  Reports-later :
      (n : ℕ) (chosen : List ℕ) (m : LlmMessage) (ms : List LlmMessage) (elision : ContextElision)
      → Reports (suc n) chosen ms elision
      → Reports n chosen (m ∷ ms) elision
  Reports-later n chosen m ms elision r =
      let e : suc n + r.index ≡ n + suc r.index = omega arith in
      record {
        index = suc r.index;
        message = r.message;
        found = r.found;
        among = subst (λ k. includes k chosen ≡ true) e r.among;
        same = r.same ∙ ap (λ k. report sha256 k r.message) e;
      }

  pub elisions_at-Reports :
      (n : ℕ) (chosen : List ℕ) (ms : List LlmMessage) (elision : ContextElision)
      → Member elision (elisions_at sha256 n chosen ms)
      → Reports n chosen ms elision
  unfolding elisions_at
  elisions_at-Reports n chosen [] elision m = absurd m
  elisions_at-Reports n chosen (tool message ∷ ms) elision m =
      elim (Bool-cases (includes n chosen)) [
        | inl e ↦ elim (rw (elisions_at, e) at m) [
          | inl same ↦
              let z : n ≡ n + 0 = omega arith in
              record {
                index = 0;
                message = message;
                found = refl;
                among = subst (λ k. includes k chosen ≡ true) z e;
                same =
                    same ∙ elision_of-report sha256 n message ∙ ap (λ k. report sha256 k message) z;
              }
          | inr later ↦
              Reports-later n chosen (tool message) ms elision
                (elisions_at-Reports (suc n) chosen ms elision later)
        ]
        | inr e ↦
            Reports-later n chosen (tool message) ms elision
              (elisions_at-Reports (suc n) chosen ms elision (rw (elisions_at, e) at m))
      ]
  elisions_at-Reports n chosen (system text ∷ ms) elision m =
      Reports-later n chosen (system text) ms elision
        (elisions_at-Reports (suc n) chosen ms elision m)
  elisions_at-Reports n chosen (user text ∷ ms) elision m =
      Reports-later n chosen (user text) ms elision
        (elisions_at-Reports (suc n) chosen ms elision m)
  elisions_at-Reports n chosen (assistant text calls ∷ ms) elision m =
      Reports-later n chosen (assistant text calls) ms elision
        (elisions_at-Reports (suc n) chosen ms elision m)
