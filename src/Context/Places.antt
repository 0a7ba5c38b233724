-- ===== src/Context/Places.antt =====
-- Where the tool results of a history stand.
use bee_agent.Prelude.{
  ℕ, zero, suc, ◌+◌, ◌≤◌, ◌<◌, ◌≡◌, refl, subst, inl, inr, some, List, [], ◌∷◌, arith, All, Member,
}
use bee_agent.Context.Policy.{
  LlmMessage, ToolMessage, assistant, message_at, system, tool, tool_indexes, user,
}

abbrev pub Increasing : List ℕ → Type 0
Increasing [] = Unit
Increasing (i ∷ indexes) = All (λ j. i < j) indexes × Increasing indexes

-- The indexes of exactly the tool messages, in order.
pub record ArePlaces (history : List LlmMessage) (indexes : List ℕ) : Type 0 where
  pub increasing : Increasing indexes
  pub tools :
      (i : ℕ) → Member i indexes → (m : ToolMessage) × (message_at history i ≡ some (tool m))
  pub every : (i : ℕ) (m : ToolMessage) → message_at history i ≡ some (tool m) → Member i indexes

above : (n k : ℕ) (ms : List LlmMessage) → k ≤ n → All (λ i. k ≤ i) (tool_indexes n ms)
unfolding tool_indexes
above n k [] h = tt
above n k (tool m ∷ ms) h = (h, above (suc n) k ms (omega (arith, h)))
above n k (system _ ∷ ms) h = above (suc n) k ms (omega (arith, h))
above n k (user _ ∷ ms) h = above (suc n) k ms (omega (arith, h))
above n k (assistant _ _ ∷ ms) h = above (suc n) k ms (omega (arith, h))

tool_indexes-Increasing : (n : ℕ) (ms : List LlmMessage) → Increasing (tool_indexes n ms)
unfolding tool_indexes
tool_indexes-Increasing n [] = tt
tool_indexes-Increasing n (tool m ∷ ms) =
    (above (suc n) (suc n) ms (omega arith), tool_indexes-Increasing (suc n) ms)
tool_indexes-Increasing n (system _ ∷ ms) = tool_indexes-Increasing (suc n) ms
tool_indexes-Increasing n (user _ ∷ ms) = tool_indexes-Increasing (suc n) ms
tool_indexes-Increasing n (assistant _ _ ∷ ms) = tool_indexes-Increasing (suc n) ms

-- An index, where the messages stand from index `n` on.
record Stands (n i : ℕ) (ms : List LlmMessage) : Type 0 where
  offset : ℕ
  message : ToolMessage
  shifted : i ≡ n + offset
  found : message_at ms offset ≡ some (tool message)

Stands-later :
    (n i : ℕ) (x : LlmMessage) (ms : List LlmMessage) → Stands (suc n) i ms → Stands n i (x ∷ ms)
Stands-later n i x ms s = record {
  offset = suc s.offset;
  message = s.message;
  shifted = omega (arith, s.shifted);
  found = s.found;
}

tool_indexes-Stands :
    (n i : ℕ) (ms : List LlmMessage) → Member i (tool_indexes n ms) → Stands n i ms
unfolding tool_indexes
tool_indexes-Stands n i [] m = absurd m
tool_indexes-Stands n i (tool x ∷ ms) (inl e) = record {
  offset = 0;
  message = x;
  shifted = omega (arith, e);
  found = refl;
}
tool_indexes-Stands n i (tool x ∷ ms) (inr m) =
    Stands-later n i (tool x) ms (tool_indexes-Stands (suc n) i ms m)
tool_indexes-Stands n i (system t ∷ ms) m =
    Stands-later n i (system t) ms (tool_indexes-Stands (suc n) i ms m)
tool_indexes-Stands n i (user t ∷ ms) m =
    Stands-later n i (user t) ms (tool_indexes-Stands (suc n) i ms m)
tool_indexes-Stands n i (assistant t calls ∷ ms) m =
    Stands-later n i (assistant t calls) ms (tool_indexes-Stands (suc n) i ms m)

tool_indexes-Member :
    (n i k : ℕ) (ms : List LlmMessage) (m : ToolMessage)
    → i ≡ n + k
    → message_at ms k ≡ some (tool m)
    → Member i (tool_indexes n ms)
unfolding tool_indexes
tool_indexes-Member n i k [] m e f = absurd (cc f)
tool_indexes-Member n i zero (tool x ∷ ms) m e f = inl (omega (arith, e))
tool_indexes-Member n i zero (system _ ∷ ms) m e f = absurd (cc f)
tool_indexes-Member n i zero (user _ ∷ ms) m e f = absurd (cc f)
tool_indexes-Member n i zero (assistant _ _ ∷ ms) m e f = absurd (cc f)
tool_indexes-Member n i (suc k) (tool x ∷ ms) m e f =
    inr (tool_indexes-Member (suc n) i k ms m (omega (arith, e)) f)
tool_indexes-Member n i (suc k) (system _ ∷ ms) m e f =
    tool_indexes-Member (suc n) i k ms m (omega (arith, e)) f
tool_indexes-Member n i (suc k) (user _ ∷ ms) m e f =
    tool_indexes-Member (suc n) i k ms m (omega (arith, e)) f
tool_indexes-Member n i (suc k) (assistant _ _ ∷ ms) m e f =
    tool_indexes-Member (suc n) i k ms m (omega (arith, e)) f

pub tool_indexes-ArePlaces :
    (history : List LlmMessage) → ArePlaces history (tool_indexes 0 history)
tool_indexes-ArePlaces history = record {
  increasing = tool_indexes-Increasing 0 history;
  tools = λ i m.
      let s = tool_indexes-Stands 0 i history m in
      let e : s.offset ≡ i = omega (arith, s.shifted) in
      (s.message, subst (λ k. message_at history k ≡ some (tool s.message)) e s.found);
  every = λ i m f. tool_indexes-Member 0 i i history m (omega arith) f;
}
