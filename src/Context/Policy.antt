-- ===== src/Context/Policy.antt =====
-- packages/runtime/src/context-policy.ts: which tool results a model request leaves out. The digest
-- of node's `crypto` is the parameter `sha256`, on the text that is hashed.
use Prim.Native.Nat.{◌/◌, ◌%◌}
use bee_agent.Prelude.{
  ℕ, zero, suc, ◌+◌, ◌-◌, Bool, true, false, not, ◌&&◌, Option, none, some, or_else, List, [], ◌∷◌,
  ◌++◌, if◌then◌else◌, leb, ltb, ◌==◌, length, drop, take, map, any_of,
}
use bee_agent.Prelude.Units.{Text, units}
use bee_agent.Context.Json.{canonical_json, string}
use bee_agent.Thread.{MessageToolCall}
use bee_agent.Context.Budget.{estimate_tokens}

pub record ToolResultCompactionPolicy : Type 0 where
  pub tool_result_budget_tokens : ℕ
  pub keep_recent_tool_results : ℕ

abbrev pub default_tool_result_compaction : ToolResultCompactionPolicy
default_tool_result_compaction = record {
  tool_result_budget_tokens = 4096;
  keep_recent_tool_results = 4;
}

-- `LlmToolCall`
abbrev pub LlmToolCall : Type 0
LlmToolCall = MessageToolCall

pub record ToolMessage : Type 0 where
  pub call_id : Text
  pub tool_id : Text
  pub content : Text
  pub is_error : Option Bool

pub data LlmMessage : Type 0 where
  system user : Text → LlmMessage
  assistant : Text → Option (List LlmToolCall) → LlmMessage
  tool : ToolMessage → LlmMessage

pub record ContextElision : Type 0 where
  pub message_index : ℕ
  pub tool_id : Text
  pub original_tokens : ℕ
  pub digest : Text

pub record ProjectedHistory : Type 0 where
  pub messages : List LlmMessage
  pub elisions : List ContextElision

abbrev pub content_of : LlmMessage → Text
content_of (system content) = content
content_of (user content) = content
content_of (assistant content _) = content
content_of (tool message) = message.content

abbrev pub is_tool_message : LlmMessage → Bool
is_tool_message (tool _) = true
is_tool_message _ = false

-- `message.isError === true`
abbrev pub is_error_result : LlmMessage → Bool
is_error_result (tool message) = or_else message.is_error false
is_error_result _ = false

-- `history[index]`
abbrev pub message_at : List LlmMessage → ℕ → Option LlmMessage
message_at [] i = none
message_at (m ∷ ms) zero = some m
message_at (m ∷ ms) (suc i) = message_at ms i

abbrev pub includes : ℕ → List ℕ → Bool
includes i indexes = any_of (λ j. i == j) indexes

-- Decimal digits; `n` has at most as many as the fuel.
unfoldable pub digits : (fuel : ℕ) → ℕ → Text
digits zero n = []
digits (suc fuel) n =
    let more = digits fuel (n / 10) in
    if ltb n 10 then (48 + n) ∷ [] else more ++ (48 + n % 10) ∷ []

abbrev pub decimal : ℕ → Text
decimal n = digits (suc n) n

-- `elisionPlaceholder`
unfoldable pub elision_placeholder : ContextElision → Text
unfolding digits
elision_placeholder elision =
    let short_digest = take 8 (drop 7 elision.digest) in
    units "[elided by context policy: ~"
    ++ decimal elision.original_tokens
    ++ units "-token tool result for '"
    ++ elision.tool_id
    ++ units "' ("
    ++ short_digest
    ++ units "); the full output is retained in this thread's durable log]"

-- The first loop: the indexes of the tool messages, from `n` on.
unfoldable pub tool_indexes : ℕ → List LlmMessage → List ℕ
tool_indexes n [] = []
tool_indexes n (m ∷ ms) = elim (is_tool_message m) [
  | true ↦ n ∷ tool_indexes (suc n) ms
  | false ↦ tool_indexes (suc n) ms
]

-- `toolIndexes.slice(-keep)`: at zero the start is `-0`, and the slice is the whole list.
unfoldable pub recent_of : ℕ → List ℕ → List ℕ
recent_of keep indexes = if keep == 0 then indexes else drop (length indexes - keep) indexes

-- `tokensOf`
unfoldable pub tokens_at : List LlmMessage → ℕ → ℕ
unfolding estimate_tokens
tokens_at history i = elim (message_at history i) [
  | none ↦ estimate_tokens []
  | some m ↦ estimate_tokens (content_of m)
]

unfoldable pub tokens_of_all : List LlmMessage → List ℕ → ℕ
unfolding tokens_at
tokens_of_all history [] = 0
tokens_of_all history (i ∷ indexes) = tokens_at history i + tokens_of_all history indexes

module _ (history : List LlmMessage) (recent : List ℕ) where
  -- The two tests that do not pass over a result.
  unfoldable pub may_elide : ℕ → Bool
  may_elide i = elim (message_at history i) [
    | none ↦ false
    | some m ↦ is_tool_message m && not (includes i recent) && not (is_error_result m)
  ]

  -- The loop over the tool messages, oldest first.
  unfoldable pub elide_loop : (budget : ℕ) → List ℕ → (total : ℕ) → List ℕ → List ℕ
  unfolding may_elide tokens_at
  elide_loop budget [] total elide = elide
  elide_loop budget (i ∷ indexes) total elide = elim (leb total budget) [
    | true ↦ elide
    | false ↦ elim (may_elide i) [
      | false ↦ elide_loop budget indexes total elide
      | true ↦ elide_loop budget indexes (total - tokens_at history i) (elide ++ i ∷ [])
    ]
  ]

-- Which results go.
unfoldable pub elided_indexes : List LlmMessage → ToolResultCompactionPolicy → List ℕ
unfolding tool_indexes recent_of tokens_of_all elide_loop
elided_indexes history policy =
    let indexes = tool_indexes 0 history in
    elide_loop history (recent_of policy.keep_recent_tool_results indexes)
      policy.tool_result_budget_tokens indexes (tokens_of_all history indexes) []

module _ (sha256 : Text → Text) where
  unfoldable pub elision_of : ℕ → ToolMessage → ContextElision
  unfolding canonical_json estimate_tokens
  elision_of i message = record {
    message_index = i;
    tool_id = message.tool_id;
    original_tokens = estimate_tokens message.content;
    digest = units "sha256:" ++ sha256 (canonical_json (string message.content));
  }

  -- What stands in the place of an elided message.
  unfoldable pub elided : ℕ → LlmMessage → LlmMessage
  unfolding elision_of elision_placeholder
  elided i (tool message) =
      tool (record message { content = elision_placeholder (elision_of i message) })
  elided i m = m

  unfoldable pub elisions_at : (n : ℕ) → List ℕ → List LlmMessage → List ContextElision
  unfolding elision_of
  elisions_at n elide [] = []
  elisions_at n elide (tool message ∷ ms) =
      let rest = elisions_at (suc n) elide ms in
      if includes n elide then elision_of n message ∷ rest else rest
  elisions_at n elide (m ∷ ms) = elisions_at (suc n) elide ms

  -- The map over the history, from index `n` on.
  unfoldable pub messages_at : (n : ℕ) → List ℕ → List LlmMessage → List LlmMessage
  unfolding elided
  messages_at n elide [] = []
  messages_at n elide (m ∷ ms) =
      (if includes n elide then elided n m else m) ∷ messages_at (suc n) elide ms

  unfoldable pub project_history : List LlmMessage → ToolResultCompactionPolicy → ProjectedHistory
  unfolding elided_indexes messages_at elisions_at
  project_history history policy = elim (elided_indexes history policy) [
    | [] ↦ record { messages = history; elisions = [] }
    | i ∷ indexes ↦ record {
      messages = messages_at 0 (i ∷ indexes) history;
      elisions = elisions_at 0 (i ∷ indexes) history;
    }
  ]

pub record ManifestOmission : Type 0 where
  pub source_id : Text
  pub reason : Text

-- `elisionsToOmissions`
unfoldable pub elisions_to_omissions : List ContextElision → List ManifestOmission
unfolding digits
elisions_to_omissions elisions =
    map
      (λ (elision : ContextElision). record {
        source_id = units "message:" ++ decimal elision.message_index;
        reason =
            units "context-policy:tool-result-budget ("
            ++ decimal elision.original_tokens
            ++ units " tokens, "
            ++ elision.digest
            ++ units ")";
      })
      elisions
