-- ===== src/Context/Budget.antt =====
-- packages/context/src/context-budget.ts, and `estimateTokens` of context-manifest.ts. A text is the
-- list of its UTF-16 code units, which JavaScript's `length` and `slice` count.
use Prim.Native.Nat.{◌*◌, ◌/◌}
use bee_agent.Prelude.{
  ℕ, ◌+◌, ◌-◌, Bool, true, false, ◌||◌, Option, none, some, List, [], ◌∷◌, ◌++◌, map, length, take,
  leb, ltb, if◌then◌else◌,
}
use bee_agent.Prelude.Units.{Text, units}
use bee_agent.Prelude.Sort.{sort_by}

-- `Math.ceil(text.length / 4)`
unfoldable pub estimate_tokens : Text → ℕ
estimate_tokens text = (length text + 3) / 4

pub data ProtectedContent : Type 0 where
  pending_approval unconsumed_tool_result active_plan_constraint failure_reason artifact_reference
        memory_citation permission_boundary :
      ProtectedContent

-- `SECTION_KINDS`
pub data SectionKind : Type 0 where
  instruction goal world trajectory memory skill tool : SectionKind

pub record PromptSection : Type 0 where
  pub id : Text
  pub kind : SectionKind
  pub priority : ℕ
  pub content : Text
  pub source_ids : Option (List Text)
  pub renderer_version : Option Text
  pub protected_by : Option (List ProtectedContent)

pub record ContextOmission : Type 0 where
  pub source_id : Text
  pub reason : Text

pub record ContextAllocation : Type 0 where
  pub sections : List PromptSection
  pub omissions : List ContextOmission
  pub used_tokens : ℕ
  pub total_tokens : ℕ

-- `(section.protectedBy?.length ?? 0) > 0`
unfoldable pub is_protected : PromptSection → Bool
is_protected section = elim section.protected_by [
  | none ↦ false
  | some reasons ↦ ltb 0 (length reasons)
]

unfoldable pub tokens : PromptSection → ℕ
unfolding estimate_tokens
tokens section = estimate_tokens section.content

-- The first loop of `allocateContextBudget`.
unfoldable pub total_of : List PromptSection → ℕ
unfolding tokens
total_of [] = 0
total_of (section ∷ sections) = tokens section + total_of sections

-- The second loop over the sorted sections; it appends to what it has.
unfoldable pub allocate_loop :
    (budget : ℕ)
    → List PromptSection
    → (included : List PromptSection) → List ContextOmission
    → (used : ℕ) → List PromptSection × List ContextOmission × ℕ
unfolding is_protected tokens
allocate_loop budget [] included omissions used = (included, omissions, used)
allocate_loop budget (section ∷ sections) included omissions used =
    elim (is_protected section || leb (used + tokens section) budget) [
      | true ↦
          allocate_loop budget sections (included ++ section ∷ []) omissions (used + tokens section)
      | false ↦
          allocate_loop budget sections included
            (omissions ++ record { source_id = section.id; reason = units "budget-exceeded" } ∷ [])
            used
    ]

abbrev pub by_priority : PromptSection → PromptSection → Bool
by_priority a b = leb a.priority b.priority

unfoldable pub allocate_context_budget : List PromptSection → ℕ → ContextAllocation
unfolding total_of allocate_loop
allocate_context_budget sections budget =
    let (included, omissions, used) = allocate_loop budget (sort_by by_priority sections) [] [] 0 in
    record {
      sections = included;
      omissions = omissions;
      used_tokens = used;
      total_tokens = total_of sections;
    }

-- The code unit of the ellipsis.
abbrev pub ellipsis : ℕ
ellipsis = 8230

-- `content.slice(0, n - 1)`: at `n` zero the end is -1, which counts from the end.
unfoldable pub slice_before : ℕ → Text → Text
slice_before n content = if ltb 0 n then take (n - 1) content else take (length content - 1) content

-- `truncatingCompression.compress`
unfoldable pub compress : Text → ℕ → Text
unfolding slice_before
compress content max_tokens =
    if leb (length content) (max_tokens * 4)
    then content
    else slice_before (max_tokens * 4) content ++ ellipsis ∷ []

-- One section of `prepared` in `compileContextManifest`, under the default policy.
unfoldable pub prepare : ℕ → PromptSection → PromptSection
unfolding is_protected tokens compress
prepare budget section =
    if is_protected section
    then section
    else if leb (tokens section) budget
    then section
    else record section { content = compress section.content budget }

-- `compileContextManifest` up to the allocation that the manifest records.
unfoldable pub compile_allocation : List PromptSection → ℕ → ContextAllocation
unfolding prepare allocate_context_budget
compile_allocation sections budget = allocate_context_budget (map (prepare budget) sections) budget
