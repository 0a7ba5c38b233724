-- ===== src/Tests/Tokens.antt =====
-- Instances of the theorems on the context budget.
use bee_agent.Prelude.{
  ℕ, zero, suc, ◌+◌, ◌%◌, String, Bool, Option, ok, map, All, ◌++◌, ◌≤◌, ◌≡◌, refl, List, none,
  some, [], ◌∷◌, arith, length, take,
}
use bee_agent.Prelude.Units.{Text, units}
use bee_agent.Context.Policy.{
  LlmMessage, ToolMessage, ToolResultCompactionPolicy, elided_indexes, project_history, tool, user,
}
use bee_agent.Context.Elision.{Projected, project_history-Projected, project_history_keep_none}
use bee_agent.Prelude.Text.{has_prefix}
use bee_agent.Context.Manifest.{
  BuildContextManifestInput, ContextManifest, ContextRenderer, ContextSectionDraft, RebuiltSection,
  build_context_manifest, rebuild_context_input, section_of,
}
use bee_agent.Context.Rebuilding.{
  Renders, Vouched, build_context_manifest-rebuild_context_input, in_order, rebuilt_of,
}
use bee_agent.Context.Budget.{
  SectionKind, ellipsis, PromptSection, ProtectedContent, estimate_tokens, compress,
  allocate_context_budget,
}
use bee_agent.Context.Allocation.{Allocated, allocate_context_budget-Allocated}
use bee_agent.Context.Compression.{compress_fits, compress_zero}

abbrev word : Text
word = 104 ∷ 101 ∷ 108 ∷ 108 ∷ 111 ∷ []

-- A section of two tokens, and one that is protected.
abbrev plain : PromptSection
plain = record {
  id = units "history";
  kind = SectionKind.trajectory;
  priority = 8;
  content = word;
  source_ids = none;
  renderer_version = none;
  protected_by = none;
}

abbrev guarded : PromptSection
guarded = record plain {
  id = units "approval";
  priority = 1;
  protected_by = some (ProtectedContent.pending_approval ∷ []);
}

allocate_context_budget-Allocated_example :
    Allocated 3 (plain ∷ guarded ∷ []) (allocate_context_budget (plain ∷ guarded ∷ []) 3)
allocate_context_budget-Allocated_example =
    allocate_context_budget-Allocated (plain ∷ guarded ∷ []) 3

compress_fits_example :
    (estimate_tokens (compress word 1) ≤ 1) × (length word ≤ 4 → compress word 1 ≡ word)
compress_fits_example = compress_fits word 1 (omega arith)

compress_zero_example :
    (compress word 0 ≡ take 4 word ++ ellipsis ∷ []) × (length (compress word 0) ≡ 5)
compress_zero_example = compress_zero word (λ h. cc)

-- A history with two tool results, of which the first is large.
abbrev first_result : ToolMessage
first_result = record {
  call_id = 49 ∷ [];
  tool_id = 108 ∷ 115 ∷ [];
  content = 97 ∷ 98 ∷ 99 ∷ 100 ∷ 101 ∷ [];
  is_error = none;
}

abbrev two_results : List LlmMessage
two_results =
    user (104 ∷ 105 ∷ [])
    ∷ tool first_result
    ∷ tool (record first_result { call_id = 50 ∷ [] })
    ∷ []

abbrev keep_last : ToolResultCompactionPolicy
keep_last = record { tool_result_budget_tokens = 2; keep_recent_tool_results = 1 }

abbrev no_hash : Text → Text
no_hash text = 48 ∷ []

leaves_out : elided_indexes two_results keep_last ≡ 1 ∷ []
unfolding elided_indexes
leaves_out = refl

project_history-Projected_example :
    Projected no_hash two_results keep_last (project_history no_hash two_results keep_last)
project_history-Projected_example = project_history-Projected no_hash two_results keep_last

project_history_keep_none_example :
    project_history no_hash two_results (record keep_last { keep_recent_tool_results = 0 })
    ≡ record { messages = two_results; elisions = [] }
project_history_keep_none_example =
    project_history_keep_none no_hash two_results
      (record keep_last { keep_recent_tool_results = 0 }) refl

-- A stand-in for the hash: 64 digits that depend on the text's length.
abbrev repeat : ℕ → ℕ → Text
repeat zero c = []
repeat (suc n) c = c ∷ repeat n c

abbrev length_hash : Text → Text
length_hash text = repeat 64 (48 + length text % 10)

abbrev late_draft : ContextSectionDraft
late_draft = record {
  kind = SectionKind.memory;
  source_ids = units "m" ∷ [];
  renderer_version = units "v1";
  priority = 9;
  content = units "mm";
}

abbrev early_draft : ContextSectionDraft
early_draft = record late_draft {
  kind = SectionKind.goal;
  source_ids = units "g" ∷ [];
  priority = 2;
  content = units "gg";
}

abbrev build_input : BuildContextManifestInput
build_input = record {
  id = "u-1";
  prompt_version = "p1";
  structure_version = "s1";
  token_budget = 100;
  sections = late_draft ∷ early_draft ∷ [];
  omissions = none;
}

abbrev is_id : String → Bool
is_id t = has_prefix t "u"

-- It writes each source id twice.
abbrev doubling : ContextRenderer
doubling = record {
  version = units "v1";
  render = λ ids sources. elim ids [ [] ↦ [] | id ∷ _ ↦ id ++ id ];
}

abbrev built : ContextManifest
built = record {
  id = "u-1";
  prompt_version = "p1";
  structure_version = "s1";
  token_budget = 100;
  sections = section_of length_hash late_draft ∷ section_of length_hash early_draft ∷ [];
  omissions = [];
}

building : build_context_manifest length_hash is_id build_input ≡ ok built
unfolding build_context_manifest bee_agent.Context.Manifest.context_manifest_schema section_of
    bee_agent.Prelude.Units.is_sha256_digest bee_agent.Context.Manifest.compute_section_digest
    bee_agent.Context.Json.canonical_json bee_agent.Prelude.Sort.sort_by
building = refl

abbrev no_sources : Text → Option Text
no_sources id = none

abbrev one_renderer : Text → Option ContextRenderer
one_renderer version = some doubling

build_context_manifest-rebuild_context_input_example :
    (All (Renders length_hash no_sources one_renderer) (late_draft ∷ early_draft ∷ [])
      → rebuild_context_input length_hash no_sources one_renderer built
        ≡ ok (
            map
              (rebuilt_of length_hash no_sources one_renderer)
              (in_order length_hash no_sources one_renderer (late_draft ∷ early_draft ∷ []))))
    × ((rs : List RebuiltSection)
        → rebuild_context_input length_hash no_sources one_renderer built ≡ ok rs
        → (map (λ (r : RebuiltSection). r.section) rs
            ≡ map
                (section_of length_hash)
                (in_order length_hash no_sources one_renderer (late_draft ∷ early_draft ∷ [])))
          × All (Vouched length_hash no_sources one_renderer) rs)
build_context_manifest-rebuild_context_input_example =
    build_context_manifest-rebuild_context_input length_hash no_sources one_renderer is_id
      build_input built building

Renders-drafts : All (Renders length_hash no_sources one_renderer) (late_draft ∷ early_draft ∷ [])
Renders-drafts = ((doubling, refl, refl), ((doubling, refl, refl), tt))
