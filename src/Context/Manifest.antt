-- ===== src/Context/Manifest.antt =====
-- packages/context/src/context-manifest.ts, and `compileContextManifest` of context-budget.ts. The
-- hash of node's `crypto` is the parameter `sha256`, on the text that is hashed; a
-- `ReadonlyMap` that is only read is a function.
use bee_agent.Prelude.{
  ℕ, String, Bool, ◌&&◌, Option, some, or_else, List, [], ◌∷◌, ◌++◌, Result, ok, guard, require,
  ◌>>◌, ◌>>=◌, leb, every, map,
}
use bee_agent.Prelude.Text.{non_empty}
use bee_agent.Prelude.Units.{Text, has_units, units, same_text, is_sha256_digest}
use bee_agent.Prelude.Sort.{sort_by}
use bee_agent.Errors.{Error, context_manifest_invalid, no_renderer, context_reconstruction}
use bee_agent.Context.Json.{
  Elements, canonical_json, string, array, object, no_elements, element, no_members, member,
}
use bee_agent.Context.Budget.{
  SectionKind, PromptSection, ContextOmission, estimate_tokens, compile_allocation,
}

pub record ContextSection : Type 0 where
  pub kind : SectionKind
  pub source_ids : List Text
  pub renderer_version : Text
  pub priority : ℕ
  pub tokens : ℕ
  pub digest : Text

pub record ContextManifest : Type 0 where
  pub id : String
  pub prompt_version : String
  pub structure_version : String
  pub token_budget : ℕ
  pub sections : List ContextSection
  pub omissions : List ContextOmission

pub record ContextSectionDraft : Type 0 where
  pub kind : SectionKind
  pub source_ids : List Text
  pub renderer_version : Text
  pub priority : ℕ
  pub content : Text

pub record BuildContextManifestInput : Type 0 where
  pub id : String
  pub prompt_version : String
  pub structure_version : String
  pub token_budget : ℕ
  pub sections : List ContextSectionDraft
  pub omissions : Option (List ContextOmission)

unfoldable pub context_section_schema : ContextSection → Bool
context_section_schema s =
    every has_units s.source_ids && has_units s.renderer_version && is_sha256_digest s.digest

unfoldable pub context_omission_schema : ContextOmission → Bool
context_omission_schema o = has_units o.source_id && has_units o.reason

unfoldable pub context_manifest_schema : (String → Bool) → ContextManifest → Bool
unfolding context_section_schema context_omission_schema
context_manifest_schema is_uuid m =
    is_uuid m.id
    && non_empty m.prompt_version
    && non_empty m.structure_version
    && every context_section_schema m.sections
    && every context_omission_schema m.omissions

abbrev pub kind_name : SectionKind → Text
kind_name SectionKind.instruction = units "instruction"
kind_name SectionKind.goal = units "goal"
kind_name SectionKind.world = units "world"
kind_name SectionKind.trajectory = units "trajectory"
kind_name SectionKind.memory = units "memory"
kind_name SectionKind.skill = units "skill"
kind_name SectionKind.tool = units "tool"

abbrev text_elements : List Text → Elements
text_elements [] = no_elements
text_elements (t ∷ texts) = element (string t) (text_elements texts)

pub record ContextRenderer : Type 0 where
  pub version : Text
  pub render : List Text → (Text → Option Text) → Text

pub record RebuiltSection : Type 0 where
  pub section : ContextSection
  pub text : Text

-- The draft of an allocated section.
unfoldable pub draft_of : PromptSection → ContextSectionDraft
draft_of section = record {
  kind = section.kind;
  source_ids = or_else section.source_ids (section.id ∷ []);
  renderer_version = or_else section.renderer_version (units "v1");
  priority = section.priority;
  content = section.content;
}

module _ (sha256 : Text → Text) where
  unfoldable pub compute_section_digest : SectionKind → List Text → Text → Text → Text
  compute_section_digest kind source_ids renderer_version content =
      units "sha256:"
      ++ sha256 (
          canonical_json (
            object (
              member (units "kind") (string (kind_name kind)) (
                member (units "sourceIds") (array (text_elements source_ids)) (
                  member (units "rendererVersion") (string renderer_version)
                    (member (units "content") (string content) no_members))))))

  -- The section of a draft.
  unfoldable pub section_of : ContextSectionDraft → ContextSection
  section_of draft = record {
    kind = draft.kind;
    source_ids = draft.source_ids;
    renderer_version = draft.renderer_version;
    priority = draft.priority;
    tokens = estimate_tokens draft.content;
    digest =
        compute_section_digest draft.kind draft.source_ids draft.renderer_version draft.content;
  }

  unfoldable pub build_context_manifest :
      (String → Bool) → BuildContextManifestInput → Result Error ContextManifest
  build_context_manifest is_uuid input =
      let manifest : ContextManifest = record {
        id = input.id;
        prompt_version = input.prompt_version;
        structure_version = input.structure_version;
        token_budget = input.token_budget;
        sections = map section_of input.sections;
        omissions = or_else input.omissions [];
      } in
      do guard (context_manifest_schema is_uuid manifest) context_manifest_invalid; ok manifest

  -- `compileContextManifest` under the default compression.
  unfoldable pub compile_context_manifest :
      (String → Bool)
      → String
      → String
      → String
      → List PromptSection
      → ℕ
      → Result Error ContextManifest
  unfolding build_context_manifest draft_of
  compile_context_manifest is_uuid id prompt_version structure_version sections budget =
      let allocation = compile_allocation sections budget in
      build_context_manifest is_uuid (record {
        id = id;
        prompt_version = prompt_version;
        structure_version = structure_version;
        token_budget = budget;
        sections = map draft_of allocation.sections;
        omissions = some allocation.omissions;
      })

  module _ (sources : Text → Option Text) (renderers : Text → Option ContextRenderer) where
    -- The body of the map of `rebuildContextInput`.
    unfoldable pub rebuild_section : ContextSection → Result Error RebuiltSection
    unfolding compute_section_digest
    rebuild_section section = do
      renderer ← require (renderers section.renderer_version) (no_renderer section.renderer_version)
      let text = renderer.render section.source_ids sources
      let rebuilt =
          compute_section_digest section.kind section.source_ids section.renderer_version text
      guard (same_text rebuilt section.digest) (context_reconstruction section.digest rebuilt)
      ok (record { section = section; text = text })

    unfoldable pub rebuild_sections : List ContextSection → Result Error (List RebuiltSection)
    unfolding rebuild_section
    rebuild_sections [] = ok []
    rebuild_sections (section ∷ sections) = do
      rebuilt ← rebuild_section section
      rest ← rebuild_sections sections
      ok (rebuilt ∷ rest)

    unfoldable pub rebuild_context_input : ContextManifest → Result Error (List RebuiltSection)
    unfolding rebuild_sections
    rebuild_context_input manifest =
        rebuild_sections (sort_by (λ a b. leb a.priority b.priority) manifest.sections)
