-- ===== src/Context/Rebuilding.antt =====
-- A context manifest rebuilt from its sources: what comes back, and what it vouches for.
use bee_agent.Prelude.{
  String, ◌≡◌, refl, sym, ap, subst, ◌∙◌, Bool, List, [], ◌∷◌, Option, some, ok, map, leb, All,
  All-Member, All-of_Member, >>=-eq-ok, require-eq-ok, guard-eq-ok, ok-injective,
}
use bee_agent.Prelude.Units.{Text, same_text_refl, same_text-eq}
use bee_agent.Prelude.Sort.{sort_by, sort-map, Member-sort}
use bee_agent.Context.Manifest.{
  BuildContextManifestInput, ContextManifest, ContextRenderer, ContextSection, ContextSectionDraft,
  RebuiltSection, build_context_manifest, compute_section_digest, rebuild_context_input,
  rebuild_section, rebuild_sections, section_of,
}

module _ (sha256 : Text → Text) (sources : Text → Option Text)
    (renderers : Text → Option ContextRenderer) where
  -- The renderer of the draft gives its content back.
  abbrev pub Renders : ContextSectionDraft → Type 0
  Renders draft =
      (renderer : ContextRenderer) × (renderers draft.renderer_version ≡ some renderer)
      × (renderer.render draft.source_ids sources ≡ draft.content)

  abbrev pub rebuilt_of : ContextSectionDraft → RebuiltSection
  rebuilt_of draft = record { section = section_of sha256 draft; text = draft.content }

  rebuild_section-section_of :
      (draft : ContextSectionDraft)
      → Renders draft
      → rebuild_section sha256 sources renderers (section_of sha256 draft) ≡ ok (rebuilt_of draft)
  unfolding rebuild_section section_of
  rebuild_section-section_of draft (renderer, found, rendered) =
      rw
        (
          found,
          rendered,
          same_text_refl (
              compute_section_digest sha256 draft.kind draft.source_ids draft.renderer_version
                draft.content),
        )
        refl

  rebuild_sections-map :
      (drafts : List ContextSectionDraft)
      → All Renders drafts
      → rebuild_sections sha256 sources renderers (map (section_of sha256) drafts)
        ≡ ok (map rebuilt_of drafts)
  unfolding rebuild_sections
  rebuild_sections-map [] h = refl
  rebuild_sections-map (draft ∷ drafts) h =
      rw (rebuild_section-section_of draft h.0, rebuild_sections-map drafts h.1) refl

  -- The text of a section that was rebuilt: its renderer gave it, and it has the digest.
  pub record Vouched (r : RebuiltSection) : Type 0 where
    pub renderer : ContextRenderer
    pub found : renderers r.section.renderer_version ≡ some renderer
    pub rendered : r.text ≡ renderer.render r.section.source_ids sources
    pub digest :
        compute_section_digest sha256 r.section.kind r.section.source_ids r.section.renderer_version
          r.text
        ≡ r.section.digest

  rebuild_section-Vouched :
      (section : ContextSection) (r : RebuiltSection)
      → rebuild_section sha256 sources renderers section ≡ ok r
      → (r.section ≡ section) × Vouched r
  unfolding rebuild_section
  rebuild_section-Vouched section r h =
      let (renderer, found, rest) = require-eq-ok (renderers section.renderer_version) _ _ h in
      let text = renderer.render section.source_ids sources in
      let (same, last) = guard-eq-ok _ _ _ rest in
      let e : ◌≡◌ {A = RebuiltSection} (record { section = section; text = text }) r =
        ok-injective last in
      subst (λ (x : RebuiltSection). (x.section ≡ section) × Vouched x) e
        (
          refl,
          record {
            renderer = renderer;
            found = found;
            rendered = refl;
            digest = same_text-eq _ _ same;
          },
        )

  rebuild_sections-Vouched :
      (sections : List ContextSection) (rs : List RebuiltSection)
      → rebuild_sections sha256 sources renderers sections ≡ ok rs
      → (map (λ (r : RebuiltSection). r.section) rs ≡ sections) × All Vouched rs
  unfolding rebuild_sections
  rebuild_sections-Vouched [] rs h =
      subst (λ xs. (map (λ (r : RebuiltSection). r.section) xs ≡ []) × All Vouched xs)
        (ok-injective h) (refl, tt)
  rebuild_sections-Vouched (section ∷ sections) rs h =
      let (r, first, rest) = >>=-eq-ok (rebuild_section sha256 sources renderers section) _ h in
      let (others, second, last) =
        >>=-eq-ok (rebuild_sections sha256 sources renderers sections) _ rest in
      let (e, vouched) = rebuild_section-Vouched section r first in
      let (es, all) = rebuild_sections-Vouched sections others second in
      subst
        (λ xs. (map (λ (x : RebuiltSection). x.section) xs ≡ section ∷ sections) × All Vouched xs)
        (ok-injective last)
        (
          ap (λ x. x ∷ map (λ (y : RebuiltSection). y.section) others) e
              ∙ ap (λ xs. section ∷ xs) es,
          (vouched, all),
        )

  -- The drafts in the order of their priorities.
  abbrev pub in_order : List ContextSectionDraft → List ContextSectionDraft
  in_order drafts = sort_by (λ a b. leb a.priority b.priority) drafts

  in_order-Renders :
      (drafts : List ContextSectionDraft) → All Renders drafts → All Renders (in_order drafts)
  in_order-Renders drafts h =
      All-of_Member _ (in_order drafts)
        (λ d m. All-Member _ drafts d h ((Member-sort _ drafts d).0 m))

  sort_sections :
      (drafts : List ContextSectionDraft)
      → sort_by
          (λ (a b : ContextSection). leb a.priority b.priority)
          (map (section_of sha256) drafts)
        ≡ map (section_of sha256) (in_order drafts)
  unfolding section_of
  sort_sections drafts =
      sort-map (λ (a b : ContextSection). leb a.priority b.priority) (section_of sha256) drafts

  -- Round trip: a manifest that was built from drafts is rebuilt, in the order of the priorities,
  -- to the sections with the contents of the drafts, if the renderers give these contents for the
  -- drafts' sources; and whenever it is rebuilt, each of its sections comes back in that order
  -- with the text that its renderer gives, which has the digest of the section.
  pub build_context_manifest-rebuild_context_input :
      (is_uuid : String → Bool) (input : BuildContextManifestInput) (manifest : ContextManifest)
      → build_context_manifest sha256 is_uuid input ≡ ok manifest
      → (All Renders input.sections
          → rebuild_context_input sha256 sources renderers manifest
            ≡ ok (map rebuilt_of (in_order input.sections)))
        × ((rs : List RebuiltSection)
            → rebuild_context_input sha256 sources renderers manifest ≡ ok rs
            → (map (λ (r : RebuiltSection). r.section) rs
                ≡ map (section_of sha256) (in_order input.sections))
              × All Vouched rs)
  unfolding build_context_manifest rebuild_context_input
  build_context_manifest-rebuild_context_input is_uuid input manifest h =
      let (_, built) = guard-eq-ok _ _ _ h in
      let e : map (section_of sha256) input.sections ≡ manifest.sections =
        ap (λ (m : ContextManifest). m.sections) (ok-injective built) in
      let ordered =
        ap (sort_by (λ (a b : ContextSection). leb a.priority b.priority)) (sym e)
        ∙ sort_sections input.sections in
      (
        λ renders. rw ordered (
            rebuild_sections-map (in_order input.sections)
              (in_order-Renders input.sections renders)),
        λ rs rebuilt.
            rebuild_sections-Vouched (map (section_of sha256) (in_order input.sections)) rs
              (rw ordered at rebuilt),
      )
