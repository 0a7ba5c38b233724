-- ===== src/Context/Allocation.antt =====
-- What the allocation keeps, omits and spends.
use mathlib.Core.List.{append-nil, append_assoc, Perm, perm_middle}
use mathlib.Core.List.Perm
use bee_agent.Prelude.{
  ℕ, ◌+◌, ◌≤◌, ◌<◌, ◌≡◌, refl, ap, ◌∙◌, ◌⊎◌, inl, inr, Bool, true, false, ◌||◌, if◌then◌else◌, List,
  [], ◌∷◌, ◌++◌, arith, leb, Member, All-Member, All-of_Member, Bool-cases,
}
use bee_agent.Prelude.Sort.{sort_by, IsSorted, sort-IsSorted, Member-sort, sort-Perm}
use bee_agent.Prelude.Units.{units}
use bee_agent.Context.Budget.{
  PromptSection, ContextOmission, ContextAllocation, is_protected, tokens, total_of, allocate_loop,
  by_priority, allocate_context_budget,
}

-- The tokens of the sections that are not protected.
abbrev pub unprotected_tokens : List PromptSection → ℕ
unprotected_tokens [] = 0
unprotected_tokens (section ∷ sections) =
    (if is_protected section then 0 else tokens section) + unprotected_tokens sections

-- What is told of the sections that are left out.
abbrev pub omissions_of : List PromptSection → List ContextOmission
omissions_of [] = []
omissions_of (p ∷ ps) =
    record { source_id = p.id; reason = units "budget-exceeded" } ∷ omissions_of ps

-- What a list of sections came to: those included, in its order, and the others, with a bound on
-- what the unprotected ones spend.
record Spent (budget : ℕ) (sections included : List PromptSection) (omitted : List ContextOmission)
    (used used' : ℕ) : Type 0 where
  counted : used' ≡ used + total_of included
  left : List PromptSection
  told : omitted ≡ omissions_of left
  split : Perm (included ++ left) sections
  tight :
      (p : PromptSection) → Member p left → (is_protected p ≡ false) × (budget < used' + tokens p)
  kept : (p : PromptSection) → Member p sections → is_protected p ≡ true → Member p included
  from : (p : PromptSection) → Member p included → Member p sections
  bounded : (unprotected_tokens included ≡ 0) ⊎ (used + unprotected_tokens included ≤ budget)
  order : (f : PromptSection → PromptSection → Bool) → IsSorted f sections → IsSorted f included

-- The loop adds to what it has.
record Ran (budget : ℕ) (sections included : List PromptSection) (omissions : List ContextOmission)
    (used : ℕ) : Type 0 where
  chosen : List PromptSection
  left_out : List ContextOmission
  used' : ℕ
  result :
      allocate_loop budget sections included omissions used
      ≡ (included ++ chosen, omissions ++ left_out, used')
  spent : Spent budget sections chosen left_out used used'

include_step :
    (budget : ℕ) (p : PromptSection) (ps chosen : List PromptSection)
    (left_out : List ContextOmission) (used used' : ℕ)
    → (is_protected p || leb (used + tokens p) budget) ≡ true
    → Spent budget ps chosen left_out (used + tokens p) used'
    → Spent budget (p ∷ ps) (p ∷ chosen) left_out used used'
unfolding total_of
include_step budget p ps chosen left_out used used' e v = record {
  counted = v.counted ∙ omega arith;
  left = v.left;
  told = v.told;
  split = Perm.cons p v.split;
  tight = v.tight;
  kept = λ q m h. elim m [ inl same ↦ inl same | inr m' ↦ inr (v.kept q m' h) ];
  from = λ q m. elim m [ inl same ↦ inl same | inr m' ↦ inr (v.from q m') ];
  bounded = elim (Bool-cases (is_protected p)) [
    | inl shielded ↦ elim v.bounded [
      | inl none ↦ inl (rw shielded (omega (arith, none)))
      | inr fits ↦ inr (rw shielded (omega (arith, fits)))
    ]
    | inr free ↦ elim v.bounded [
      | inl none ↦ inr (rw free (ground (arith, none, free)))
      | inr fits ↦ inr (rw free (omega (arith, fits)))
    ]
  ];
  order =
      λ f h. (All-of_Member _ chosen (λ q m. All-Member _ ps q h.0 (v.from q m)), v.order f h.1);
}

omitted_over :
    (budget : ℕ) (p : PromptSection) (used used' spent : ℕ)
    → (is_protected p || leb (used + tokens p) budget) ≡ false
    → used' ≡ used + spent
    → budget < used' + tokens p
omitted_over budget p used used' spent e counted = ground (arith, e, counted)

omit_step :
    (budget : ℕ) (p : PromptSection) (ps chosen : List PromptSection)
    (left_out : List ContextOmission) (used used' : ℕ)
    → (is_protected p || leb (used + tokens p) budget) ≡ false
    → Spent budget ps chosen left_out used used'
    → Spent budget
        (p ∷ ps)
        chosen
        (record { source_id = p.id; reason = units "budget-exceeded" } ∷ left_out)
        used
        used'
omit_step budget p ps chosen left_out used used' e v = record {
  counted = v.counted;
  left = p ∷ v.left;
  told = ap (λ rest. record { source_id = p.id; reason = units "budget-exceeded" } ∷ rest) v.told;
  split = Perm.trans (perm_middle chosen v.left) (Perm.cons p v.split);
  tight = λ q m. elim m [
    | inl same ↦ rw same (ground (arith, e), omitted_over budget p used used' _ e v.counted)
    | inr m' ↦ v.tight q m'
  ];
  kept = λ q m h. elim m [
    | inl same ↦ absurd (ground (arith, e, ap is_protected same, h))
    | inr m' ↦ v.kept q m' h
  ];
  from = λ q m. inr (v.from q m);
  bounded = v.bounded;
  order = λ f h. v.order f h.1;
}

allocate_loop-Ran :
    (budget : ℕ) (ps included : List PromptSection) (omissions : List ContextOmission) (used : ℕ)
    → Ran budget ps included omissions used
unfolding allocate_loop total_of
allocate_loop-Ran budget [] included omissions used = record {
  chosen = [];
  left_out = [];
  used' = used;
  result = rw (append-nil included, append-nil omissions);
  spent = record {
    counted = omega arith;
    left = [];
    told = refl;
    split = Perm.refl [];
    tight = λ q m. absurd m;
    kept = λ q m h. absurd m;
    from = λ q m. absurd m;
    bounded = inl refl;
    order = λ f h. tt;
  };
}
allocate_loop-Ran budget (p ∷ ps) included omissions used =
    let o : ContextOmission = record { source_id = p.id; reason = units "budget-exceeded" } in
    elim (Bool-cases (is_protected p || leb (used + tokens p) budget)) [
      | inl e ↦
          let r = allocate_loop-Ran budget ps (included ++ p ∷ []) omissions (used + tokens p) in
          record {
            chosen = p ∷ r.chosen;
            left_out = r.left_out;
            used' = r.used';
            result = rw (allocate_loop, e, r.result, append_assoc included (p ∷ []) r.chosen);
            spent = include_step budget p ps r.chosen r.left_out used r.used' e r.spent;
          }
      | inr e ↦
          let r = allocate_loop-Ran budget ps included (omissions ++ o ∷ []) used in
          record {
            chosen = r.chosen;
            left_out = o ∷ r.left_out;
            used' = r.used';
            result = rw (allocate_loop, e, r.result, append_assoc omissions (o ∷ []) r.left_out);
            spent = omit_step budget p ps r.chosen r.left_out used r.used' e r.spent;
          }
    ]

-- An allocation: the included sections are in order of priority and stem from the input, every
-- protected one is among them; the included ones and those that are left out are the input, each as
-- often; those left out are told by their ids, are not protected, and would not fit beside the
-- included ones; the tokens in use are those of the included ones, and the unprotected ones among
-- them fit in the budget.
pub record Allocated (budget : ℕ) (sections : List PromptSection) (a : ContextAllocation)
    : Type 0 where
  pub sorted : IsSorted by_priority a.sections
  pub from : (p : PromptSection) → Member p a.sections → Member p sections
  pub kept : (p : PromptSection) → Member p sections → is_protected p ≡ true → Member p a.sections
  pub left : List PromptSection
  pub told : a.omissions ≡ omissions_of left
  pub split : Perm (a.sections ++ left) sections
  pub tight :
      (p : PromptSection)
      → Member p left
      → (is_protected p ≡ false) × (budget < a.used_tokens + tokens p)
  pub used : a.used_tokens ≡ total_of a.sections
  pub total : a.total_tokens ≡ total_of sections
  pub bounded : unprotected_tokens a.sections ≤ budget

priority_total : (a b : PromptSection) → by_priority a b ≡ false → by_priority b a ≡ true
priority_total a b h = ground arith

priority_trans :
    (a b c : PromptSection)
    → by_priority a b ≡ true
    → by_priority b c ≡ true
    → by_priority a c ≡ true
priority_trans a b c h h' = ground arith

-- For every budget, an allocation includes the sections in order of priority and every protected
-- one. The included sections and those that are left out are the input, each as often; of those left
-- out each is told with its id and the reason, is not protected, and would not fit into the budget
-- beside the included ones. The allocation counts the tokens of the included ones, and spends no
-- more than the budget on those that are not protected.
pub allocate_context_budget-Allocated :
    (sections : List PromptSection) (budget : ℕ)
    → Allocated budget sections (allocate_context_budget sections budget)
unfolding allocate_context_budget
allocate_context_budget-Allocated sections budget =
    let sorted = sort_by by_priority sections in
    let r = allocate_loop-Ran budget sorted [] [] 0 in
    rw r.result (record {
      sorted =
          r.spent.order by_priority
            (sort-IsSorted by_priority priority_total priority_trans sections);
      from = λ p m. (Member-sort by_priority sections p).0 (r.spent.from p m);
      kept = λ p m h. r.spent.kept p ((Member-sort by_priority sections p).1 m) h;
      left = r.spent.left;
      told = r.spent.told;
      split = Perm.trans r.spent.split (sort-Perm by_priority sections);
      tight = r.spent.tight;
      used = r.spent.counted ∙ omega arith;
      total = refl;
      bounded = elim r.spent.bounded [
        | inl none ↦ omega (arith, none)
        | inr fits ↦ omega (arith, fits)
      ];
    })
