-- ===== src/Scheduler/Tidy.antt =====
-- Triggers in memory stand under their ids, each once.
use bee_agent.Prelude.{
  ℕ, String, ◌≡◌, ◌≢◌, refl, sym, ap, ◌∙◌, inl, inr, Bool, Option, none, some, List, [], ◌∷◌, All,
  Member, All-Member, All-of_Member, Member-filter, filter, Bool-cases, str_eq, str_eq_iff,
  if◌then◌else◌,
}
use bee_agent.Prelude.Map
use bee_agent.Prelude.Map.{Map, get-set, get-set_ne, get-delete}
use bee_agent.Prelude.Sort.{sort_by, insert_sorted, Member-sort, Member-insert}
use bee_agent.Scheduler.Protocol.{SchedulerTrigger, SchedulerWhen}
use bee_agent.Scheduler.Fire.{following, rescheduled}

abbrev pub Tidy : Map SchedulerTrigger → Type 0
Tidy [] = Unit
Tidy ((k, t) ∷ m) = (t.id ≡ k) × (Map.get k m ≡ none) × Tidy m

-- A list of triggers with different ids.
abbrev pub Apart : List SchedulerTrigger → Type 0
Apart [] = Unit
Apart (t ∷ ts) = All (λ u. t.id ≢ u.id) ts × Apart ts

-- Each is the trigger in memory under its id.
abbrev pub Kept : Map SchedulerTrigger → List SchedulerTrigger → Type 0
Kept m ts = All (λ t. Map.get t.id m ≡ some t) ts

pub Tidy-set :
    (k : String) (t : SchedulerTrigger) (m : Map SchedulerTrigger)
    → t.id ≡ k
    → Tidy m
    → Tidy (Map.set k t m)
unfolding Map.set Map.get
Tidy-set k t [] e v = (e, refl, tt)
Tidy-set k t ((j, u) ∷ m) e v = elim (Bool-cases (str_eq j k)) [
  | inl same ↦ rw same (e ∙ sym ((str_eq_iff j k).0 same), v.1, v.2)
  | inr other ↦ rw other (
    v.0,
    get-set_ne k j t m (λ q. cc (other, (str_eq_iff j k).1 (sym q))) ∙ v.1,
    Tidy-set k t m e v.2,
  )
]

pub Tidy-delete : (k : String) (m : Map SchedulerTrigger) → Tidy m → Tidy (Map.delete k m)
unfolding Map.delete Map.get
Tidy-delete k [] v = tt
Tidy-delete k ((j, u) ∷ m) v = elim (Bool-cases (str_eq j k)) [
  | inl same ↦ rw same (Tidy-delete k m v.2)
  | inr other ↦ rw other (v.0, get-delete k j m ∙ gone k j m v.1, Tidy-delete k m v.2)
]
  where
    gone :
        (k j : String) (m : Map SchedulerTrigger)
        → Map.get j m ≡ none
        → (if str_eq k j then none else Map.get j m) ≡ none
    gone k j m h = elim (Bool-cases (str_eq k j)) [ inl e ↦ rw e | inr e ↦ rw e h ]

pub Tidy-rescheduled :
    (now : ℕ) (t : SchedulerTrigger) (m : Map SchedulerTrigger)
    → Tidy m
    → Tidy (rescheduled now t m)
Tidy-rescheduled now t m v = by_when t.when
  where
    by_when :
        (w : Option SchedulerWhen)
        → Tidy (elim w [
          | some _ ↦ Map.delete t.id m
          | none ↦ Map.set t.id (record t { next_run_at = following now t }) m
        ])
    by_when (some w) = Tidy-delete t.id m v
    by_when none = Tidy-set t.id (record t { next_run_at = following now t }) m refl v

-- Every value is the one under its id.
pub Tidy-get :
    (m : Map SchedulerTrigger) (t : SchedulerTrigger)
    → Tidy m
    → Member t (Map.values m)
    → Map.get t.id m ≡ some t
unfolding Map.get
Tidy-get [] t v h = absurd h
Tidy-get ((k, u) ∷ m) t v (inl e) =
    let q : k ≡ t.id = sym v.0 ∙ ap (λ (w : SchedulerTrigger). w.id) (sym e) in
    rw ((str_eq_iff k t.id).1 q) (ap some (sym e))
Tidy-get ((k, u) ∷ m) t v (inr h) = elim (Bool-cases (str_eq k t.id)) [
  | inl e ↦ absurd (cc (Tidy-get m t v.2 h, v.1, ap (λ i. Map.get i m) ((str_eq_iff k t.id).0 e)))
  | inr e ↦ rw e (Tidy-get m t v.2 h)
]

pub Apart-values : (m : Map SchedulerTrigger) → Tidy m → Apart (Map.values m)
Apart-values [] v = tt
Apart-values ((k, t) ∷ m) v = (
  All-of_Member _ (Map.values m)
      (λ u h e. cc (Tidy-get m u v.2 h, v.1, ap (λ i. Map.get i m) (sym v.0 ∙ e))),
  Apart-values m v.2,
)

pub Apart-filter :
    (p : SchedulerTrigger → Bool) (ts : List SchedulerTrigger) → Apart ts → Apart (filter p ts)
Apart-filter p [] h = tt
Apart-filter p (t ∷ ts) h = elim (Bool-cases (p t)) [
  | inl e ↦ rw e (
    All-of_Member _ (filter p ts) (λ u m. All-Member _ ts u h.0 ((Member-filter p ts u).0 m).0),
    Apart-filter p ts h.1,
  )
  | inr e ↦ rw e (Apart-filter p ts h.1)
]

module _ (before : SchedulerTrigger → SchedulerTrigger → Bool) where
  Apart-insert :
      (t : SchedulerTrigger) (ts : List SchedulerTrigger)
      → All (λ u. t.id ≢ u.id) ts
      → Apart ts
      → Apart (insert_sorted before t ts)
  unfolding insert_sorted
  Apart-insert t [] a h = (tt, tt)
  Apart-insert t (u ∷ ts) a h = elim (Bool-cases (before t u)) [
    | inl e ↦ rw e (a, h)
    | inr e ↦ rw e (
      All-of_Member _ (insert_sorted before t ts) (λ w m. elim ((Member-insert before t ts w).0 m) [
        | inl q ↦ λ same. a.0 (sym (ap (λ (x : SchedulerTrigger). x.id) q) ∙ sym same)
        | inr m' ↦ All-Member _ ts w h.0 m'
      ]),
      Apart-insert t ts a.1 h.1,
    )
  ]

  pub Apart-sort : (ts : List SchedulerTrigger) → Apart ts → Apart (sort_by before ts)
  unfolding sort_by
  Apart-sort [] h = tt
  Apart-sort (t ∷ ts) h =
      Apart-insert t (sort_by before ts)
        (All-of_Member _ (sort_by before ts)
          (λ u m. All-Member _ ts u h.0 ((Member-sort before ts u).0 m)))
        (Apart-sort ts h.1)
