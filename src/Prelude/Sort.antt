-- ===== src/Prelude/Sort.antt =====
-- `Array.prototype.sort` with a comparator: a stable sort, here by insertion.
use Prim.Native.Nat.{ℕ, zero, suc}
use mathlib.Core.Path.{◌≡◌, refl, sym, ap, subst, ◌∙◌}
use mathlib.Core.Logic.{◌↔◌, ◌⊎◌, inl, inr}
use mathlib.Core.Bool.{Bool, true, false}
use mathlib.Core.List.{List, [], ◌∷◌, map, Perm}
use mathlib.Core.List.Perm
use bee_agent.Prelude.Tests.{if◌then◌else◌, Bool-cases}
use bee_agent.Prelude.Lists.{
  length, take, filter, Member-filter, All, Member, All-of_Member, All-Member,
}

module _ {A : Type 0} (before : A → A → Bool) where
  -- `before x y` says that the comparator does not put `x` after `y`.
  unfoldable pub insert_sorted : A → List A → List A
  insert_sorted x [] = x ∷ []
  insert_sorted x (y ∷ ys) = if before x y then x ∷ y ∷ ys else y ∷ insert_sorted x ys

  unfoldable pub sort_by : List A → List A
  unfolding insert_sorted
  sort_by [] = []
  sort_by (x ∷ xs) = insert_sorted x (sort_by xs)

  pub Member-insert :
      (x : A) (ys : List A) (z : A) → Member z (insert_sorted x ys) ↔ ((z ≡ x) ⊎ Member z ys)
  unfolding insert_sorted
  Member-insert x [] z = (λ m. m, λ m. m)
  Member-insert x (y ∷ ys) z =
      let (to, from) = Member-insert x ys z in
      elim (Bool-cases (before x y)) [
        | inl e ↦ rw e (λ m. m, λ m. m)
        | inr e ↦ rw e (
          λ m. elim m [
            | inl q ↦ inr (inl q)
            | inr m' ↦ elim (to m') [ inl q ↦ inl q | inr m'' ↦ inr (inr m'') ]
          ],
          λ m. elim m [
            | inl q ↦ inr (from (inl q))
            | inr m' ↦ elim m' [ inl q ↦ inl q | inr m'' ↦ inr (from (inr m'')) ]
          ],
        )
      ]

  -- A sort has the entries of the list.
  pub Member-sort : (xs : List A) (z : A) → Member z (sort_by xs) ↔ Member z xs
  unfolding sort_by
  Member-sort [] z = (λ m. m, λ m. m)
  Member-sort (x ∷ xs) z =
      let (to, from) = Member-sort xs z in
      let (to', from') = Member-insert x (sort_by xs) z in
      (
        λ m. elim (to' m) [ inl q ↦ inl q | inr m' ↦ inr (to m') ],
        λ m. from' (elim m [ inl q ↦ inl q | inr m' ↦ inr (from m') ]),
      )

  insert-Perm : (x : A) (ys : List A) → Perm (insert_sorted x ys) (x ∷ ys)
  unfolding insert_sorted
  insert-Perm x [] = Perm.refl (x ∷ [])
  insert-Perm x (y ∷ ys) = elim (Bool-cases (before x y)) [
    | inl e ↦ rw e (Perm.refl (x ∷ y ∷ ys))
    | inr e ↦ rw e (Perm.trans (Perm.cons y (insert-Perm x ys)) (Perm.swap x y ys))
  ]

  -- Each as often.
  pub sort-Perm : (xs : List A) → Perm (sort_by xs) xs
  unfolding sort_by
  sort-Perm [] = Perm.refl []
  sort-Perm (x ∷ xs) = Perm.trans (insert-Perm x (sort_by xs)) (Perm.cons x (sort-Perm xs))

  abbrev pub IsSorted : List A → Type 0
  IsSorted [] = Unit
  IsSorted (x ∷ xs) = All (λ y. before x y ≡ true) xs × IsSorted xs

  module _ (total : (x y : A) → before x y ≡ false → before y x ≡ true)
      (trans : (x y z : A) → before x y ≡ true → before y z ≡ true → before x z ≡ true) where
    insert-IsSorted : (x : A) (ys : List A) → IsSorted ys → IsSorted (insert_sorted x ys)
    unfolding insert_sorted
    insert-IsSorted x [] h = (tt, tt)
    insert-IsSorted x (y ∷ ys) h = elim (Bool-cases (before x y)) [
      | inl e ↦ rw e ((e, All-of_Member _ ys (λ z m. trans x y z e (All-Member _ ys z h.0 m))), h)
      | inr e ↦ rw e (
        All-of_Member _ (insert_sorted x ys) (λ z m. elim ((Member-insert x ys z).0 m) [
          | inl q ↦ rw q (total x y e)
          | inr m' ↦ All-Member _ ys z h.0 m'
        ]),
        insert-IsSorted x ys h.1,
      )
    ]

    pub sort-IsSorted : (xs : List A) → IsSorted (sort_by xs)
    unfolding sort_by
    sort-IsSorted [] = tt
    sort-IsSorted (x ∷ xs) = insert-IsSorted x (sort_by xs) (sort-IsSorted xs)

  -- The first `n` of a sorted list: every other entry comes after them, and they are `n`.
  pub take_first :
      (n : ℕ) (xs : List A) (z : A)
      → IsSorted xs
      → Member z xs
      → Member z (take n xs) ⊎ (All (λ y. before y z ≡ true) (take n xs) × (length (take n xs) ≡ n))
  take_first zero xs z h m = inr (tt, refl)
  take_first (suc n) [] z h m = absurd m
  take_first (suc n) (x ∷ xs) z h (inl e) = inl (inl e)
  take_first (suc n) (x ∷ xs) z h (inr m) = elim (take_first n xs z h.1 m) [
    | inl m' ↦ inl (inr m')
    | inr (a, l) ↦ inr ((All-Member _ xs z h.0 m, a), ap suc l)
  ]

  pub Member-take : (n : ℕ) (xs : List A) (z : A) → Member z (take n xs) → Member z xs
  Member-take zero xs z m = absurd m
  Member-take (suc n) [] z m = absurd m
  Member-take (suc n) (x ∷ xs) z (inl e) = inl e
  Member-take (suc n) (x ∷ xs) z (inr m) = inr (Member-take n xs z m)

  pub take-IsSorted : (n : ℕ) (xs : List A) → IsSorted xs → IsSorted (take n xs)
  take-IsSorted zero xs h = tt
  take-IsSorted (suc n) [] h = tt
  take-IsSorted (suc n) (x ∷ xs) h = (
    All-of_Member _ (take n xs) (λ z m. All-Member _ xs z h.0 (Member-take n xs z m)),
    take-IsSorted n xs h.1,
  )

  filter-IsSorted : (p : A → Bool) (xs : List A) → IsSorted xs → IsSorted (filter p xs)
  filter-IsSorted p [] h = tt
  filter-IsSorted p (x ∷ xs) h = elim (Bool-cases (p x)) [
    | inl e ↦ rw e (
      All-of_Member _ (filter p xs) (λ z m. All-Member _ xs z h.0 ((Member-filter p xs z).0 m).0),
      filter-IsSorted p xs h.1,
    )
    | inr e ↦ rw e (filter-IsSorted p xs h.1)
  ]

  -- The first entry of a sorted list that Passes a test comes before every other that Passes.
  pub filter_first :
      (total : (x y : A) → before x y ≡ false → before y x ≡ true) (p : A → Bool) (xs : List A)
      (y : A) (ys : List A)
      → IsSorted xs
      → filter p xs ≡ y ∷ ys
      → Member y xs × (p y ≡ true) × ((z : A) → Member z xs → p z ≡ true → before y z ≡ true)
  filter_first total p xs y ys h e =
      let (m, passed) = (Member-filter p xs y).0 (subst (Member y) (sym e) (inl refl)) in
      let sorted : IsSorted (y ∷ ys) = subst IsSorted e (filter-IsSorted p xs h) in
      let self : before y y ≡ true = elim (Bool-cases (before y y)) [
        | inl q ↦ q
        | inr q ↦ total y y q
      ] in
      (
        m,
        passed,
        λ z m' q. elim (subst (Member z) e ((Member-filter p xs z).1 (m', q))) [
          | inl same ↦ subst (λ u. before y u ≡ true) (sym same) self
          | inr later ↦ All-Member _ ys z sorted.0 later
        ],
      )

-- A sort of the images is the image of a sort.
module _ {A B : Type 0} (before : B → B → Bool) (f : A → B) where
  insert-map :
      (x : A) (ys : List A)
      → insert_sorted before (f x) (map f ys)
        ≡ map f (insert_sorted (λ a b. before (f a) (f b)) x ys)
  unfolding insert_sorted
  insert-map x [] = refl
  insert-map x (y ∷ ys) = elim (Bool-cases (before (f x) (f y))) [
    | inl e ↦ rw e refl
    | inr e ↦ rw e (ap (λ rest. f y ∷ rest) (insert-map x ys))
  ]

  pub sort-map :
      (xs : List A) → sort_by before (map f xs) ≡ map f (sort_by (λ a b. before (f a) (f b)) xs)
  unfolding sort_by
  sort-map [] = refl
  sort-map (x ∷ xs) =
      ap (insert_sorted before (f x)) (sort-map xs)
      ∙ insert-map x (sort_by (λ a b. before (f a) (f b)) xs)
