-- ===== src/Prelude/Map.antt =====
-- JavaScript's `Map` with text keys. Its iteration order is the order of first insertion: `set`
-- on a present key writes in place, on an absent one it appends.
use mathlib.Core.Path.{◌≡◌, refl, ap, ◌∙◌}
use mathlib.Core.Logic.{◌≢◌, inl, inr}
use mathlib.Core.Option.{Option, none, some}
use mathlib.Core.List.{List, [], ◌∷◌}
use Prim.Native.String.{String}
use native.Mathlib.Omega.{arith}
use text.Mathlib.Text.{◌==◌ as str_eq}
use text.Mathlib.TextEquality.{eq_iff}
use text.Mathlib.TextPositions.{eq_refl}
use bee_agent.Prelude.Tests.{if◌then◌else◌, Bool-cases}
use bee_agent.Prelude.Lists.{Member}

abbrev pub Map {ℓ} : Type ℓ → Type ℓ
Map V = List (String × V)

module _ {ℓ} {V : Type ℓ} where
  unfoldable pub get : String → Map V → Option V
  get k [] = none
  get k ((j, v) ∷ m) = if str_eq j k then some v else get k m

  unfoldable pub set : String → V → Map V → Map V
  set k v [] = (k, v) ∷ []
  set k v ((j, w) ∷ m) = if str_eq j k then (j, v) ∷ m else (j, w) ∷ set k v m

  -- Every entry whose key is `k` goes; a `Map` has one at most.
  unfoldable pub delete : String → Map V → Map V
  delete k [] = []
  delete k ((j, w) ∷ m) = let rest = delete k m in if str_eq j k then rest else (j, w) ∷ rest

  abbrev pub values : Map V → List V
  values [] = []
  values ((j, v) ∷ m) = v ∷ values m

  abbrev pub keys : Map V → List String
  keys [] = []
  keys ((j, v) ∷ m) = j ∷ keys m

  pub get-set :
      (k j : String) (v : V) (m : Map V)
      → get j (set k v m) ≡ (if str_eq k j then some v else get j m)
  unfolding get set
  get-set k j v [] = refl
  get-set k j v ((i, w) ∷ m) = ground (arith, eq_iff k j, eq_iff i k, eq_iff i j, get-set k j v m)

  pub get-delete :
      (k j : String) (m : Map V) → get j (delete k m) ≡ (if str_eq k j then none else get j m)
  unfolding get delete
  get-delete k j [] = ground arith
  get-delete k j ((i, w) ∷ m) = ground (arith, eq_iff k j, eq_iff i k, eq_iff i j, get-delete k j m)

  pub get-set_self : (k : String) (v : V) (m : Map V) → get k (set k v m) ≡ some v
  get-set_self k v m = ground (arith, get-set k k v m, eq_iff k k)

  pub get-set_ne : (k j : String) (v : V) (m : Map V) → k ≢ j → get j (set k v m) ≡ get j m
  get-set_ne k j v m h = ground (arith, get-set k j v m, eq_iff k j)

  -- Each key has one entry.
  abbrev pub Distinct : Map V → Type ℓ
  Distinct [] = Unit
  Distinct ((k, v) ∷ m) = (get k m ≡ none) × Distinct m

  pub set-Distinct : (k : String) (v : V) (m : Map V) → Distinct m → Distinct (set k v m)
  unfolding get set
  set-Distinct k v [] d = (refl, tt)
  set-Distinct k v ((j, w) ∷ m) (fresh, d) = elim (Bool-cases (str_eq j k)) [
    | inl e ↦ rw e (fresh, d)
    | inr e ↦ rw e (get-set k j v m ∙ ground (arith, eq_iff k j, eq_iff j k), set-Distinct k v m d)
  ]

module _ {V : Type 0} where
  -- A value of the map is found under some key.
  pub get_of_Member :
      (m : Map V) (v : V) → Distinct m → Member v (values m) → (k : String) × (get k m ≡ some v)
  unfolding get
  get_of_Member [] v d h = absurd h
  get_of_Member ((j, w) ∷ m) v d (inl e) = (j, rw (eq_refl j, e))
  get_of_Member ((j, w) ∷ m) v (fresh, d) (inr h) =
      let (k, found) = get_of_Member m v d h in
      (
        k,
        elim (Bool-cases (str_eq j k)) [
          | inl e ↦ absurd (cc (found, fresh, ap (λ i. get i m) ((eq_iff j k).0 e)))
          | inr e ↦ rw e found
        ],
      )

  pub Member-of_get : (m : Map V) (k : String) (v : V) → get k m ≡ some v → Member v (values m)
  unfolding get
  Member-of_get [] k v h = cc
  Member-of_get ((j, w) ∷ m) k v h = elim (Bool-cases (str_eq j k)) [
    | inl e ↦ let h' : some w ≡ some v = rw e at h in inl (cc)
    | inr e ↦ inr (Member-of_get m k v (rw e at h))
  ]
