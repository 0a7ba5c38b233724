-- ===== src/Prelude/Comparing.antt =====
-- Comparators: the sign of the number that a comparator of `Array.prototype.sort` returns.
use Prim.Native.Nat.{ℕ, compare, Ordering}
use mathlib.Core.Path.{◌≡◌, refl, sym}
use mathlib.Core.Bool.{Bool, true, false}
use native.Mathlib.Omega.{arith}

-- `if (first !== 0) return first`, then the next one.
abbrev pub and_then : Ordering → Ordering → Ordering
and_then Ordering.eq o = o
and_then Ordering.lt _ = Ordering.lt
and_then Ordering.gt _ = Ordering.gt

abbrev pub reverse : Ordering → Ordering
reverse Ordering.lt = Ordering.gt
reverse Ordering.eq = Ordering.eq
reverse Ordering.gt = Ordering.lt

-- The comparator does not put the first after the second.
abbrev pub at_most : Ordering → Bool
at_most Ordering.gt = false
at_most _ = true

-- A comparator that orders: swapped arguments reverse it, and it chains.
pub record IsComparator {A : Type 0} (c : A → A → Ordering) : Type 0 where
  pub swaps : (x y : A) → c y x ≡ reverse (c x y)
  pub chains :
      (x y z : A)
      → at_most (c x y) ≡ true
      → at_most (c y z) ≡ true
      → c x z ≡ and_then (c x y) (c y z)

pub compare-IsComparator :
    {A : Type 0} (key : A → ℕ) → IsComparator (λ x y. compare (key x) (key y))
compare-IsComparator key = record {
  swaps = λ x y. ground arith;
  chains = λ x y z h h'. ground arith;
}

reverse-and_then : (a b : Ordering) → reverse (and_then a b) ≡ and_then (reverse a) (reverse b)
reverse-and_then Ordering.lt b = refl
reverse-and_then Ordering.eq b = refl
reverse-and_then Ordering.gt b = refl

at_most-and_then : (a b : Ordering) → at_most (and_then a b) ≡ true → at_most a ≡ true
at_most-and_then Ordering.lt b h = refl
at_most-and_then Ordering.eq b h = refl
at_most-and_then Ordering.gt b h = h

-- The step of `chains` for two comparators in a row, on their values.
chain :
    (a b d e f : Ordering)
    → at_most (and_then a d) ≡ true
    → at_most (and_then b e) ≡ true
    → (at_most d ≡ true → at_most e ≡ true → f ≡ and_then d e)
    → and_then (and_then a b) f ≡ and_then (and_then a d) (and_then b e)
chain Ordering.lt b d e f h h' k = refl
chain Ordering.gt b d e f h h' k = refl
chain Ordering.eq Ordering.lt Ordering.lt e f h h' k = refl
chain Ordering.eq Ordering.lt Ordering.eq e f h h' k = refl
chain Ordering.eq Ordering.lt Ordering.gt e f h h' k = cc
chain Ordering.eq Ordering.gt d e f h h' k = cc
chain Ordering.eq Ordering.eq d e f h h' k = k h h'

pub and_then-IsComparator :
    {A : Type 0} {c d : A → A → Ordering}
    → IsComparator c
    → IsComparator d
    → IsComparator (λ x y. and_then (c x y) (d x y))
and_then-IsComparator {c = c} {d} v w = record {
  swaps = λ x y. rw (v.swaps x y, w.swaps x y) (sym (reverse-and_then (c x y) (d x y)));
  chains = λ x y z h h'.
      rw (v.chains x y z (at_most-and_then (c x y) (d x y) h) (at_most-and_then (c y z) (d y z) h'))
        (chain (c x y) (c y z) (d x y) (d y z) (d x z) h h' (w.chains x y z));
}

module _ {A : Type 0} {c : A → A → Ordering} (v : IsComparator c) where
  total_step : (o : Ordering) → at_most o ≡ false → at_most (reverse o) ≡ true
  total_step Ordering.lt h = cc
  total_step Ordering.eq h = refl
  total_step Ordering.gt h = refl

  pub at_most_total : (x y : A) → at_most (c x y) ≡ false → at_most (c y x) ≡ true
  at_most_total x y h = rw (v.swaps x y) (total_step (c x y) h)

  trans_step :
      (a b : Ordering) → at_most a ≡ true → at_most b ≡ true → at_most (and_then a b) ≡ true
  trans_step Ordering.lt b h h' = refl
  trans_step Ordering.eq b h h' = h'
  trans_step Ordering.gt b h h' = h

  pub at_most_trans :
      (x y z : A) → at_most (c x y) ≡ true → at_most (c y z) ≡ true → at_most (c x z) ≡ true
  at_most_trans x y z h h' = rw (v.chains x y z h h') (trans_step (c x y) (c y z) h h')
