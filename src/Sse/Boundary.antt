-- ===== src/Sse/Boundary.antt =====
-- The boundary of a frame stays where it is when more text arrives.
use bee_agent.Prelude.{
  ℕ, suc, ◌+◌, ◌≤◌, ◌<◌, ◌≡◌, ◌≢◌, refl, ap, ◌∙◌, true, false, none, some, [], ◌∷◌, ◌++◌, arith,
  length, Bool-cases, Option-cases, ◌⊎◌, inl, inr,
}
use bee_agent.Prelude.Units.{Text}
use bee_agent.Sse.{
  FrameBoundary, find_frame_boundary, index_of, starts_with, unix_break, windows_break,
}

starts_with-append : (p s t : Text) → starts_with p s ≡ true → starts_with p (s ++ t) ≡ true
starts_with-append [] s t h = refl
starts_with-append (c ∷ p) [] t h = cc
starts_with-append (c ∷ p) (d ∷ s) t h = ground (arith, starts_with-append p s t)

starts_with_late :
    (p s t : Text) → starts_with p s ≡ false → starts_with p (s ++ t) ≡ true → length s < length p
starts_with_late [] s t h g = cc
starts_with_late (c ∷ p) [] t h g = omega arith
starts_with_late (c ∷ p) (d ∷ s) t h g = ground (arith, starts_with_late p s t)

starts_with-length : (p s : Text) → starts_with p s ≡ true → length p ≤ length s
starts_with-length [] s h = omega arith
starts_with-length (c ∷ p) [] h = cc
starts_with-length (c ∷ p) (d ∷ s) h = ground (arith, starts_with-length p s)

-- An index is 0, or one more than the index in the rest.
found :
    (p : Text) (c : ℕ) (s : Text) (n : ℕ)
    → index_of p (c ∷ s) ≡ some n
    → ((starts_with p (c ∷ s) ≡ true) × (n ≡ 0))
      ⊎ ((m : ℕ) × (starts_with p (c ∷ s) ≡ false) × (index_of p s ≡ some m) × (n ≡ suc m))
unfolding index_of
found p c s n h = elim (Bool-cases (starts_with p (c ∷ s))) [
  | inl e ↦ inl (e, ground arith)
  | inr e ↦ elim (Option-cases (index_of p s)) [
    | inl o ↦ ground arith
    | inr (m, o) ↦ inr (m, e, o, ground arith)
  ]
]

absent :
    (p : Text) (c : ℕ) (s : Text)
    → index_of p (c ∷ s) ≡ none
    → (starts_with p (c ∷ s) ≡ false) × (index_of p s ≡ none)
unfolding index_of
absent p c s h = elim (Option-cases (index_of p s)) [
  | inl o ↦ ground arith
  | inr (m, o) ↦ ground arith
]

pub index_of-length : (p s : Text) (n : ℕ) → index_of p s ≡ some n → n + length p ≤ length s
unfolding index_of
index_of-length p [] n h = cc
index_of-length p (c ∷ s) n h = elim (found p c s n h) [
  | inl (e, z) ↦ let l = starts_with-length p (c ∷ s) e in omega (arith, l, z)
  | inr (m, e, o, z) ↦ let l = index_of-length p s m o in omega (arith, l, z)
]

pub index_of-append : (p s t : Text) (n : ℕ) → index_of p s ≡ some n → index_of p (s ++ t) ≡ some n
unfolding index_of
index_of-append p [] t n h = cc
index_of-append p (c ∷ s) t n h = elim (found p c s n h) [
  | inl (e, z) ↦ rw (starts_with-append p (c ∷ s) t e, z) refl
  | inr (m, e, o, z) ↦ elim (Bool-cases (starts_with p (c ∷ s ++ t))) [
    | inl e' ↦
        let late = starts_with_late p (c ∷ s) t e e' in
        let inside = index_of-length p s m o in ground arith
    | inr e' ↦ rw (e', index_of-append p s t m o, z) refl
  ]
]

pub index_of_late :
    (p s t : Text) (n : ℕ)
    → 0 < length p
    → index_of p s ≡ none
    → index_of p (s ++ t) ≡ some n
    → length s < n + length p
unfolding index_of
index_of_late p [] t n some_unit h g = omega arith
index_of_late p (c ∷ s) t n some_unit h g =
    let (apart_here, later) = absent p c s h in
    elim (found p c (s ++ t) n g) [
      | inl (e, z) ↦ let l = starts_with_late p (c ∷ s) t apart_here e in omega (arith, l, z)
      | inr (m, e, o, z) ↦ let l = index_of_late p s t m some_unit later o in omega (arith, l, z)
    ]

starts_apart : (s : Text) → starts_with windows_break s ≡ true → starts_with unix_break s ≡ false
starts_apart [] h = cc
starts_apart (c ∷ s) h = ground arith

-- After the first unit, `\n\r\n` is left of the break of Windows.
starts_apart_next :
    (c : ℕ) (s : Text) → starts_with windows_break (c ∷ s) ≡ true → starts_with unix_break s ≡ false
starts_apart_next c [] h = cc
starts_apart_next c (d ∷ []) h = ground arith
starts_apart_next c (d ∷ e ∷ s) h = ground arith

not_zero : (p s : Text) → starts_with p s ≡ false → index_of p s ≢ some 0
unfolding index_of
not_zero p [] h g = cc
not_zero p (c ∷ s) h g = elim (found p c s 0 g) [
  | inl (e, z) ↦ cc
  | inr (m, e, o, z) ↦ omega (arith, z)
]

apart :
    (s : Text) (i j : ℕ)
    → index_of unix_break s ≡ some i
    → index_of windows_break s ≡ some j
    → (i ≢ j) × (i ≢ suc j)
unfolding index_of
apart [] i j h g = cc
apart (c ∷ s) i j h g = elim (found unix_break c s i h) [
  | inl (e, z) ↦ elim (found windows_break c s j g) [
    | inl (e', z') ↦ let x = starts_apart (c ∷ s) e' in (λ q. cc, λ q. cc)
    | inr (m', e', o', z') ↦ (λ q. omega (arith, z, z', q), λ q. omega (arith, z, z', q))
  ]
  | inr (m, e, o, z) ↦ elim (found windows_break c s j g) [
    | inl (e', z') ↦ (
      λ q. omega (arith, z, z', q),
      λ q. not_zero unix_break s (starts_apart_next c s e') (o ∙ ap some (omega (arith, z, z', q))),
    )
    | inr (m', e', o', z') ↦
        let (f1, f2) = apart s m m' o o' in
        (λ q. f1 (omega (arith, z, z', q)), λ q. f2 (omega (arith, z, z', q)))
  ]
]

-- A boundary that is found in a text is found in every longer one.
pub find_frame_boundary-append :
    (s t : Text) (b : FrameBoundary)
    → find_frame_boundary s ≡ some b
    → find_frame_boundary (s ++ t) ≡ some b
unfolding find_frame_boundary
find_frame_boundary-append s t b h = elim (Option-cases (index_of unix_break s)) [
  | inl u ↦ elim (Option-cases (index_of windows_break s)) [
    | inl w ↦ ground arith
    | inr (j, w) ↦
        let w' = index_of-append windows_break s t j w in
        let inside = index_of-length windows_break s j w in
        elim (Option-cases (index_of unix_break (s ++ t))) [
          | inl u' ↦ ground arith
          | inr (i, u') ↦
              let late = index_of_late unix_break s t i (omega arith) u u' in ground arith
        ]
  ]
  | inr (i, u) ↦
      let u' = index_of-append unix_break s t i u in
      let inside = index_of-length unix_break s i u in
      elim (Option-cases (index_of windows_break s)) [
        | inl w ↦ elim (Option-cases (index_of windows_break (s ++ t))) [
          | inl w' ↦ ground arith
          | inr (j, w') ↦
              let late = index_of_late windows_break s t j (omega arith) w w' in
              let (f1, f2) = apart (s ++ t) i j u' w' in ground arith
        ]
        | inr (j, w) ↦ let w' = index_of-append windows_break s t j w in ground arith
      ]
]

-- And it ends within it, past its start.
pub find_frame_boundary-length :
    (s : Text) (b : FrameBoundary)
    → find_frame_boundary s ≡ some b
    → (b.index < b.end) × (b.end ≤ length s)
unfolding find_frame_boundary
find_frame_boundary-length s b h = elim (Option-cases (index_of unix_break s)) [
  | inl u ↦ elim (Option-cases (index_of windows_break s)) [
    | inl w ↦ ground arith
    | inr (j, w) ↦ let inside = index_of-length windows_break s j w in ground arith
  ]
  | inr (i, u) ↦
      let inside = index_of-length unix_break s i u in
      elim (Option-cases (index_of windows_break s)) [
        | inl w ↦ ground arith
        | inr (j, w) ↦ let inside' = index_of-length windows_break s j w in ground arith
      ]
]
