-- ===== src/Context/Compression.antt =====
-- What the truncating compression promises.
use Prim.Native.Nat.{◌*◌, ◌/◌}
use bee_agent.Prelude.{
  ◌++◌, leb, false, ℕ, ◌+◌, ◌-◌, ◌≤◌, ◌<◌, ◌≡◌, ◌≢◌, refl, inl, inr, [], ◌∷◌, arith, tests, length,
  length-append, length-take, leb, Bool-cases, take,
}
use bee_agent.Prelude.Units.{Text}
use bee_agent.Context.Budget.{estimate_tokens, ellipsis, slice_before, compress}

length_compressed :
    (content : Text) (n : ℕ) → 1 ≤ n → n * 4 < length content → length (compress content n) ≡ n * 4
unfolding compress slice_before
length_compressed content n h over = ground (
  arith,
  length-append (take (n * 4 - 1) content) (ellipsis ∷ []),
  length-take (n * 4 - 1) content,
)

ceil_bound : (len n : ℕ) → len ≤ n * 4 → (len + 3) / 4 ≤ n
ceil_bound len n h = omega arith

length_bound : (content : Text) (n : ℕ) → 1 ≤ n → length (compress content n) ≤ n * 4
unfolding compress
length_bound content n h = elim (Bool-cases (leb (length content) (n * 4))) [
  | inl fits ↦ rw (compress, fits) (omega tests)
  | inr over ↦ omega (arith, length_compressed content n h (ground arith))
]

-- For a positive number of tokens the compressed text fits in it, and a text that fits is not
-- changed.
pub compress_fits :
    (content : Text) (n : ℕ)
    → 1 ≤ n
    → (estimate_tokens (compress content n) ≤ n)
      × (length content ≤ n * 4 → compress content n ≡ content)
unfolding estimate_tokens compress
compress_fits content n h =
    (ceil_bound (length (compress content n)) n (length_bound content n h), λ fits. ground arith)

-- For zero tokens the text keeps its length: the end of the slice is then -1, and only the last
-- code unit is replaced, by the ellipsis.
pub compress_zero :
    (content : Text)
    → content ≢ []
    → (compress content 0 ≡ take (length content - 1) content ++ ellipsis ∷ [])
      × (length (compress content 0) ≡ length content)
unfolding compress slice_before
compress_zero [] h = absurd (h refl)
compress_zero (c ∷ cs) h = (
  (let e : leb (length (c ∷ cs)) 0 ≡ false = ground arith in rw (compress, e) refl),
  ground (
    arith,
    length-append (take (length (c ∷ cs) - 1) (c ∷ cs)) (ellipsis ∷ []),
    length-take (length (c ∷ cs) - 1) (c ∷ cs),
  ),
)
