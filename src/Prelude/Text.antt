-- ===== src/Prelude/Text.antt =====
-- Concatenation and prefixes of texts.
use Prim.Native.String.{String, ◌++◌}
use mathlib.Core.Path.{◌≡◌, sym}
use mathlib.Core.Bool.{Bool, true, not}
use mathlib.Core.Option.{Option, none, some}
use text.Mathlib.Text.{◌==◌, starts_with}
use text.Mathlib.TextEquality.{starts_with_iff}
use text.Mathlib.TextLemmas.{append_cancel_left}
use text.Mathlib.TextPositions.{starts_with-append as starts-append}

infixr 65 ◌⧺◌
abbrev pub ◌⧺◌ : String → String → String
s ⧺ t = s ++ t

abbrev pub has_prefix : String → String → Bool
has_prefix s prefix = starts_with s prefix

-- `z.string().min(1)`
abbrev pub non_empty : String → Bool
non_empty s = not (s == "")

-- `.optional()` on a schema
abbrev pub optionally {ℓ} : {A : Type ℓ} → (A → Bool) → Option A → Bool
optionally p none = true
optionally p (some a) = p a

pub append_cancel : (s : String) {t u : String} → s ⧺ t ≡ s ⧺ u → t ≡ u
append_cancel s {t} {u} h = append_cancel_left s t u h

pub has_prefix-append : (s t : String) → has_prefix (s ⧺ t) s ≡ true
has_prefix-append s t = starts-append s t

pub prefix_rest : (s prefix : String) → has_prefix s prefix ≡ true → (t : String) × (s ≡ prefix ⧺ t)
prefix_rest s prefix h = let (t, e) = (starts_with_iff s prefix).0 h in (t, sym e)
