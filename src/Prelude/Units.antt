-- ===== src/Prelude/Units.antt =====
-- Texts as lists of UTF-16 code units, where the code measures, cuts or compares them.
use Prim.Native.Char.{code}
use Prim.Native.String.{String}
use Prim.Native.Nat.{ℕ}
use mathlib.Core.Path.{◌≡◌, refl}
use mathlib.Core.Bool.{Bool, true, false, ◌&&◌, ◌||◌}
use mathlib.Core.Option.{Option, none, some}
use mathlib.Core.List.{List, [], ◌∷◌}
use native.Mathlib.Omega.{arith}
use bee_agent.Prelude.Tests.{leb, ◌==◌}
use bee_agent.Prelude.Lists.{length, every}

abbrev pub Text : Type 0
Text = List ℕ

-- The code units of a literal; the model writes none beyond the basic plane.
abbrev pub units : String → Text
units String.[] = []
units (String.◌∷◌ c s) = code c ∷ units s

-- `z.string().min(1)` on a text
abbrev pub has_units : Text → Bool
has_units [] = false
has_units (c ∷ text) = true

-- `===` on texts
unfoldable pub same_text : Text → Text → Bool
same_text [] [] = true
same_text (c ∷ s) (d ∷ t) = c == d && same_text s t
same_text _ _ = false

pub same_text_refl : (s : Text) → same_text s s ≡ true
unfolding same_text
same_text_refl [] = refl
same_text_refl (c ∷ s) = ground (arith, same_text_refl s)

pub same_text-eq : (s t : Text) → same_text s t ≡ true → s ≡ t
unfolding same_text
same_text-eq [] [] h = refl
same_text-eq [] (d ∷ t) h = cc
same_text-eq (c ∷ s) [] h = cc
same_text-eq (c ∷ s) (d ∷ t) h = ground (arith, same_text-eq s t)

-- `[0-9a-f]`
abbrev pub is_hex : ℕ → Bool
is_hex c = (leb 48 c && leb c 57) || (leb 97 c && leb c 102)

-- The code units of `sha256:`, which the text has to start with.
abbrev pub after_prefix : Text → Text → Option Text
after_prefix [] text = some text
after_prefix (c ∷ prefix) [] = none
after_prefix (c ∷ prefix) (d ∷ text) = elim (c == d) [
  | true ↦ after_prefix prefix text
  | false ↦ none
]

abbrev pub sha256_prefix : Text
sha256_prefix = 115 ∷ 104 ∷ 97 ∷ 50 ∷ 53 ∷ 54 ∷ 58 ∷ []

-- `/^sha256:[0-9a-f]{64}$/`
unfoldable pub is_sha256_digest : Text → Bool
is_sha256_digest text = elim (after_prefix sha256_prefix text) [
  | none ↦ false
  | some hex ↦ (length hex == 64) && every is_hex hex
]
