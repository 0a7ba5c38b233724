-- ===== src/Prelude/Results.antt =====
-- Code that may throw: a result with the error's type as a parameter.
use mathlib.Core.Path.{◌≡◌, refl}
use mathlib.Core.Bool.{Bool, true, false}
use mathlib.Core.Option.{Option, none, some}

pub data Result {ℓ κ} (E : Type ℓ) (A : Type κ) : Type (ℓ ⊔ κ) where
  err : E → Result E A
  ok : A → Result E A

-- `if (value === undefined) throw error`.
abbrev pub require {ℓ κ} : {E : Type ℓ} {A : Type κ} → Option A → E → Result E A
require none error = err error
require (some a) error = ok a

-- `if (!test) throw error`.
abbrev pub guard {ℓ} : {E : Type ℓ} → Bool → E → Result E (Unit {0})
guard false error = err error
guard true error = ok tt

-- A statement after a call that may throw.
infixl 5 ◌>>=◌ ◌>>◌
abbrev pub ◌>>=◌ {ℓ κ} : {E : Type ℓ} {A B : Type κ} → Result E A → (A → Result E B) → Result E B
err error >>= rest = err error
ok a >>= rest = rest a

abbrev pub ◌>>◌ {ℓ κ} : {E : Type ℓ} {A B : Type κ} → Result E A → Result E B → Result E B
first >> rest = first >>= λ _. rest

-- A block that returns has returned from its first call.
pub >>=-eq-ok {ℓ κ} :
    {E : Type ℓ} {A B : Type κ} (first : Result E A) (rest : A → Result E B) {result : B}
    → (first >>= rest) ≡ ok result
    → (a : A) × (first ≡ ok a) × (rest a ≡ ok result)
>>=-eq-ok (err error) rest returned = cc
>>=-eq-ok (ok a) rest returned = (a, refl, returned)

-- The second half of a pair that was returned.
pub ok-snd {ℓ κ} :
    {E : Type ℓ} {A C : Type κ} {a b : A} {c d : C}
    → ◌≡◌ {A = Result E (A × C)} (ok (a, c)) (ok (b, d))
    → c ≡ d
ok-snd h = cc

pub ok-fst {ℓ κ} :
    {E : Type ℓ} {A C : Type κ} {a b : A} {c d : C}
    → ◌≡◌ {A = Result E (A × C)} (ok (a, c)) (ok (b, d))
    → a ≡ b
ok-fst h = cc

pub bind_ext {ℓ κ} :
    {E : Type ℓ} {A B : Type κ} (m : Result E A) {f g : A → Result E B}
    → ((a : A) → f a ≡ g a)
    → (m >>= f) ≡ (m >>= g)
bind_ext (ok a) h = h a
bind_ext (err e) h = refl

pub bind_assoc {ℓ κ} :
    {E : Type ℓ} {A B C : Type κ} (m : Result E A) (f : A → Result E B) (g : B → Result E C)
    → (m >>= f >>= g) ≡ (m >>= λ a. f a >>= g)
bind_assoc (ok a) f g = refl
bind_assoc (err e) f g = refl

-- Inversion of the two tests in front of the rest of a body.
pub require-eq-ok {ℓ κ} :
    {E : Type ℓ} {A B : Type κ} (o : Option A) (e : E) (f : A → Result E B) {b : B}
    → (require o e >>= f) ≡ ok b
    → (a : A) × (o ≡ some a) × (f a ≡ ok b)
require-eq-ok none e f h = cc
require-eq-ok (some a) e f h = (a, refl, h)

pub guard-eq-ok {ℓ} :
    {E : Type ℓ} {B : Type 0} (b : Bool) (e : E) (k : Result E B) {a : B}
    → (guard b e >> k) ≡ ok a
    → (b ≡ true) × (k ≡ ok a)
guard-eq-ok true e k h = (refl, h)
guard-eq-ok false e k h = cc

pub ok-injective {ℓ κ} :
    {E : Type ℓ} {A : Type κ} {a b : A} → ◌≡◌ {A = Result E A} (ok a) (ok b) → a ≡ b
ok-injective h = cc
