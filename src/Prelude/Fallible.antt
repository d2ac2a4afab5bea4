-- ===== src/Prelude/Fallible.antt =====
-- A Go result `(value, error)`: a value, or an error of the component's own type.
use mathlib.Core.Bool.{Bool, true, false}
use mathlib.Core.Path.{◌≡◌, refl}
use mathlib.Core.Logic.{◌⊎◌, inl, inr}

pub data Result {ℓ} (E : Type 0) (A : Type ℓ) : Type ℓ where
  ok : A → Result E A
  err : E → Result E A

infixl 5 ◌>>=◌ ◌>>◌
abbrev pub ◌>>=◌ {ℓ κ} :
    {E : Type 0} {A : Type ℓ} {B : Type κ} → Result E A → (A → Result E B) → Result E B
ok a >>= f = f a
err e >>= f = err e

abbrev pub ◌>>◌ {ℓ} : {E : Type 0} {B : Type ℓ} → Result E (Unit {0}) → Result E B → Result E B
m >> k = m >>= λ _. k

-- `if c { return err }`
abbrev pub refuse_if : {E : Type 0} → Bool → E → Result E (Unit {0})
refuse_if true e = err e
refuse_if false e = ok tt

-- `fmt.Errorf("…: %w", err)`
abbrev pub wrap {ℓ} : {D E : Type 0} {A : Type ℓ} → (D → E) → Result D A → Result E A
wrap f (ok a) = ok a
wrap f (err e) = err (f e)

module _ {ℓ} {E : Type 0} {A : Type ℓ} where
  pub Result-cases : (r : Result E A) → ((v : A) × (r ≡ ok v)) ⊎ ((x : E) × (r ≡ err x))
  Result-cases (ok v) = inl (v, refl)
  Result-cases (err x) = inr (x, refl)

  -- A chain that succeeds has passed through a value of its first step.
  pub >>=-eq-ok {κ} :
      {B : Type κ} (first : Result E A) (k : A → Result E B) {out : B}
      → first >>= k ≡ ok out
      → (v : A) × (first ≡ ok v) × (k v ≡ ok out)
  >>=-eq-ok (ok v) k chain = (v, refl, chain)
  >>=-eq-ok (err x) k chain = cc

-- A guard that lets a chain succeed did not hold.
pub refuse_if-ok {ℓ} :
    {E : Type 0} {A : Type ℓ} (b : Bool) (e : E) (k : Unit {0} → Result E A) {out : A}
    → refuse_if b e >>= k ≡ ok out
    → (b ≡ false) × (k tt ≡ ok out)
refuse_if-ok true e k h = cc
refuse_if-ok false e k h = (refl, h)
