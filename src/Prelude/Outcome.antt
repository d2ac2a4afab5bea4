-- ===== src/Prelude/Outcome.antt =====
-- How a fallible computation ends: with a value of which Q holds, or with an error of which P holds.
use market_place.Prelude.Fallible.{Result, ok, err, ◌>>=◌, refuse_if}
use mathlib.Core.Path.{◌≡◌, refl, subst}
use mathlib.Core.Bool.{Bool, true, false}
use market_place.Prelude.Tests.{if◌then◌else◌}

pub data Ends {ℓ} {E : Type 0} {A : Type ℓ} (P : E → Type 0) (Q : A → Type 0)
    : Result E A → Type ℓ where
  returns : (a : A) → Q a → Ends P Q (ok a)
  fails : (e : E) → P e → Ends P Q (err e)

module _ {ℓ κ} {E : Type 0} {A : Type ℓ} {B : Type κ} {P : E → Type 0} {Q : B → Type 0} where
  pub bind-Ends :
      {R : A → Type 0} (m : Result E A) {f : A → Result E B}
      → Ends P R m
      → ((a : A) → R a → Ends P Q (f a))
      → Ends P Q (m >>= f)
  bind-Ends _ (returns a r) k = k a r
  bind-Ends _ (fails e p) k = fails e p

pub refuse-Ends {κ} :
    {E : Type 0} {B : Type κ} {P : E → Type 0} {Q : B → Type 0} (b : Bool) (e : E)
    (k : Unit {0} → Result E B)
    → P e
    → (b ≡ false → Ends P Q (k tt))
    → Ends P Q (refuse_if b e >>= k)
refuse-Ends true e k p rest = fails e p
refuse-Ends false e k p rest = rest refl

pub Ends-intro {ℓ} :
    {E : Type 0} {A : Type ℓ} {P : E → Type 0} {Q : A → Type 0} (r : Result E A)
    → ((a : A) → r ≡ ok a → Q a)
    → ((e : E) → r ≡ err e → P e)
    → Ends P Q r
Ends-intro (ok a) f g = returns a (f a refl)
Ends-intro (err e) f g = fails e (g e refl)

-- What a value that has come back is known to satisfy.
pub Ends-ok {ℓ} :
    {E : Type 0} {A : Type ℓ} {P : E → Type 0} {Q : A → Type 0} {r : Result E A} {a : A}
    → Ends P Q r
    → r ≡ ok a
    → Q a
Ends-ok {Q} {a} (returns b q) e = let same : b ≡ a = cc in subst Q same q
Ends-ok (fails x p) e = cc

pub weaken-Ends {ℓ} :
    {E : Type 0} {A : Type ℓ} {P : E → Type 0} {Q R : A → Type 0} {r : Result E A}
    → ((a : A) → Q a → R a)
    → Ends P Q r
    → Ends P R r
weaken-Ends f (returns a q) = returns a (f a q)
weaken-Ends f (fails e p) = fails e p

-- What a computation returns is what it returns.
pub Ends-result : {E A : Type 0} (r : Result E A) → Ends (λ _. Unit) (λ a. r ≡ ok a) r
Ends-result (ok a) = returns a refl
Ends-result (err e) = fails e tt

-- Both branches of a test.
pub if-Ends {ℓ} :
    {E : Type 0} {A : Type ℓ} {P : E → Type 0} {Q : A → Type 0} (b : Bool) {x y : Result E A}
    → Ends P Q x
    → (b ≡ false → Ends P Q y)
    → Ends P Q (if b then x else y)
if-Ends true x y = x
if-Ends false x y = y refl
