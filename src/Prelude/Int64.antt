-- ===== src/Prelude/Int64.antt =====
-- Go's `int64`: an integer in two's complement, with the wrap-around written out.
use Prim.Native.Nat.{ℕ, ◌-◌, ◌%◌, ◌^◌, ◌≤◌, ◌<◌}
use mathlib.Core.Path.{◌≡◌}
use native.Mathlib.Omega.{arith}
use market_place.Prelude.Tests.{ltb, if◌then◌else◌}
use market_place.Prelude.Int.{ℤ, pos, negsuc, pos_part, neg_part, ◌+ℤ◌, ◌-ℤ◌, ◌*ℤ◌}

-- 2 ^ 63 and 2 ^ 64.
abbrev pub half_word : ℕ
half_word = 2 ^ 63

abbrev pub word : ℕ
word = 2 ^ 64

-- `math.MaxInt64` and `math.MinInt64`.
abbrev pub max_int64 : ℤ
max_int64 = pos (2 ^ 63 - 1)

abbrev pub min_int64 : ℤ
min_int64 = negsuc (2 ^ 63 - 1)

-- The values of the type.
abbrev pub IsInt64 : ℤ → Type 0
IsInt64 a = (pos_part a < half_word) × (neg_part a ≤ half_word)

-- The value that a machine word with a's low 64 bits stands for; -(n + 1) is the complement of n.
unfoldable pub wrap64 : ℤ → ℤ
wrap64 (pos n) = if ltb (n % word) half_word then pos (n % word) else negsuc (word - 1 - n % word)
wrap64 (negsuc n) =
    if ltb (n % word) half_word then negsuc (n % word) else pos (word - 1 - n % word)

unfoldable pub add64 : ℤ → ℤ → ℤ
add64 a b = wrap64 (a +ℤ b)

unfoldable pub sub64 : ℤ → ℤ → ℤ
sub64 a b = wrap64 (a -ℤ b)

unfoldable pub mul64 : ℤ → ℤ → ℤ
mul64 a b = wrap64 (a *ℤ b)

unfoldable pub neg64 : ℤ → ℤ
neg64 a = wrap64 (pos 0 -ℤ a)

pub wrap64_self : (a : ℤ) → IsInt64 a → wrap64 a ≡ a
unfolding wrap64
wrap64_self a h = ground arith

pub wrap64-IsInt64 : (a : ℤ) → IsInt64 (wrap64 a)
unfolding wrap64
wrap64-IsInt64 a = ground arith

-- Where the exact result is a value of the type, the machine gives it.
pub add64_exact : (a b : ℤ) → IsInt64 (a +ℤ b) → add64 a b ≡ a +ℤ b
unfolding add64
add64_exact a b h = wrap64_self (a +ℤ b) h

pub sub64_exact : (a b : ℤ) → IsInt64 (a -ℤ b) → sub64 a b ≡ a -ℤ b
unfolding sub64
sub64_exact a b h = wrap64_self (a -ℤ b) h

pub neg64_exact : (a : ℤ) → IsInt64 (pos 0 -ℤ a) → neg64 a ≡ pos 0 -ℤ a
unfolding neg64
neg64_exact a h = wrap64_self (pos 0 -ℤ a) h

pub add64-IsInt64 : (a b : ℤ) → IsInt64 (add64 a b)
unfolding add64
add64-IsInt64 a b = wrap64-IsInt64 (a +ℤ b)

-- Past either end the sum of two values comes out with the other sign.
pub add64_above :
    (a b : ℤ) → IsInt64 a → IsInt64 b → half_word ≤ pos_part (a +ℤ b) → 0 < neg_part (add64 a b)
unfolding add64 wrap64 ◌+ℤ◌
add64_above a b ha hb h = ground arith

pub add64_below :
    (a b : ℤ) → IsInt64 a → IsInt64 b → half_word < neg_part (a +ℤ b) → neg_part (add64 a b) ≡ 0
unfolding add64 wrap64 ◌+ℤ◌
add64_below a b ha hb h = ground arith
