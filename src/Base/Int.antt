-- ===== src/Base/Int.antt =====
-- Signed integers over the native numbers, and Go's `int64`: an integer in [-2^63, 2^63) whose
-- operations wrap around.
use Prim.Native.Nat.{ℕ, suc, ◌+◌, ◌-◌, ◌%◌, ◌^◌, ◌≤◌, ◌<◌}
use mathlib.Core.Path.{◌≡◌}
use mathlib.Core.Bool.{Bool}
use native.Mathlib.Omega.{arith}
use modelo_man.Base.Tests.{ltb, leb, if◌then◌else◌}

-- `negsuc n` is -(n + 1).
pub data ℤ : Type 0 where
  pos : ℕ → ℤ
  negsuc : ℕ → ℤ

abbrev pub pos_part : ℤ → ℕ
pos_part (pos n) = n
pos_part (negsuc n) = 0

abbrev pub neg_part : ℤ → ℕ
neg_part (pos n) = 0
neg_part (negsuc n) = suc n

-- a - b, as an integer.
abbrev pub sub_ℕ : ℕ → ℕ → ℤ
sub_ℕ a b = if leb b a then pos (a - b) else negsuc (b - a - 1)

infixl 65 ◌+ℤ◌
infix 50 ◌≤ℤ◌
unfoldable pub ◌+ℤ◌ : ℤ → ℤ → ℤ
a +ℤ b = sub_ℕ (pos_part a + pos_part b) (neg_part a + neg_part b)

abbrev pub ◌≤ℤ◌ : ℤ → ℤ → Type 0
a ≤ℤ b = pos_part a + neg_part b ≤ pos_part b + neg_part a

abbrev pub ltb_ℤ : ℤ → ℤ → Bool
ltb_ℤ a b = ltb (pos_part a + neg_part b) (pos_part b + neg_part a)

abbrev pub two_63 : ℕ
two_63 = 2 ^ 63

abbrev pub two_64 : ℕ
two_64 = 2 ^ 64

-- The 64-bit two's complement value of an integer.
unfoldable pub wrap_64 : ℤ → ℤ
wrap_64 (pos n) =
    if ltb (n % two_64) two_63 then pos (n % two_64) else negsuc (two_64 - 1 - n % two_64)
wrap_64 (negsuc n) =
    if ltb (n % two_64) two_63 then negsuc (n % two_64) else pos (two_64 - 1 - n % two_64)

infixl 65 ◌+₆₄◌
-- `a + b` on `int64`.
unfoldable pub ◌+₆₄◌ : ℤ → ℤ → ℤ
unfolding wrap_64 ◌+ℤ◌
a +₆₄ b = wrap_64 (a +ℤ b)

-- A natural number that `int64` holds.
abbrev pub FitsInt64 : ℕ → Type 0
FitsInt64 n = n < two_63

pub add_64-pos : (a b : ℕ) → a + b < two_63 → pos a +₆₄ pos b ≡ pos (a + b)
unfolding ◌+₆₄◌
add_64-pos a b h = ground arith

-- The integer held within `int64`.
abbrev pub clamp_64 : ℤ → ℤ
clamp_64 (pos n) = if ltb n two_63 then pos n else pos (two_63 - 1)
clamp_64 (negsuc n) = if ltb n two_63 then negsuc n else negsuc (two_63 - 1)

-- `now.Sub(start)` on instants in nanoseconds: a `Duration` that does not wrap around.
abbrev pub since_64 : ℤ → ℤ → ℤ
since_64 start now =
    clamp_64 (sub_ℕ (pos_part now + neg_part start) (neg_part now + pos_part start))
