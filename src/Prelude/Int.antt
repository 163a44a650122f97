-- ===== src/Prelude/Int.antt =====
-- Signed integers over the native numbers, under the library's names, and the wrap-around of an
-- `int64` sum. `negsuc n` is -(n + 1).
use gobot.Prelude.Tests.{ltb, leb, if◌then◌else◌}
use Prim.Native.Nat.{ℕ, suc, ◌+◌, ◌-◌, ◌≤◌, ◌<◌}
use mathlib.Core.Bool.{Bool}

pub data ℤ : Type 0 where
  pos : ℕ → ℤ
  negsuc : ℕ → ℤ

abbrev pub pos_part : ℤ → ℕ
pos_part (pos n) = n
pos_part (negsuc n) = 0

abbrev pub neg_part : ℤ → ℕ
neg_part (pos n) = 0
neg_part (negsuc n) = suc n

-- a - b, as an integer.
abbrev pub sub_ℕ : ℕ → ℕ → ℤ
sub_ℕ a b = if leb b a then pos (a - b) else negsuc (b - a - 1)

infixl 65 ◌-ℤ◌
unfoldable pub ◌-ℤ◌ : ℤ → ℤ → ℤ
a -ℤ b = sub_ℕ (pos_part a + neg_part b) (neg_part a + pos_part b)

infix 50 ◌≤ℤ◌ ◌<ℤ◌
abbrev pub ◌≤ℤ◌ : ℤ → ℤ → Type 0
a ≤ℤ b = pos_part a + neg_part b ≤ pos_part b + neg_part a

abbrev pub ◌<ℤ◌ : ℤ → ℤ → Type 0
a <ℤ b = pos_part a + neg_part b < pos_part b + neg_part a

abbrev pub ltb_ℤ : ℤ → ℤ → Bool
ltb_ℤ a b = ltb (pos_part a + neg_part b) (pos_part b + neg_part a)

abbrev pub leb_ℤ : ℤ → ℤ → Bool
leb_ℤ a b = leb (pos_part a + neg_part b) (pos_part b + neg_part a)

-- 2 ^ 63 and 2 ^ 64.
abbrev pub int64_half : ℕ
int64_half = 9223372036854775808

abbrev pub int64_mod : ℕ
int64_mod = 18446744073709551616

-- `a + b` on int64: one wrap is enough for two values in range.
unfoldable pub add64 : ℤ → ℤ → ℤ
add64 a b =
    let p = pos_part a + pos_part b in
    let n = neg_part a + neg_part b in
    if leb (int64_half + n) p
    then sub_ℕ p (n + int64_mod)
    else if ltb (p + int64_half) n
    then sub_ℕ (p + int64_mod) n
    else sub_ℕ p n
