-- ===== src/Base/Int.antt =====
-- `i64` values as integers over the native numbers, with the saturating sum and difference.
use Prim.Native.Nat.{ℕ, suc, ◌+◌, ◌-◌, ◌≤◌}
use mathlib.Core.Path.{◌≡◌}
use mathlib.Core.Bool.{Bool, true}
use native.Mathlib.Omega.{arith}
use s3_mcp_relay.Base.Tests.{ltb, leb, if◌then◌else◌}

-- `negsuc n` is -(n + 1).
pub data ℤ : Type 0 where
  pos : ℕ → ℤ
  negsuc : ℕ → ℤ

abbrev pub pos_part : ℤ → ℕ
pos_part (pos n) = n
pos_part (negsuc n) = 0

abbrev pub neg_part : ℤ → ℕ
neg_part (pos n) = 0
neg_part (negsuc n) = suc n

abbrev pub sub_ℕ : ℕ → ℕ → ℤ
sub_ℕ a b = if leb b a then pos (a - b) else negsuc (b - a - 1)

infixl 65 ◌+ℤ◌ ◌-ℤ◌
infix 50 ◌≤ℤ◌ ◌<ℤ◌
abbrev pub ◌+ℤ◌ : ℤ → ℤ → ℤ
a +ℤ b = sub_ℕ (pos_part a + pos_part b) (neg_part a + neg_part b)

abbrev pub ◌-ℤ◌ : ℤ → ℤ → ℤ
a -ℤ b = sub_ℕ (pos_part a + neg_part b) (neg_part a + pos_part b)

abbrev pub ◌≤ℤ◌ : ℤ → ℤ → Type 0
a ≤ℤ b = pos_part a + neg_part b ≤ pos_part b + neg_part a

abbrev pub ◌<ℤ◌ : ℤ → ℤ → Type 0
a <ℤ b = suc (pos_part a + neg_part b) ≤ pos_part b + neg_part a

abbrev pub ltb_ℤ : ℤ → ℤ → Bool
ltb_ℤ a b = ltb (pos_part a + neg_part b) (pos_part b + neg_part a)

abbrev pub leb_ℤ : ℤ → ℤ → Bool
leb_ℤ a b = leb (pos_part a + neg_part b) (pos_part b + neg_part a)

abbrev pub i64_max : ℤ
i64_max = pos 9223372036854775807

abbrev pub i64_min : ℤ
i64_min = negsuc 9223372036854775807

abbrev pub IsI64 : ℤ → Type 0
IsI64 a = (i64_min ≤ℤ a) × (a ≤ℤ i64_max)

unfoldable pub clamp_i64 : ℤ → ℤ
clamp_i64 a = if ltb_ℤ i64_max a then i64_max else if ltb_ℤ a i64_min then i64_min else a

-- `i64::saturating_add` and `i64::saturating_sub`
unfoldable pub saturating_add : ℤ → ℤ → ℤ
unfolding clamp_i64
saturating_add a b = clamp_i64 (a +ℤ b)

unfoldable pub saturating_sub : ℤ → ℤ → ℤ
unfolding clamp_i64
saturating_sub a b = clamp_i64 (a -ℤ b)

pub ltb_ℤ_iff_not : (a b : ℤ) → ltb_ℤ a b ≡ true → a <ℤ b
ltb_ℤ_iff_not a b h = ground arith

pub eq_of_parts : (a b : ℤ) → pos_part a + neg_part b ≡ pos_part b + neg_part a → a ≡ b
eq_of_parts a b h = ground arith

pub saturating_add-IsI64 : (a b : ℤ) → IsI64 (saturating_add a b)
unfolding saturating_add
saturating_add-IsI64 a b = ground arith

-- A sum with a number stays below the largest value or is it, and never falls below `a`.
pub le-saturating_add : (a : ℤ) (n : ℕ) → IsI64 a → a ≤ℤ saturating_add a (pos n)
unfolding saturating_add
le-saturating_add a n h = ground arith
