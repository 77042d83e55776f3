-- ===== src/Base/Int.antt =====
-- `int` values that may be negative: results of system calls, and sizes after a conversion.
use Prim.Native.Nat.{ℕ, suc, ◌+◌, ◌-◌, ◌%◌, ◌^◌, ◌≤◌, ◌<◌}
use mathlib.Core.Path.{◌≡◌}
use mathlib.Core.Bool.{Bool, true}
use native.Mathlib.Omega.{arith}
use cpp_network_obj.Base.Tests.{ltb, leb, if◌then◌else◌}

-- `negsuc n` is -(n + 1).
pub data ℤ : Type 0 where
  pos : ℕ → ℤ
  negsuc : ℕ → ℤ

abbrev pub pos_part : ℤ → ℕ
pos_part (pos n) = n
pos_part (negsuc n) = 0

abbrev pub neg_part : ℤ → ℕ
neg_part (pos n) = 0
neg_part (negsuc n) = suc n

-- The conversion of a `size_t` to `int`: the low 32 bits, as two's complement.
abbrev pub to_int : ℕ → ℤ
to_int n = let w = n % 2 ^ 32 in if ltb w (2 ^ 31) then pos w else negsuc (2 ^ 32 - w - 1)

-- a - b, as an integer.
abbrev pub sub_ℕ : ℕ → ℕ → ℤ
sub_ℕ a b = if leb b a then pos (a - b) else negsuc (b - a - 1)

infixl 65 ◌+ℤ◌
unfoldable pub ◌+ℤ◌ : ℤ → ℤ → ℤ
a +ℤ b = sub_ℕ (pos_part a + pos_part b) (neg_part a + neg_part b)

abbrev pub leb_ℤ : ℤ → ℤ → Bool
leb_ℤ a b = leb (pos_part a + neg_part b) (pos_part b + neg_part a)

infix 50 ◌≤ℤ◌
abbrev pub ◌≤ℤ◌ : ℤ → ℤ → Type 0
a ≤ℤ b = pos_part a + neg_part b ≤ pos_part b + neg_part a

pub +ℤ_parts :
    (a b : ℤ)
    → pos_part (a +ℤ b) + neg_part a + neg_part b ≡ neg_part (a +ℤ b) + pos_part a + pos_part b
unfolding ◌+ℤ◌
+ℤ_parts a b = ground arith

pub eq_of_parts : (a b : ℤ) → pos_part a + neg_part b ≡ pos_part b + neg_part a → a ≡ b
eq_of_parts a b h = ground arith

pub ruleset int_laws = (arith, +ℤ_parts, eq_of_parts)

pub to_int_small : (n : ℕ) → n < 2 ^ 31 → to_int n ≡ pos n
to_int_small n h = ground arith

-- The test of a size that is not negative against the room behind a position.
pub leb_ℤ-room : (n size at : ℕ) → at + n ≤ size → leb_ℤ (pos n) (sub_ℕ size at) ≡ true
leb_ℤ-room n size at h = ground arith

pub room-leb_ℤ : (n size at : ℕ) → leb_ℤ (pos n) (sub_ℕ size at) ≡ true → at + n ≤ size
room-leb_ℤ n size at h = ground arith
