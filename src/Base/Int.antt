-- ===== src/Base/Int.antt =====
-- Signed integers over the native numbers, and the 64-bit patterns that stand for them.
use Prim.Native.Nat.{ℕ, suc, ◌+◌, ◌-◌, ◌/◌, ◌^◌, ◌%◌, ◌≤◌, ◌<◌}
use mathlib.Core.Path.{◌≡◌}
use mathlib.Core.Logic.{◌↔◌, inl, inr}
use mathlib.Core.Bool.{Bool, true, false}
use mathlib.Core.List.{◌∷◌}
use native.Mathlib.Omega.{arith}
use ash_coin.Base.Tests.{ltb, leb, ◌==◌, if◌then◌else◌, Bool-cases}
use ash_coin.Base.Bytes.{Text, decimal}

-- `negsuc n` is -(n + 1).
pub data ℤ : Type 0 where
  pos : ℕ → ℤ
  negsuc : ℕ → ℤ

abbrev pub pos_part : ℤ → ℕ
pos_part (pos n) = n
pos_part (negsuc n) = 0

abbrev pub neg_part : ℤ → ℕ
neg_part (pos n) = 0
neg_part (negsuc n) = suc n

-- a - b, as an integer.
abbrev pub sub_ℕ : ℕ → ℕ → ℤ
sub_ℕ a b = if leb b a then pos (a - b) else negsuc (b - a - 1)

infixl 65 ◌-ℤ◌
unfoldable pub ◌-ℤ◌ : ℤ → ℤ → ℤ
a -ℤ b = sub_ℕ (pos_part a + neg_part b) (neg_part a + pos_part b)

abbrev pub ltb_ℤ : ℤ → ℤ → Bool
ltb_ℤ a b = ltb (pos_part a + neg_part b) (pos_part b + neg_part a)

abbrev pub int_eq : ℤ → ℤ → Bool
int_eq (pos m) (pos n) = m == n
int_eq (pos m) (negsuc n) = false
int_eq (negsuc m) (pos n) = false
int_eq (negsuc m) (negsuc n) = m == n

pub int_eq_iff : (a b : ℤ) → (int_eq a b ≡ true) ↔ (a ≡ b)
int_eq_iff (pos m) (pos n) = ground arith
int_eq_iff (pos m) (negsuc n) = ground arith
int_eq_iff (negsuc m) (pos n) = ground arith
int_eq_iff (negsuc m) (negsuc n) = ground arith

-- Division that rounds towards zero, by a positive number.
abbrev pub quot_ℤ : ℤ → ℕ → ℤ
quot_ℤ (pos n) d = pos (n / d)
quot_ℤ (negsuc n) d = sub_ℕ 0 (suc n / d)

-- `static_cast<std::uint64_t>` of an `int64_t`, and back.
unfoldable pub u64_of_int : ℤ → ℕ
u64_of_int (pos n) = n % 2 ^ 64
u64_of_int (negsuc n) = 2 ^ 64 - 1 - n % 2 ^ 64

unfoldable pub int_of_u64 : ℕ → ℤ
int_of_u64 w = if ltb w (2 ^ 63) then pos w else negsuc (2 ^ 64 - w - 1)

-- The range of `int64_t`.
abbrev pub IsInt64 : ℤ → Type 0
IsInt64 z = (pos_part z < 2 ^ 63) × (neg_part z ≤ 2 ^ 63)

pub int_of_u64-u64_of_int : (z : ℤ) → IsInt64 z → int_of_u64 (u64_of_int z) ≡ z
unfolding int_of_u64 u64_of_int
int_of_u64-u64_of_int (pos n) h = ground arith
int_of_u64-u64_of_int (negsuc n) h = ground arith

pub u64_of_int-lt : (z : ℤ) → u64_of_int z < 2 ^ 64
unfolding u64_of_int
u64_of_int-lt (pos n) = omega arith
u64_of_int-lt (negsuc n) = omega arith

pub u64_of_int-int_of_u64 : (w : ℕ) → w < 2 ^ 64 → u64_of_int (int_of_u64 w) ≡ w
unfolding int_of_u64 u64_of_int
u64_of_int-int_of_u64 w h = elim (Bool-cases (ltb w (2 ^ 63))) [
  | inl e ↦ rw e (ground arith)
  | inr e ↦ rw e (ground arith)
]

pub int_of_u64-IsInt64 : (w : ℕ) → w < 2 ^ 64 → IsInt64 (int_of_u64 w)
unfolding int_of_u64
int_of_u64-IsInt64 w h = elim (Bool-cases (ltb w (2 ^ 63))) [
  | inl e ↦ rw e (ground arith)
  | inr e ↦ rw e (ground arith)
]

-- `stream << n` at an `int64_t`.
unfoldable pub decimal_ℤ : ℤ → Text
decimal_ℤ (pos n) = decimal n
decimal_ℤ (negsuc n) = 45 ∷ decimal (suc n)
