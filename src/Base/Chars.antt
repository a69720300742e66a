-- ===== src/Base/Chars.antt =====
-- `std::from_chars` at a `std::uint64_t` and at an `int`: it reads the digits that a text begins with.
use Prim.Native.Nat.{ℕ, zero, suc, ◌+◌, ◌*◌, ◌-◌, ◌/◌, ◌%◌, ◌^◌, ◌<◌}
use mathlib.Core.Path.{◌≡◌, refl, ◌∙◌}
use mathlib.Core.Bool.{Bool, true, ◌&&◌}
use mathlib.Core.Logic.{◌⊎◌, inl, inr}
use mathlib.Core.List.{[], ◌∷◌, ◌++◌}
use native.Mathlib.Omega.{arith}
use ash_coin.Base.Tests.{ltb, leb, ◌==◌, if◌then◌else◌, Bool-cases}
use ash_coin.Base.Lists.{All, All-append, IsNonEmpty, IsNonEmpty-snoc}
use ash_coin.Base.Bytes.{Text, decimal, decimal_from}
use ash_coin.Base.Int.{ℤ, pos, sub_ℕ}

-- `invalid` is `std::errc::invalid_argument`, and `out_of_range` is `result_out_of_range`; with
-- either one the variable keeps its value.
pub data Scanned {ℓ} (A : Type ℓ) : Type ℓ where
  invalid out_of_range : Scanned A
  scanned : A → Scanned A

pub Scanned-cases {ℓ} :
    {A : Type ℓ} (s : Scanned A)
    → ((s ≡ invalid) ⊎ (s ≡ out_of_range)) ⊎ ((a : A) × (s ≡ scanned a))
Scanned-cases invalid = inl (inl refl)
Scanned-cases out_of_range = inl (inr refl)
Scanned-cases (scanned a) = inr (a, refl)

abbrev pub is_digit : ℕ → Bool
is_digit c = leb 48 c && ltb c 58

unfoldable pub scan_digits : ℕ → Text → ℕ
scan_digits acc [] = acc
scan_digits acc (c ∷ s) = if is_digit c then scan_digits (acc * 10 + (c - 48)) s else acc

-- The numbers below `limit`.
unfoldable pub scan_below : ℕ → Text → Scanned ℕ
unfolding scan_digits
scan_below limit [] = invalid
scan_below limit (c ∷ s) =
    if is_digit c
    then (let n = scan_digits 0 (c ∷ s) in if ltb n limit then scanned n else out_of_range)
    else invalid

unfoldable pub from_chars : Text → Scanned ℕ
unfolding scan_below
from_chars s = scan_below (2 ^ 64) s

abbrev signed : (ℕ → ℤ) → Scanned ℕ → Scanned ℤ
signed f invalid = invalid
signed f out_of_range = out_of_range
signed f (scanned n) = scanned (f n)

unfoldable pub from_chars_int : Text → Scanned ℤ
unfolding scan_below
from_chars_int [] = invalid
from_chars_int (c ∷ s) =
    if c == 45
    then signed (sub_ℕ 0) (scan_below (2 ^ 31 + 1) s)
    else signed pos (scan_below (2 ^ 31) (c ∷ s))

-- The value that is left in a variable.
abbrev pub value_or {ℓ} : {A : Type ℓ} → A → Scanned A → A
value_or a invalid = a
value_or a out_of_range = a
value_or a (scanned b) = b

abbrev AreDigits : Text → Type 0
AreDigits s = All (λ (c : ℕ). is_digit c ≡ true) s

scan_digits-append :
    (acc d : ℕ) (s : Text)
    → AreDigits s
    → d < 10
    → scan_digits acc (s ++ ((48 + d) ∷ [])) ≡ scan_digits acc s * 10 + d
unfolding scan_digits
scan_digits-append acc d [] _ h = ground arith
scan_digits-append acc d (c ∷ s) (p, ps) h =
    rw (p, scan_digits-append (acc * 10 + (c - 48)) d s ps h) refl

decimal_from-AreDigits : (fuel n : ℕ) → AreDigits (decimal_from fuel n)
unfolding decimal_from
decimal_from-AreDigits zero n = (ground arith, tt)
decimal_from-AreDigits (suc fuel) n = elim (Bool-cases (ltb n 10)) [
  | inl e ↦ rw e (ground arith, tt)
  | inr e ↦ rw e (
      All-append (λ (c : ℕ). is_digit c ≡ true) (decimal_from fuel (n / 10)) ((48 + n % 10) ∷ [])
        (decimal_from-AreDigits fuel (n / 10)) (ground arith, tt))
]

decimal_from-IsNonEmpty : (fuel n : ℕ) → IsNonEmpty (decimal_from fuel n)
unfolding decimal_from
decimal_from-IsNonEmpty zero n = tt
decimal_from-IsNonEmpty (suc fuel) n = elim (Bool-cases (ltb n 10)) [
  | inl e ↦ rw e tt
  | inr e ↦ rw e (IsNonEmpty-snoc (decimal_from fuel (n / 10)) (48 + n % 10))
]

-- 10 ^ (fuel + 1)
abbrev tens : ℕ → ℕ
tens zero = 10
tens (suc fuel) = 10 * tens fuel

scan_digits-decimal_from : (fuel n : ℕ) → n < tens fuel → scan_digits 0 (decimal_from fuel n) ≡ n
unfolding decimal_from scan_digits
scan_digits-decimal_from zero n h = scan_digits-append 0 (n % 10) [] tt (omega arith) ∙ omega arith
scan_digits-decimal_from (suc fuel) n h = elim (Bool-cases (ltb n 10)) [
  | inl e ↦ rw e (scan_digits-append 0 n [] tt (ground arith) ∙ omega arith)
  | inr e ↦
      let shorter = scan_digits-decimal_from fuel (n / 10) (omega arith) in
      rw e (
        scan_digits-append 0 (n % 10) (decimal_from fuel (n / 10))
          (decimal_from-AreDigits fuel (n / 10)) (omega arith)
        ∙ rw shorter (omega arith))
]

scan_below-digits :
    (limit : ℕ) (s : Text)
    → IsNonEmpty s
    → AreDigits s
    → scan_digits 0 s < limit
    → scan_below limit s ≡ scanned (scan_digits 0 s)
unfolding scan_below scan_digits
scan_below-digits limit [] n _ h = absurd n
scan_below-digits limit (c ∷ s) _ (p, ps) h =
    let h' : scan_digits (0 * 10 + (c - 48)) s < limit = rw p at h in
    let below : ltb (scan_digits (0 * 10 + (c - 48)) s) limit ≡ true = ground arith in
    rw (p, below) refl

-- A number of 64 bits is read back from its decimal digits.
pub from_chars-decimal : (n : ℕ) → n < 2 ^ 64 → from_chars (decimal n) ≡ scanned n
unfolding from_chars decimal
from_chars-decimal n h =
    let back = scan_digits-decimal_from 20 n (omega arith) in
    rw back at (
      scan_below-digits (2 ^ 64) (decimal_from 20 n) (decimal_from-IsNonEmpty 20 n)
        (decimal_from-AreDigits 20 n) (rw back h))
