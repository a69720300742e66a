-- ===== src/Chain/Difficulty.antt =====
-- `getAdjustedDifficulty` and `cumDifficulty`.
use ash_coin.Base.{
  ℕ, ◌+◌, ◌-◌, ◌%◌, ◌^◌, ◌≤◌, ◌<◌, ◌≡◌, refl, ap, Bool, true, false, some, List, [], ◌∷◌, ◌++◌, ltb,
  ◌==◌, length, get_elem?, last?, take, arith, ℤ, pos, pos_part, neg_part, ◌-ℤ◌, quot_ℤ, ltb_ℤ,
  if◌then◌else◌, length-append, All, not, leb,
}
use ash_coin.Block.{Block}
use ash_coin.Chain.{
  Chain, size, get_adjusted_difficulty, cum_difficulty, add_work, work_of, push_block,
}

-- `a - b`, in milliseconds, is below `n`.
abbrev pub is_shorter : ℤ → ℤ → ℕ → Bool
is_shorter a b n = ltb (pos_part a + neg_part b) (pos_part b + neg_part a + n)

-- The whole seconds between two times.
abbrev seconds : ℤ → ℤ → ℤ
seconds a b = quot_ℤ (a -ℤ b) 1000

seconds_30 : (a b : ℤ) → ltb_ℤ (seconds a b) (pos 30) ≡ is_shorter a b 30_000
unfolding ◌-ℤ◌
seconds_30 a b = ground arith

seconds_120 : (a b : ℤ) → ltb_ℤ (pos 120) (seconds a b) ≡ not (is_shorter a b 121_000)
unfolding ◌-ℤ◌
seconds_120 a b = ground arith

-- At the end of an interval of ten blocks, the difficulty rises by one if the last ten blocks span
-- less than 30,000 milliseconds, falls by one if they span 121,000 or more, and stays otherwise; a
-- difficulty of zero that falls becomes the greatest 64-bit number.
pub adjusted_at_interval :
    (c : Chain) (first last : Block)
    → last? c.blocks ≡ some last
    → (last.index + 1) % 2 ^ 64 % 10 ≡ 0
    → 10 ≤ size c
    → get_elem? c.blocks (size c - 10) ≡ some first
    → last.difficulty < 2 ^ 64 - 1
    → get_adjusted_difficulty c
      ≡ some (
          if is_shorter last.time first.time 30_000
          then last.difficulty + 1
          else if is_shorter last.time first.time 121_000
          then last.difficulty
          else if last.difficulty == 0
          then 2 ^ 64 - 1
          else last.difficulty - 1)
unfolding get_adjusted_difficulty
adjusted_at_interval c first last e h n f d =
    ground (arith, seconds_30 last.time first.time, seconds_120 last.time first.time)

-- The sum of the works of some blocks.
abbrev pub total_work : List Block → ℕ
total_work [] = 0
total_work (b ∷ bs) = 2 ^ b.difficulty + total_work bs

abbrev pub IsLight : Block → Type 0
IsLight b = b.difficulty < 64

work_of_light : (d : ℕ) → d < 64 → work_of d ≡ some (2 ^ d)
unfolding work_of
work_of_light d h = ground arith

add_work-eq-total :
    (bs : List Block) (total : ℕ)
    → total < 2 ^ 64
    → All IsLight bs
    → add_work bs total ≡ some ((total + total_work bs) % 2 ^ 64)
unfolding add_work
add_work-eq-total [] total h _ = ap some (omega arith)
add_work-eq-total (b ∷ bs) total h (l, ls) =
    let w : ℕ = 2 ^ b.difficulty in
    let one : work_of b.difficulty ≡ some w = work_of_light b.difficulty l in
    rw (one, add_work-eq-total bs ((total + w) % 2 ^ 64) (omega arith) ls) (ap some (omega arith))

take-append : {A : Type 0} (xs ys : List A) → take (length xs) (xs ++ ys) ≡ xs
take-append [] ys = refl
take-append (x ∷ xs) ys = ap (◌∷◌ x) (take-append xs ys)

-- The work of the last block is not counted: of a chain with blocks of difficulty below 64, the sum
-- is that of the blocks before the last one, modulo 2 ^ 64.
pub cum_difficulty-push_block :
    (b : Block) (c : Chain)
    → All IsLight c.blocks
    → cum_difficulty (push_block b c) ≡ some (total_work c.blocks % 2 ^ 64)
unfolding cum_difficulty
cum_difficulty-push_block b c l =
    let n : size (push_block b c) ≡ size c + 1 = omega (arith, length-append c.blocks (b ∷ [])) in
    let m : size (push_block b c) - 1 ≡ size c = omega arith in
    let t : (size (push_block b c) == 0) ≡ false = ground arith in
    let u : leb (size c) (size (push_block b c)) ≡ true = ground arith in
    rw (t, m, u, take-append c.blocks (b ∷ []), add_work-eq-total c.blocks 0 (omega arith) l)
      (ap some (omega arith))
