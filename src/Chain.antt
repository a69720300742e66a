-- ===== src/Chain.antt =====
-- src/Blockchain.h and src/Blockchain.cpp: the chain, its checks and its difficulty. `none` stands for
-- an exception, a failed assertion or undefined behaviour. `_unspentTxOuts` is never used, and the
-- logger is not modelled.
pub mod Queue
pub mod Lookup
pub mod Unspent
pub mod Create
pub mod Json
pub mod Valid
pub mod Chained
pub mod Add
pub mod Requeue
pub mod Difficulty
pub mod Numbered
use ash_coin.Base.{
  ℕ, zero, suc, ◌+◌, ◌-◌, ◌*◌, ◌/◌, ◌%◌, ◌^◌, Bool, true, false, ◌&&◌, ◌||◌, not, Option, none,
  some, List, [], ◌∷◌, ◌++◌, Text, text_eq, ltb, leb, ◌==◌, if◌then◌else◌, ◌>>=◌, length, get_elem?,
  last?, take, replicate, ℤ, pos, ◌-ℤ◌, quot_ℤ, ltb_ℤ,
}
use ash_coin.External.{External}
use ash_coin.Tx.{Transaction}
use ash_coin.Block.{Block, valid_hash, calculate_block_hash}

-- Seconds and blocks, in a debug build.
abbrev pub target_timespan : ℕ
target_timespan = 60

abbrev pub block_interval : ℕ
block_interval = 10

-- The front of the queue is the head of the list.
pub record Chain : Type 0 where
  pub blocks : List Block
  pub tx_queue : List Transaction

abbrev pub empty_chain : Chain
empty_chain = record { blocks = []; tx_queue = [] }

abbrev pub push_block : Block → Chain → Chain
push_block b c = record c { blocks = c.blocks ++ (b ∷ []) }

-- `Blockchain::size`
abbrev pub size : Chain → ℕ
size c = length c.blocks

-- A chain with another size: blocks that are added are as the default constructor leaves them.
unfoldable pub resized : Block → ℕ → Chain → Chain
resized blank n c = record c { blocks = take n c.blocks ++ replicate (n - size c) blank }

-- `Blockchain::resize`, with `none` for the exception where there cannot be so many blocks.
unfoldable pub resize : (blocks_fit : ℕ → Bool) → Block → ℕ → Chain → Option Chain
unfolding resized
resize blocks_fit blank n c =
    if leb n (size c) || blocks_fit n then some (resized blank n c) else none

-- `std::pow(2u, difficulty)` as a 64-bit number, which is not defined from 2 ^ 64 on.
unfoldable pub work_of : ℕ → Option ℕ
work_of difficulty = if ltb difficulty 64 then some (2 ^ difficulty) else none

unfoldable pub add_work : List Block → ℕ → Option ℕ
unfolding work_of
add_work [] total = some total
add_work (b ∷ bs) total = work_of b.difficulty >>= λ w. add_work bs ((total + w) % 2 ^ 64)

-- `Blockchain::cumDifficulty(idx)`: the blocks before `idx`.
unfoldable pub cum_difficulty_at : ℕ → Chain → Option ℕ
unfolding add_work
cum_difficulty_at idx c = if leb idx (size c) then add_work (take idx c.blocks) 0 else none

-- `Blockchain::cumDifficulty()`; at an empty chain `size() - 1` wraps.
unfoldable pub cum_difficulty : Chain → Option ℕ
unfolding cum_difficulty_at
cum_difficulty c = if size c == 0 then none else cum_difficulty_at (size c - 1) c

-- `Blockchain::getAdjustedDifficulty`. At fewer blocks than the interval `at` throws.
unfoldable pub get_adjusted_difficulty : Chain → Option ℕ
get_adjusted_difficulty c = do
  last ← last? c.blocks
  elim ((last.index + 1) % 2 ^ 64 % block_interval == 0) [
    | false ↦ some last.difficulty
    | true ↦ elim (ltb (size c) block_interval) [
      | true ↦ none
      | false ↦ get_elem? c.blocks (size c - block_interval) >>= λ first.
          let timespan = quot_ℤ (last.time -ℤ first.time) 1000 in
          if ltb_ℤ timespan (pos (target_timespan / 2))
          then some ((last.difficulty + 1) % 2 ^ 64)
          else if ltb_ℤ (pos (target_timespan * 2)) timespan
          then some ((last.difficulty + 2 ^ 64 - 1) % 2 ^ 64)
          else some last.difficulty
    ]
  ]

module _ {J : Type 0} (x : External J) where
  -- `Blockchain::addNewBlock(block, checkPreviousBlock)`; `back` of an empty chain is undefined.
  unfoldable pub add_new_block_checked : Block → Bool → Chain → Option (Bool × Chain)
  add_new_block_checked b check_previous c = valid_hash x b >>= λ valid.
      if not valid
      then some (false, c)
      else if check_previous
      then (last? c.blocks >>= λ last.
          if text_eq b.prev last.hash then some (true, push_block b c) else some (false, c))
      else some (true, push_block b c)

  -- `Blockchain::addNewBlock(block)`
  unfoldable pub add_new_block : Block → Chain → Option (Bool × Chain)
  unfolding add_new_block_checked
  add_new_block b c = add_new_block_checked b true c

  abbrev pub block_pair : Block → Block → Bool
  block_pair current prev =
      current.index == (prev.index + 1) % 2 ^ 64
      && (text_eq current.prev prev.hash && text_eq (calculate_block_hash x current) current.hash)

  -- `Blockchain::isValidBlockPair`
  unfoldable pub is_valid_block_pair : ℕ → Chain → Option Bool
  is_valid_block_pair idx c = if ltb (size c) idx || ltb idx 1 then some false else (do
    current ← get_elem? c.blocks idx
    prev ← get_elem? c.blocks (idx - 1)
    some (block_pair current prev))

  -- The loop of `isValidChain` from `idx`, which is an `unsigned int` and wraps. As many rounds as
  -- the chain has blocks are enough, since the pair of the index 0 is not valid.
  unfoldable pub valid_loop : ℕ → ℕ → Chain → Option Bool
  unfolding is_valid_block_pair
  valid_loop zero idx c = none
  valid_loop (suc rounds) idx c =
      let rest = valid_loop rounds ((idx + 1) % 2 ^ 32) c in
      if ltb idx (size c)
      then (is_valid_block_pair idx c >>= λ v. if v then rest else some false)
      else some true

  -- `Blockchain::isValidChain`
  unfoldable pub is_valid_chain : Chain → Option Bool
  unfolding valid_loop
  is_valid_chain c = if size c == 0 then some true else valid_loop (size c) 1 c
