-- ===== src/Miner.antt =====
-- src/Miner.h: `mineBlock`. What other threads, the clock and the callback do while it runs is a
-- schedule, by the nonce of the round; the loop takes fuel.
pub mod Mined
use ash_coin.Base.{
  ℕ, zero, suc, ◌+◌, ◌-◌, ◌%◌, ◌^◌, Bool, true, false, not, ◌&&◌, ◌||◌, Option, none, some, Text,
  ltb, ◌==◌, ℤ, if◌then◌else◌,
}
use ash_coin.External.{External}
use ash_coin.Tx.{is_empty}
use ash_coin.Block.{Block, hash_of, extra_of, has_zeros, set_mined_data}

pub data ResultType : Type 0 where
  success timeout abort : ResultType

-- The time at the start, the time and the flag `_keepTrying` in the round of a nonce, the flag behind
-- the loop, and what the callback says in a round about the index of the block.
pub record Schedule : Type 0 where
  pub start : ℤ
  pub clock : ℕ → ℤ
  pub keep_trying : ℕ → Bool
  pub keep_trying_after : Bool
  pub keep_going : ℕ → ℕ → Bool

-- How the loop ends: by its test, or by the callback.
pub data LoopEnd : Type 0 where
  stopped : ℕ → ℤ → Text → LoopEnd
  bailed : LoopEnd

-- How a call ends. `threw` is the exception of a difficulty that no string of zeros can have as its
-- size, and `still_mining` says that the fuel is used up.
pub data Outcome : Type 0 where
  ended : ResultType → Block → Outcome
  failed_assertion : Outcome
  threw : Outcome
  still_mining : Outcome

-- What follows the loop.
unfoldable pub finish : Schedule → (difficulty : ℕ) → Block → Option LoopEnd → Outcome
finish s difficulty b none = still_mining
finish s difficulty b (some bailed) = ended abort b
finish s difficulty b (some (stopped nonce time hash)) =
    if s.keep_trying_after
    then ended success (set_mined_data nonce difficulty time hash b)
    else ended abort b

module _ {J : Type 0} (x : External J) where
  -- The hash of the block at a nonce and a time.
  abbrev pub hash_at : ℕ → Block → ℕ → ℤ → Text
  hash_at difficulty b nonce time =
      hash_of x b.index nonce difficulty time b.payload b.prev (extra_of x b.txs)

  unfoldable pub mine_loop : ℕ → Schedule → (difficulty : ℕ) → Block → ℕ → ℤ → Text → Option LoopEnd
  mine_loop zero s difficulty b nonce time hash = none
  mine_loop (suc fuel) s difficulty b nonce time hash =
      let news = nonce % 2 ^ 18 == 0 in
      let time' = if news then s.clock nonce else time in
      let nonce' = (nonce + 1) % 2 ^ 64 in
      let rest = mine_loop fuel s difficulty b nonce' time' (hash_at difficulty b nonce' time') in
      if s.keep_trying nonce && not (has_zeros difficulty hash)
      then (if news && not (s.keep_going nonce b.index) then some bailed else rest)
      else some (stopped nonce time hash)

  -- `Miner::mineBlock` of a miner with the difficulty.
  unfoldable pub mine_block : ℕ → Schedule → (difficulty : ℕ) → Block → Outcome
  unfolding mine_loop finish
  mine_block fuel s difficulty b =
      if not (ltb 0 b.index && (not (is_empty b.prev) || (b.index - 1 == 0)))
      then failed_assertion
      else if x.string_fits difficulty
      then finish s difficulty b
          (mine_loop fuel s difficulty b 0 s.start (hash_at difficulty b 0 s.start))
      else threw
