-- ===== src/Examples/ChainRuns.antt =====
-- Runs of the chain, its queue and its difficulty.
use ash_coin.Chain.Lookup.{find_transaction}
use ash_coin.Chain.Lookup.Find.{IsFound, find_transaction-IsFound}
use ash_coin.Base.{
  none, false, Holds, Gives, if◌then◌else◌, decimal, decimal_ℤ, ◌↔◌, arith, ◌≡◌, refl, txt, pos, [],
  ◌∷◌, true, some,
}
use ash_coin.Block.{
  Block, hash_of, extra_of, sha256_text, calculate_block_hash, valid_hash, has_zeros,
}
use ash_coin.Chain.{Chain, add_new_block, is_valid_chain}
use ash_coin.Chain.Add.{add_new_block_iff, add_new_block-is_valid_chain}
use ash_coin.Chain.Difficulty.{cum_difficulty-push_block}
use ash_coin.Chain.Queue.{requeue_transactions}
use ash_coin.Chain.Requeue.{
  create_unmined_block_lem, requeue_transactions-create_unmined_block, renamed,
}
use ash_coin.Chain.{get_adjusted_difficulty, cum_difficulty}
use ash_coin.Tx.{Transaction, new_tx_in, is_coinbase}
use ash_coin.Chain.Numbered.{IsNear, get_adjusted_difficulty-IsNear}
use ash_coin.Examples.{small, genesis, second, only_genesis, two_blocks}

add_new_block_iff_example :
    ((add_new_block small second only_genesis ≡ none) ↔ (
      (calculate_block_hash small second ≡ second.hash)
      × (small.string_fits second.difficulty ≡ false)))
    × ((add_new_block small second only_genesis ≡ some (true, two_blocks)) ↔ (
        ((calculate_block_hash small second ≡ second.hash)
          × (small.string_fits second.difficulty ≡ true)
          × (has_zeros second.difficulty second.hash ≡ true))
        × (second.prev ≡ genesis.hash)))
    × Holds
        (λ (r, c'). c' ≡ (if r then two_blocks else only_genesis))
        (add_new_block small second only_genesis)
add_new_block_iff_example = add_new_block_iff small second genesis only_genesis refl

add_new_block-is_valid_chain_example : is_valid_chain small two_blocks ≡ some true
unfolding add_new_block is_valid_chain valid_hash calculate_block_hash hash_of sha256_text decimal
    decimal_ℤ extra_of has_zeros
add_new_block-is_valid_chain_example =
    add_new_block-is_valid_chain small second genesis only_genesis two_blocks (omega arith) refl
      refl refl

pub valid_two : is_valid_chain small two_blocks ≡ some true
unfolding is_valid_chain calculate_block_hash hash_of sha256_text decimal decimal_ℤ extra_of
valid_two = refl

get_adjusted_difficulty-IsNear_example : Gives (IsNear 0) (get_adjusted_difficulty two_blocks)
get_adjusted_difficulty-IsNear_example =
    get_adjusted_difficulty-IsNear small two_blocks genesis second valid_two refl refl (omega arith)
      refl

cum_difficulty-push_block_example : cum_difficulty two_blocks ≡ some 1
cum_difficulty-push_block_example = cum_difficulty-push_block second only_genesis (omega arith, tt)

-- A payment in the queue.
abbrev paid : Transaction
paid = record {
  id = txt "p";
  tx_ins = new_tx_in 0 0 0 (txt "s") ∷ [];
  tx_outs = (record { address = txt "2"; amount = 7 }) ∷ [];
}

abbrev queued : Chain
queued = record { blocks = genesis ∷ []; tx_queue = paid ∷ [] }

-- The block that is made from the queue.
abbrev unmined : Block
unmined = (create_unmined_block_lem small (pos 5) (txt "w") queued genesis refl).0

requeue_transactions-create_unmined_block_example :
    requeue_transactions unmined (record queued { tx_queue = [] })
    ≡ some (1, record { blocks = genesis ∷ []; tx_queue = renamed small 1 (paid ∷ []) })
unfolding is_coinbase
requeue_transactions-create_unmined_block_example =
    requeue_transactions-create_unmined_block small (pos 5) (txt "w") queued
      (record queued { tx_queue = [] }) unmined (refl, tt)
      (create_unmined_block_lem small (pos 5) (txt "w") queued genesis refl).1

find_transaction-IsFound_example :
    IsFound (txt "t") two_blocks.blocks (find_transaction two_blocks (txt "t"))
find_transaction-IsFound_example = find_transaction-IsFound two_blocks (txt "t")
