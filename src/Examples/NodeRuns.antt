-- ===== src/Examples/NodeRuns.antt =====
-- Runs of the miner and of the node.
use ash_coin.Base.{
  decimal, decimal_ℤ, ◌≡◌, ◌↔◌, refl, true, false, none, some, [], ◌∷◌, txt, arith, pos, ltb, Gives,
}
use ash_coin.Block.{
  Block, valid_hash, calculate_block_hash, hash_of, sha256_text, extra_of, has_zeros,
}
use ash_coin.Chain.{Chain}
use ash_coin.Miner.{Schedule, mine_block, ended, ResultType}
use ash_coin.Miner.Mined.{IsOutcome, StaysDown, mine_block-IsOutcome, mine_block_ends}
use ash_coin.Database.Load.{write_blocks}
use ash_coin.App.{App, sync_blockchain}
use ash_coin.App.Extends.{written, sync_blockchain-eq-append}
use ash_coin.Chain.Valid.{IsLinkedFrom}
use ash_coin.App.InStep.{IsWhole, IsSynced, sync_blockchain-Gives}
use ash_coin.App.Mining.{Surroundings}
use ash_coin.App.Messages.{handle_chain_response}
use ash_coin.App.Messages.Answers.{handle_chain_response_aborts}
use ash_coin.Examples.{small, genesis, second, only_genesis, two_blocks, block_at}

-- Nobody stops the miner before round 20.
abbrev unhurried : Schedule
unhurried = record {
  start = pos 0;
  clock = λ n. pos n;
  keep_trying = λ n. ltb n 20;
  keep_trying_after = false;
  keep_going = λ n i. true;
}

abbrev unsealed : Block
unsealed = block_at 1 0 (txt "0") [] []

-- Nobody stops the miner.
abbrev free : Schedule
free = record unhurried { keep_trying = λ n. true; keep_trying_after = true }

free-StaysDown : StaysDown small free 1 unsealed
free-StaysDown n e = ground arith

mine_block-IsOutcome_example : IsOutcome small free 1 unsealed (mine_block small 12 free 1 unsealed)
mine_block-IsOutcome_example = mine_block-IsOutcome small free 1 unsealed 12 free-StaysDown

mine_block_ends_example :
    (r : ResultType) × (m : Block) × (mine_block small 21 unhurried 1 unsealed ≡ ended r m)
mine_block_ends_example =
    mine_block_ends small unhurried 1 unsealed 21 20 refl (omega arith) (λ e. ground arith)
      (omega arith) refl (omega arith)

-- A node with the genesis block that was sent the second one.
abbrev node : App
node = record {
  chain = only_genesis;
  temp = some (record { blocks = second ∷ []; tx_queue = [] });
  file = some (write_blocks only_genesis.blocks);
  mining_done = false;
  finished = false;
  difficulty = 0;
}

node-IsWhole : IsWhole node
node-IsWhole = (tt, tt, refl)

sync_blockchain-Gives_example :
    Gives
      (λ (r, app'). IsSynced small node (r, app') × (app'.temp ≡ none))
      (sync_blockchain small genesis node)
sync_blockchain-Gives_example =
    sync_blockchain-Gives small genesis node node-IsWhole ((refl, refl), tt)

-- The other threads do nothing.
abbrev quiet : Surroundings
quiet = record { now = pos 7; schedule = free; meanwhile = λ n app. app; afterwards = λ app. app }

abbrev sent_second : Chain
sent_second = record { blocks = second ∷ []; tx_queue = [] }

handle_chain_response_aborts_example :
    (handle_chain_response small sent_second node ≡ none) ↔ (second.index ≡ 1)
handle_chain_response_aborts_example =
    handle_chain_response_aborts small sent_second node second refl tt (refl, tt) (omega arith)

-- The second block follows the first, and its hash is valid.
second-IsLinkedFrom : IsLinkedFrom small genesis (second ∷ [])
unfolding calculate_block_hash hash_of sha256_text decimal decimal_ℤ extra_of
second-IsLinkedFrom = (record { index_next = refl; prev_hash = refl; hash_right = refl }, tt)

second-valid : valid_hash small second ≡ some true
unfolding valid_hash calculate_block_hash hash_of sha256_text decimal decimal_ℤ extra_of has_zeros
second-valid = refl

sync_blockchain-eq-append_example :
    sync_blockchain small genesis node
    ≡ some (
      true,
      record node { chain = two_blocks; temp = none; file = written (second ∷ []) node.file },
    )
sync_blockchain-eq-append_example =
    sync_blockchain-eq-append small genesis genesis second [] sent_second node refl refl refl
      (omega arith) second-IsLinkedFrom (second-valid, tt)
