-- ===== src/Chain/Queue.antt =====
-- The queue of transactions of src/Blockchain.cpp, and the block that is made from it.
use ash_coin.Base.{
  ℕ, ◌+◌, true, false, Option, some, List, [], ◌∷◌, ◌++◌, Text, ◌>>=◌, length, last?, ℤ,
}
use ash_coin.External.{External}
use ash_coin.Tx.{Transaction, is_coinbase, calculate_id, create_coinbase_transaction}
use ash_coin.Block.{Block, new_block}
use ash_coin.Chain.{Chain, size}

-- `Blockchain::queueTransaction`
unfoldable pub queue_transaction : Transaction → Chain → Chain
queue_transaction tx c = record c { tx_queue = c.tx_queue ++ (tx ∷ []) }

-- `Blockchain::transactionQueueSize`
abbrev pub transaction_queue_size : Chain → ℕ
transaction_queue_size c = length c.tx_queue

unfoldable pub requeue_loop : List Transaction → ℕ → Chain → Option (ℕ × Chain)
unfolding queue_transaction
requeue_loop [] count c = some (count, c)
requeue_loop (tx ∷ txs) count c = do
  coinbase ← is_coinbase tx
  elim coinbase [
    | true ↦ requeue_loop txs count c
    | false ↦ requeue_loop txs (count + 1) (queue_transaction tx c)
  ]

-- `Blockchain::reQueueTransactions`, with the number of transactions that were queued.
unfoldable pub requeue_transactions : Block → Chain → Option (ℕ × Chain)
unfolding requeue_loop
requeue_transactions b c = requeue_loop b.txs 0 c

module _ {J : Type 0} (x : External J) where
  -- The loop that empties the queue into the transactions of the new block.
  unfoldable pub drain : ℕ → List Transaction → List Transaction → List Transaction
  drain idx [] txs = txs
  drain idx (tx ∷ queue) txs = drain idx queue (txs ++ (calculate_id x tx idx ∷ []))

  -- `Blockchain::createUnminedBlock`, at the time `now`.
  unfoldable pub create_unmined_block : ℤ → Text → Chain → Option (Block × Chain)
  unfolding drain
  create_unmined_block now coinbase_wallet c =
      let idx = size c in
      let txs = drain idx c.tx_queue (create_coinbase_transaction x idx coinbase_wallet ∷ []) in
      last? c.blocks >>= λ last.
      some (new_block x now idx last.hash txs, record c { tx_queue = [] })
