-- ===== src/Chain/Requeue.antt =====
-- `createUnminedBlock` and `reQueueTransactions`: what is taken from the queue, and put back.
use ash_coin.Base.{
  ℕ, suc, ◌+◌, ◌≡◌, refl, true, false, some, List, [], ◌∷◌, ◌++◌, map, Text, length, last?, All, ℤ,
  arith, append_assoc, append-nil, ◌∙◌, Option-cases, inl, inr, none,
}
use mathlib.Core.Path.{ap₂}
use native.Mathlib.Nat.{add-zero}
use ash_coin.External.{External}
use ash_coin.Tx.{Transaction, is_coinbase, calculate_id, create_coinbase_transaction}
use ash_coin.Block.{Block, calculate_block_hash, new_block}
use ash_coin.Chain.{Chain, size}
use ash_coin.Chain.Queue.{
  create_unmined_block, drain, requeue_loop, requeue_transactions, queue_transaction,
}

-- A transaction with inputs and outputs that is no coinbase.
abbrev pub IsPayment : Transaction → Type 0
IsPayment tx = is_coinbase tx ≡ some false

module _ {J : Type 0} (x : External J) where
  -- The transactions of the queue as the block with the index holds them.
  abbrev pub renamed : ℕ → List Transaction → List Transaction
  renamed idx txs = map (λ tx. calculate_id x tx idx) txs

  drain-eq-append :
      (idx : ℕ) (queue txs : List Transaction) → drain x idx queue txs ≡ txs ++ renamed idx queue
  unfolding drain
  drain-eq-append idx [] txs = rw append-nil
  drain-eq-append idx (tx ∷ queue) txs =
      rw (drain-eq-append idx queue (txs ++ (calculate_id x tx idx ∷ [])), append_assoc)

  -- At a chain with a last block `createUnminedBlock` empties the queue into a block that comes next:
  -- its index is the size of the chain, it names the hash of the last block, its own hash is right,
  -- and its transactions are the coinbase and then the queue in its order, with new ids.
  pub create_unmined_block_lem :
      (now : ℤ) (wallet : Text) (c : Chain) (l : Block)
      → last? c.blocks ≡ some l
      → (b : Block) × (create_unmined_block x now wallet c ≡ some (b, record c { tx_queue = [] }))
        × (b.index ≡ size c)
        × (b.prev ≡ l.hash)
        × (calculate_block_hash x b ≡ b.hash)
        × (b.txs ≡ create_coinbase_transaction x (size c) wallet ∷ renamed (size c) c.tx_queue)
  unfolding create_unmined_block new_block calculate_block_hash
  create_unmined_block_lem now wallet c l e = (
    new_block x now (size c) l.hash
        (drain x (size c) c.tx_queue (create_coinbase_transaction x (size c) wallet ∷ [])),
    rw e,
    refl,
    refl,
    refl,
    drain-eq-append (size c) c.tx_queue _,
  )

  pub is_coinbase-calculate_id :
      (tx : Transaction) (idx : ℕ) → is_coinbase (calculate_id x tx idx) ≡ is_coinbase tx
  unfolding is_coinbase calculate_id
  is_coinbase-calculate_id tx idx = refl

  requeue_loop-renamed :
      (idx n : ℕ) (txs : List Transaction) (c : Chain)
      → All IsPayment txs
      → requeue_loop (renamed idx txs) n c
        ≡ some (n + length txs, record c { tx_queue = c.tx_queue ++ renamed idx txs })
  unfolding requeue_loop queue_transaction
  requeue_loop-renamed idx n [] c _ = rw (add-zero, append-nil)
  requeue_loop-renamed idx n (tx ∷ txs) c (p, ps) =
      let count : n + 1 + length txs ≡ n + suc (length txs) = omega arith in
      rw (
        is_coinbase-calculate_id tx idx,
        p,
        requeue_loop-renamed idx (n + 1) txs (queue_transaction (calculate_id x tx idx) c) ps,
        append_assoc,
        count,
      )

  coinbase_first :
      (idx : ℕ) (wallet : Text) → is_coinbase (create_coinbase_transaction x idx wallet) ≡ some true
  unfolding is_coinbase create_coinbase_transaction
  coinbase_first idx wallet = refl

  requeue_loop-coinbase :
      (idx : ℕ) (wallet : Text) (txs : List Transaction) (c : Chain)
      → All IsPayment txs
      → requeue_loop (create_coinbase_transaction x idx wallet ∷ renamed idx txs) 0 c
        ≡ some (length txs, record c { tx_queue = c.tx_queue ++ renamed idx txs })
  unfolding requeue_loop
  requeue_loop-coinbase idx wallet txs c p =
      let count : 0 + length txs ≡ length txs = omega arith in
      rw (coinbase_first idx wallet, requeue_loop-renamed idx 0 txs c p, count)

  pub nothing_at_empty :
      (now : ℤ) (wallet : Text) (c : Chain)
      → last? c.blocks ≡ none
      → create_unmined_block x now wallet c ≡ none
  unfolding create_unmined_block
  nothing_at_empty now wallet c e = rw e

  unmined_parts :
      (now : ℤ) (wallet : Text) (c c' : Chain) (b : Block)
      → create_unmined_block x now wallet c ≡ some (b, c')
      → (b.txs ≡ create_coinbase_transaction x (size c) wallet ∷ renamed (size c) c.tx_queue)
        × (c' ≡ record c { tx_queue = [] })
  unmined_parts now wallet c c' b e = elim (Option-cases (last? c.blocks)) [
    | inl empty ↦ ground (arith, nothing_at_empty now wallet c empty)
    | inr (l, last) ↦
        let (b', e', _, _, _, txs) = create_unmined_block_lem now wallet c l last in
        ground (arith, e', txs)
  ]

  -- What `createUnminedBlock` takes from a queue of payments, `reQueueTransactions` puts back in the
  -- same order, without the coinbase; the transactions keep the ids that they got for the block.
  pub requeue_transactions-create_unmined_block :
      (now : ℤ) (wallet : Text) (c c' : Chain) (b : Block)
      → All IsPayment c.tx_queue
      → create_unmined_block x now wallet c ≡ some (b, c')
      → requeue_transactions b c'
        ≡ some (
          length c.tx_queue,
          record { blocks = c.blocks; tx_queue = renamed (size c) c.tx_queue },
        )
  unfolding requeue_transactions
  requeue_transactions-create_unmined_block now wallet c c' b p e =
      let (txs, same) = unmined_parts now wallet c c' b e in
      ap₂ (λ ts k. requeue_loop ts 0 k) txs same
      ∙ requeue_loop-coinbase (size c) wallet c.tx_queue (record c { tx_queue = [] }) p
