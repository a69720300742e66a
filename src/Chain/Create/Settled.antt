-- ===== src/Chain/Create/Settled.antt =====
-- A payment of `CreateTransaction` from the queue to the chain: `queueTransaction`,
-- `createUnminedBlock`, `mineBlock` and `addNewBlock`.
use ash_coin.Base.{
  ℕ, suc, ◌+◌, ◌<◌, ◌≡◌, refl, sym, ap, ◌∙◌, true, false, Option, none, some, List, [], ◌∷◌, ◌++◌,
  map, length, last?, Text, get_elem?, get_elem?-lt, All, All-get_elem?, Bool-cases, Option-cases,
  inl, inr, arith, ℤ, ◌⊎◌, ◌||◌, ◌&&◌, ◌-◌, ◌==◌, not, ltb,
}
use mathlib.Core.Option.{some-injective, none-ne-some}
use ash_coin.External.{External}
use ash_coin.CryptoUtils.{get_address_from_private_key}
use ash_coin.Tx.{TxOutPoint, TxIn, Transaction, is_coinbase, is_empty, calculate_id}
use ash_coin.Tx.Result.{success}
use ash_coin.Block.{Block, set_mined_data}
use ash_coin.Miner
use ash_coin.Miner.{
  Schedule, Outcome, ended, LoopEnd, stopped, bailed, mine_block, mine_loop, finish, hash_at,
}
use ash_coin.Chain.{Chain, size, add_new_block}
use ash_coin.Chain.Add.{taken}
use ash_coin.Chain.Numbered.{IsNumbered}
use ash_coin.Chain.Queue.{queue_transaction, create_unmined_block}
use ash_coin.Chain.Requeue.{
  renamed, create_unmined_block_lem, is_coinbase-calculate_id, nothing_at_empty,
}
use ash_coin.Chain.Unspent.{get_unspent_tx_outs}
use ash_coin.Chain.Unspent.Sound.{IsOutput}
use ash_coin.Chain.Unspent.Spent.{IsGone}
use ash_coin.Chain.Unspent.Spent.Loops.{get_unspent_tx_outs-IsGone}
use ash_coin.Chain.Create.{create_transaction, spend, payment}
use ash_coin.Chain.Create.Spends.{IsCompared}
use ash_coin.Chain.Create.Filled.{IsNumbered-get_elem?, create_transaction-IsFunded}

module _ {ℓ} {A : Type ℓ} where
  All-at :
      (P : A → Type 0) (xs : List A) → ((i : ℕ) (a : A) → get_elem? xs i ≡ some a → P a) → All P xs
  All-at P [] _ = tt
  All-at P (a ∷ xs) f = (f 0 a refl, All-at P xs (λ i b e. f (suc i) b e))

  get_elem?-end : (xs : List A) (a : A) → get_elem? (xs ++ (a ∷ [])) (length xs) ≡ some a
  get_elem?-end [] a = refl
  get_elem?-end (b ∷ xs) a = get_elem?-end xs a

IsNumbered-end :
    (k : ℕ) (bs : List Block) (b : Block)
    → IsNumbered k bs
    → b.index ≡ k + length bs
    → IsNumbered k (bs ++ (b ∷ []))
IsNumbered-end k [] b _ e = (omega arith, tt)
IsNumbered-end k (c ∷ bs) b (n, ns) e = (n, IsNumbered-end (suc k) bs b ns (omega arith))

finish-keeps :
    (s : Schedule) (difficulty : ℕ) (b m : Block) (e : Option LoopEnd)
    → finish s difficulty b e ≡ ended Miner.success m
    → (m.index ≡ b.index) × (m.txs ≡ b.txs)
unfolding finish set_mined_data
finish-keeps s difficulty b m none e = absurd (ground (arith, e))
finish-keeps s difficulty b m (some bailed) e = absurd (ground (arith, e))
finish-keeps s difficulty b m (some (stopped nonce time hash)) e =
    elim (Bool-cases s.keep_trying_after) [
      | inl on ↦ ground (arith, rw on at e)
      | inr off ↦ absurd (ground (arith, rw off at e))
    ]

module _ {J : Type 0} (x : External J) where
  mine_block-keeps :
      (fuel : ℕ) (s : Schedule) (difficulty : ℕ) (b m : Block)
      → mine_block x fuel s difficulty b ≡ ended Miner.success m
      → (m.index ≡ b.index) × (m.txs ≡ b.txs)
  unfolding mine_block
  mine_block-keeps fuel s difficulty b m e =
      elim (Bool-cases (ltb 0 b.index && (not (is_empty b.prev) || (b.index - 1 == 0)))) [
        | inr stop ↦ absurd (ground (arith, rw (mine_block, stop) at e))
        | inl go ↦ elim (Bool-cases (x.string_fits difficulty)) [
          | inr huge ↦ absurd (ground (arith, rw (mine_block, go, huge) at e))
          | inl fits ↦
              finish-keeps s difficulty b m
                (mine_loop x fuel s difficulty b 0 s.start (hash_at x difficulty b 0 s.start))
                (rw (mine_block, go, fits) at e)
        ]
      ]

  -- An input that is signed makes a transaction no coinbase.
  spend-payment :
      (sender receiver : Text) (amount leftover : ℕ) (ps : List TxOutPoint) (tx : Transaction)
      → tx.tx_ins ≡ map spend ps
      → tx.tx_outs ≡ payment x sender receiver amount leftover
      → (tx.tx_ins ≡ []) ⊎ (is_coinbase tx ≡ some false)
  unfolding is_coinbase payment
  spend-payment sender receiver amount leftover [] tx ins outs = inl ins
  spend-payment sender receiver amount leftover (p ∷ ps) tx ins outs =
      inr (elim (Bool-cases (x.double.lt 0 leftover)) [
        | inl e ↦ rw (is_coinbase, ins, outs, payment, e) (ground arith)
        | inr e ↦ rw (is_coinbase, ins, outs, payment, e) (ground arith)
      ])

  -- The inputs of a payment name outputs of the chain, and it is no coinbase.
  abbrev IsSpendable : Chain → Transaction → Type 0
  IsSpendable c tx =
      All (λ (i : TxIn). i.tx_out_pt.block_index < size c) tx.tx_ins
      × ((tx.tx_ins ≡ []) ⊎ (is_coinbase tx ≡ some false))

  before_end :
      (c : Chain) (wanted : Text) (ps : List TxOutPoint)
      → IsNumbered 0 c.blocks
      → All (IsOutput c wanted) ps
      → All (λ (i : TxIn). i.tx_out_pt.block_index < size c) (map spend ps)
  before_end c wanted [] n _ = tt
  before_end c wanted (p ∷ ps) n (o, os) = (
    omega (
      arith,
      o.index_right,
      IsNumbered-get_elem? 0 c.blocks o.place n o.block_at,
      get_elem?-lt c.blocks o.place o.block_at,
    ),
    before_end c wanted ps n os,
  )

  create_transaction-IsSpendable :
      (c : Chain) (pk receiver : Text) (amount : ℕ) (tx : Transaction)
      → IsCompared x.double
      → IsNumbered 0 c.blocks
      → create_transaction x c pk receiver amount ≡ some (success, tx)
      → IsSpendable c tx
  create_transaction-IsSpendable c pk receiver amount tx laws n e =
      let sender = get_address_from_private_key x.crypto pk in
      let h = create_transaction-IsFunded x c pk receiver amount tx laws e in
      (
        rw h.ins (before_end c sender h.points n h.sound),
        spend-payment sender receiver amount h.leftover h.points tx h.ins h.outs,
      )

  renamed-end :
      (idx : ℕ) (queue : List Transaction) (tx : Transaction)
      → get_elem? (renamed x idx (queue ++ (tx ∷ []))) (length queue) ≡ some (calculate_id x tx idx)
  renamed-end idx [] tx = refl
  renamed-end idx (q ∷ queue) tx = renamed-end idx queue tx

  -- The chain behind a block that was made of the queue with the payment, mined and added.
  settled_chain :
      (c c1 c2 : Chain) (tx : Transaction) (now : ℤ) (wallet : Text) (b m : Block) (fuel : ℕ)
      (s : Schedule) (difficulty : ℕ)
      → create_unmined_block x now wallet (queue_transaction tx c) ≡ some (b, c1)
      → mine_block x fuel s difficulty b ≡ ended Miner.success m
      → add_new_block x m c1 ≡ some (true, c2)
      → (c2.blocks ≡ c.blocks ++ (m ∷ []))
        × (m.index ≡ size c)
        × (get_elem? m.txs (suc (length c.tx_queue)) ≡ some (calculate_id x tx (size c)))
  unfolding queue_transaction
  settled_chain c c1 c2 tx now wallet b m fuel s difficulty begun mined added =
      let queued = queue_transaction tx c in
      elim (Option-cases (last? c.blocks)) [
        | inl empty ↦
            absurd (none-ne-some _ (sym (nothing_at_empty x now wallet queued empty) ∙ begun))
        | inr (l, last) ↦
            let (b', e', index, _, _, txs) = create_unmined_block_lem x now wallet queued l last in
            let made = some-injective _ _ (sym e' ∙ begun) in
            let same_block : b' ≡ b = ap (λ (r : Block × Chain). r.0) made in
            let emptied : record queued { tx_queue = [] } ≡ c1 =
              ap (λ (r : Block × Chain). r.1) made in
            let (index', txs') = mine_block-keeps fuel s difficulty b m mined in
            let still : last? c1.blocks ≡ some l =
              ap (λ (d : Chain). last? d.blocks) (sym emptied) ∙ last in
            let (_, _, pushed) = taken x m l c1 c2 still added in
            (
              ap (λ (d : Chain). d.blocks) pushed
                  ∙ ap (λ (d : Chain). d.blocks ++ (m ∷ [])) (sym emptied),
              index' ∙ (ap (λ (d : Block). d.index) (sym same_block) ∙ index),
              rw (txs', ← same_block, txs) (renamed-end (size c) c.tx_queue tx),
            )
      ]

  -- On a chain whose blocks have their places as indices, a payment that `CreateTransaction` made is
  -- queued, `createUnminedBlock` makes a block of the queue, `mineBlock` succeeds with it, and
  -- `addNewBlock` takes it: then no output that the payment spends is among the outputs that
  -- `GetUnspentTxOuts` returns for the longer chain, for any address.
  pub create_transaction-IsGone :
      (c c1 c2 : Chain) (pk receiver : Text) (amount : ℕ) (tx : Transaction) (now : ℤ)
      (wallet : Text) (b m : Block) (fuel : ℕ) (s : Schedule) (difficulty : ℕ) (address : Text)
      (rs : List TxOutPoint)
      → IsCompared x.double
      → IsNumbered 0 c.blocks
      → create_transaction x c pk receiver amount ≡ some (success, tx)
      → create_unmined_block x now wallet (queue_transaction tx c) ≡ some (b, c1)
      → mine_block x fuel s difficulty b ≡ ended Miner.success m
      → add_new_block x m c1 ≡ some (true, c2)
      → get_unspent_tx_outs x c2 address ≡ some rs
      → All (λ (i : TxIn). IsGone i.tx_out_pt rs) tx.tx_ins
  unfolding calculate_id
  create_transaction-IsGone c c1 c2 pk receiver amount tx now wallet b m fuel s difficulty address
        rs laws n paid begun mined added left =
      let (before, coin) = create_transaction-IsSpendable c pk receiver amount tx laws n paid in
      let (longer, index, place) =
        settled_chain c c1 c2 tx now wallet b m fuel s difficulty begun mined added in
      let numbered : IsNumbered 0 c2.blocks =
        rw longer (IsNumbered-end 0 c.blocks m n (omega (arith, index))) in
      let at_end : get_elem? c2.blocks (size c) ≡ some m = rw longer (get_elem?-end c.blocks m) in
      elim coin [
        | inl none_spent ↦ rw none_spent tt
        | inr pays ↦
            All-at (λ (i : TxIn). IsGone i.tx_out_pt rs) tx.tx_ins
              (λ k i at_k.
                get_unspent_tx_outs-IsGone x address c2 (size c) (suc (length c.tx_queue)) k m
                  (calculate_id x tx (size c)) i rs numbered at_end place
                  (is_coinbase-calculate_id x tx (size c) ∙ pays) at_k
                  (omega (
                    arith,
                    index,
                    All-get_elem? (λ (j : TxIn). j.tx_out_pt.block_index < size c) tx.tx_ins k
                        before at_k,
                  ))
                  left)
      ]
