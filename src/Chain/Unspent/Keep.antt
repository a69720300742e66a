-- ===== src/Chain/Unspent/Keep.antt =====
-- The induction over the loops of `GetUnspentTxOuts`.
use ash_coin.Base.{
  ℕ, suc, ◌+◌, ◌≡◌, refl, some, List, [], ◌∷◌, Text, arith, Option-cases, inl, inr, ◌>>=◌,
  get_elem?, drop, drop-cons,
}
use mathlib.Core.Option.{some-injective}
use ash_coin.External.{External}
use ash_coin.Tx.{TxOutPoint, Transaction}
use ash_coin.Block.{Block}
use ash_coin.Chain.{Chain}
use ash_coin.Chain.Unspent.{unspent_step, unspent_txs, unspent_blocks, get_unspent_tx_outs}

-- A predicate that every transaction of the chain keeps holds of what the loops return.
module _ {J : Type 0} (x : External J) (P : List TxOutPoint → Type 0) (address : Text) where
  abbrev pub Keeps : (b : Block) (t : ℕ) → Transaction → Type 0
  Keeps b t tx =
      (qs rs : List TxOutPoint) → P qs → unspent_step x address b.index t tx qs ≡ some rs → P rs

  pub txs_keep :
      (b : Block) (t : ℕ) (txs : List Transaction) (qs : List TxOutPoint) {rs : List TxOutPoint}
      → ((t : ℕ) (tx : Transaction) → get_elem? b.txs t ≡ some tx → Keeps b t tx)
      → drop t b.txs ≡ txs
      → P qs
      → unspent_txs x address b.index t txs qs ≡ some rs
      → P rs
  unfolding unspent_txs
  txs_keep b t [] qs keep d h e = rw (← some-injective _ _ e) h
  txs_keep b t (tx ∷ txs) qs keep d h e =
      elim (Option-cases (unspent_step x address b.index t tx qs)) [
        | inl stop ↦ ground arith
        | inr (os, go) ↦
            let (here, next, _) = drop-cons t b.txs d in
            let t' : t + 1 ≡ suc t = omega arith in
            txs_keep b (t + 1) txs os keep (rw t' next) (keep t tx here qs os h go)
              (rw (go, ◌>>=◌) at e)
      ]

  pub blocks_keep :
      (c : Chain) (k : ℕ) (bs : List Block) (qs : List TxOutPoint) {rs : List TxOutPoint}
      → ((k t : ℕ) (b : Block) (tx : Transaction)
          → get_elem? c.blocks k ≡ some b
          → get_elem? b.txs t ≡ some tx
          → Keeps b t tx)
      → drop k c.blocks ≡ bs
      → P qs
      → unspent_blocks x address bs qs ≡ some rs
      → P rs
  unfolding unspent_blocks
  blocks_keep c k [] qs keep d h e = rw (← some-injective _ _ e) h
  blocks_keep c k (b ∷ bs) qs keep d h e =
      elim (Option-cases (unspent_txs x address b.index 0 b.txs qs)) [
        | inl stop ↦ ground arith
        | inr (os, go) ↦
            let (here, next, _) = drop-cons k c.blocks d in
            blocks_keep c (suc k) bs os keep next
              (txs_keep b 0 b.txs qs (λ t tx at_t. keep k t b tx here at_t) refl h go)
              (rw (go, ◌>>=◌) at e)
      ]

  pub get_unspent_keep :
      (c : Chain) {rs : List TxOutPoint}
      → ((k t : ℕ) (b : Block) (tx : Transaction) (qs rs : List TxOutPoint)
          → get_elem? c.blocks k ≡ some b
          → get_elem? b.txs t ≡ some tx
          → P qs
          → unspent_step x address b.index t tx qs ≡ some rs
          → P rs)
      → P []
      → get_unspent_tx_outs x c address ≡ some rs
      → P rs
  unfolding get_unspent_tx_outs
  get_unspent_keep c keep h e =
      blocks_keep c 0 c.blocks []
        (λ k t b tx at_k at_t qs os p go. keep k t b tx qs os at_k at_t p go) refl h e
