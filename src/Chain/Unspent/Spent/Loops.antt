-- ===== src/Chain/Unspent/Spent/Loops.antt =====
-- The outputs that the inputs of payments name, in the loops of `GetUnspentTxOuts`.
use ash_coin.Base.{
  ℕ, zero, suc, ◌+◌, ◌<◌, ◌≡◌, ◌≢◌, false, some, List, [], ◌∷◌, Text, arith, inl, inr, Option-cases,
  ◌>>=◌, get_elem?,
}
use mathlib.Core.Option.{some-injective, none-ne-some}
use ash_coin.External.{External}
use ash_coin.Tx.{TxOutPoint, TxIn, Transaction, is_coinbase}
use ash_coin.Block.{Block}
use ash_coin.Chain.{Chain}
use ash_coin.Chain.Numbered.{IsNumbered}
use ash_coin.Chain.Unspent.{
  same_point, unspent_step, unspent_txs, unspent_blocks, get_unspent_tx_outs,
}
use ash_coin.Chain.Unspent.Sound.{unspent_step-All}
use ash_coin.Chain.Unspent.Sorted.{IsRising, unspent_step-IsRising, add_outs-IsRising}
use ash_coin.Chain.Unspent.Spent.{IsGone, spend_ins-IsGone}

module _ {J : Type 0} (x : External J) (address : Text) where
  -- A transaction of another block does not bring the output back.
  step-IsGone :
      (p : TxOutPoint) (index t : ℕ) (tx : Transaction) (qs rs : List TxOutPoint)
      → p.block_index ≢ index
      → IsGone p qs
      → unspent_step x address index t tx qs ≡ some rs
      → IsGone p rs
  unfolding same_point
  step-IsGone p index t tx qs rs other h e =
      unspent_step-All x (λ q. same_point p q ≡ false) address index t tx qs rs
        (λ i o _ _. ground arith) h e

  spending-IsGone :
      (index t n : ℕ) (tx : Transaction) (i : TxIn) (qs rs : List TxOutPoint)
      → is_coinbase tx ≡ some false
      → get_elem? tx.tx_ins n ≡ some i
      → IsRising x.boost qs
      → unspent_step x address index t tx qs ≡ some rs
      → IsGone i.tx_out_pt rs
  unfolding unspent_step
  spending-IsGone index t n tx i qs rs pay at_n h e =
      rw (← some-injective _ _ (rw (pay, ◌>>=◌) at e)) (
        spend_ins-IsGone x.boost n tx.tx_ins i _ at_n
          (add_outs-IsRising x address index t 0 tx.tx_outs qs h))

  txs-IsGone :
      (p : TxOutPoint) (index t : ℕ) (txs : List Transaction) (qs rs : List TxOutPoint)
      → p.block_index ≢ index
      → IsGone p qs
      → unspent_txs x address index t txs qs ≡ some rs
      → IsGone p rs
  unfolding unspent_txs
  txs-IsGone p index t [] qs rs other h e = rw (← some-injective _ _ e) h
  txs-IsGone p index t (tx ∷ txs) qs rs other h e =
      elim (Option-cases (unspent_step x address index t tx qs)) [
        | inl stop ↦ ground arith
        | inr (os, go) ↦
            txs-IsGone p index (t + 1) txs os rs other (step-IsGone p index t tx qs os other h go)
              (rw (go, ◌>>=◌) at e)
      ]

  blocks-IsGone :
      (p : TxOutPoint) (k : ℕ) (bs : List Block) (qs rs : List TxOutPoint)
      → IsNumbered k bs
      → p.block_index < k
      → IsGone p qs
      → unspent_blocks x address bs qs ≡ some rs
      → IsGone p rs
  unfolding unspent_blocks
  blocks-IsGone p k [] qs rs m less h e = rw (← some-injective _ _ e) h
  blocks-IsGone p k (b ∷ bs) qs rs (i, m) less h e =
      elim (Option-cases (unspent_txs x address b.index 0 b.txs qs)) [
        | inl stop ↦ ground arith
        | inr (os, go) ↦
            blocks-IsGone p (suc k) bs os rs m (omega arith)
              (txs-IsGone p b.index 0 b.txs qs os (λ q. omega arith) h go) (rw (go, ◌>>=◌) at e)
      ]

  spent_in_txs :
      (index t m n : ℕ) (txs : List Transaction) (tx : Transaction) (i : TxIn)
      (qs rs : List TxOutPoint)
      → get_elem? txs m ≡ some tx
      → is_coinbase tx ≡ some false
      → get_elem? tx.tx_ins n ≡ some i
      → i.tx_out_pt.block_index ≢ index
      → IsRising x.boost qs
      → unspent_txs x address index t txs qs ≡ some rs
      → IsGone i.tx_out_pt rs
  unfolding unspent_txs
  spent_in_txs index t m n [] tx i qs rs at_m pay at_n other h e = absurd (none-ne-some _ at_m)
  spent_in_txs index t zero n (tx' ∷ txs) tx i qs rs at_m pay at_n other h e =
      elim (Option-cases (unspent_step x address index t tx' qs)) [
        | inl stop ↦ ground arith
        | inr (os, go) ↦
            let same : tx' ≡ tx = some-injective _ _ at_m in
            txs-IsGone i.tx_out_pt index (t + 1) txs os rs other
              (spending-IsGone index t n tx i qs os pay at_n h (rw same at go))
              (rw (go, ◌>>=◌) at e)
      ]
  spent_in_txs index t (suc m) n (tx' ∷ txs) tx i qs rs at_m pay at_n other h e =
      elim (Option-cases (unspent_step x address index t tx' qs)) [
        | inl stop ↦ ground arith
        | inr (os, go) ↦
            spent_in_txs index (t + 1) m n txs tx i os rs at_m pay at_n other
              (unspent_step-IsRising x address index t tx' qs os h go) (rw (go, ◌>>=◌) at e)
      ]

  txs-IsRising :
      (index t : ℕ) (txs : List Transaction) (qs rs : List TxOutPoint)
      → IsRising x.boost qs
      → unspent_txs x address index t txs qs ≡ some rs
      → IsRising x.boost rs
  unfolding unspent_txs
  txs-IsRising index t [] qs rs h e = rw (← some-injective _ _ e) h
  txs-IsRising index t (tx ∷ txs) qs rs h e =
      elim (Option-cases (unspent_step x address index t tx qs)) [
        | inl stop ↦ ground arith
        | inr (os, go) ↦
            txs-IsRising index (t + 1) txs os rs
              (unspent_step-IsRising x address index t tx qs os h go) (rw (go, ◌>>=◌) at e)
      ]

  spent_in_blocks :
      (j k m n : ℕ) (bs : List Block) (b : Block) (tx : Transaction) (i : TxIn)
      (qs rs : List TxOutPoint)
      → IsNumbered j bs
      → get_elem? bs k ≡ some b
      → get_elem? b.txs m ≡ some tx
      → is_coinbase tx ≡ some false
      → get_elem? tx.tx_ins n ≡ some i
      → i.tx_out_pt.block_index < b.index
      → IsRising x.boost qs
      → unspent_blocks x address bs qs ≡ some rs
      → IsGone i.tx_out_pt rs
  unfolding unspent_blocks
  spent_in_blocks j k m n [] b tx i qs rs o at_k at_m pay at_n less h e =
      absurd (none-ne-some _ at_k)
  spent_in_blocks j zero m n (b' ∷ bs) b tx i qs rs (o, os') at_k at_m pay at_n less h e =
      elim (Option-cases (unspent_txs x address b'.index 0 b'.txs qs)) [
        | inl stop ↦ ground arith
        | inr (os, go) ↦
            let same : b' ≡ b = some-injective _ _ at_k in
            let number : b.index ≡ j = rw same at o in
            blocks-IsGone i.tx_out_pt (suc j) bs os rs os' (omega arith)
              (spent_in_txs b.index 0 m n b.txs tx i qs os at_m pay at_n (λ q. omega arith) h
                (rw same at go))
              (rw (go, ◌>>=◌) at e)
      ]
  spent_in_blocks j (suc k) m n (b' ∷ bs) b tx i qs rs (o, os') at_k at_m pay at_n less h e =
      elim (Option-cases (unspent_txs x address b'.index 0 b'.txs qs)) [
        | inl stop ↦ ground arith
        | inr (os, go) ↦
            spent_in_blocks (suc j) k m n bs b tx i os rs os' at_k at_m pay at_n less
              (txs-IsRising b'.index 0 b'.txs qs os h go) (rw (go, ◌>>=◌) at e)
      ]

  -- On a chain whose blocks have their places as indices, an output of an earlier block that an input
  -- of a payment names is not among the outputs that `GetUnspentTxOuts` returns, for any address:
  -- what was spent once is not offered again.
  pub get_unspent_tx_outs-IsGone :
      (c : Chain) (k m n : ℕ) (b : Block) (tx : Transaction) (i : TxIn) (rs : List TxOutPoint)
      → IsNumbered 0 c.blocks
      → get_elem? c.blocks k ≡ some b
      → get_elem? b.txs m ≡ some tx
      → is_coinbase tx ≡ some false
      → get_elem? tx.tx_ins n ≡ some i
      → i.tx_out_pt.block_index < b.index
      → get_unspent_tx_outs x c address ≡ some rs
      → IsGone i.tx_out_pt rs
  unfolding get_unspent_tx_outs
  get_unspent_tx_outs-IsGone c k m n b tx i rs o at_k at_m pay at_n less e =
      spent_in_blocks 0 k m n c.blocks b tx i [] rs o at_k at_m pay at_n less tt e
