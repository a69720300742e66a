-- ===== src/Chain/Unspent/Meets.antt =====
-- The induction over the loops of `GetUnspentTxOuts` up to one transaction and from there on.
use ash_coin.Base.{
  ℕ, zero, suc, ◌+◌, ◌≡◌, refl, some, List, [], ◌∷◌, Text, arith, Option-cases, inl, inr, ◌>>=◌,
  get_elem?, drop, drop-cons,
}
use mathlib.Core.Option.{some-injective, none-ne-some}
use ash_coin.External.{External}
use ash_coin.Tx.{TxOutPoint, Transaction}
use ash_coin.Block.{Block}
use ash_coin.Chain.{Chain}
use ash_coin.Chain.Unspent.{unspent_step, unspent_txs, unspent_blocks, get_unspent_tx_outs}
use ash_coin.Chain.Unspent.Keep.{Keeps, txs_keep, blocks_keep}

-- `Before` holds until the transaction `tx` at place `m` of the block `b`, which turns it into `After`.
module _ {J : Type 0} (x : External J) (Before After : List TxOutPoint → Type 0) (address : Text)
    (b : Block) (m : ℕ) (tx : Transaction) where
  abbrev pub Turns : Type 0
  Turns =
      (qs rs : List TxOutPoint)
      → Before qs
      → unspent_step x address b.index m tx qs ≡ some rs
      → After rs

  txs_meet :
      (t d : ℕ) (txs : List Transaction) (qs : List TxOutPoint) {rs : List TxOutPoint}
      → ((t : ℕ) (tx : Transaction) → get_elem? b.txs t ≡ some tx → Keeps x Before address b t tx)
      → ((t : ℕ) (tx : Transaction) → get_elem? b.txs t ≡ some tx → Keeps x After address b t tx)
      → Turns
      → t + d ≡ m
      → drop t b.txs ≡ txs
      → get_elem? txs d ≡ some tx
      → Before qs
      → unspent_txs x address b.index t txs qs ≡ some rs
      → After rs
  unfolding unspent_txs
  txs_meet t d [] qs before after turn at_m rest here h e = absurd (none-ne-some _ here)
  txs_meet t zero (tx' ∷ txs) qs before after turn at_m rest here h e =
      elim (Option-cases (unspent_step x address b.index t tx' qs)) [
        | inl stop ↦ ground arith
        | inr (os, go) ↦
            let same : tx' ≡ tx = some-injective _ _ here in
            let place : t ≡ m = omega arith in
            let (_, next, _) = drop-cons t b.txs rest in
            let t' : t + 1 ≡ suc t = omega arith in
            txs_keep x After address b (t + 1) txs os after (rw t' next)
              (turn qs os h (rw (same, place) at go)) (rw (go, ◌>>=◌) at e)
      ]
  txs_meet t (suc d) (tx' ∷ txs) qs before after turn at_m rest here h e =
      elim (Option-cases (unspent_step x address b.index t tx' qs)) [
        | inl stop ↦ ground arith
        | inr (os, go) ↦
            let (at_t, next, _) = drop-cons t b.txs rest in
            let t' : t + 1 ≡ suc t = omega arith in
            txs_meet (t + 1) d txs os before after turn (omega arith) (rw t' next) here
              (before t tx' at_t qs os h go) (rw (go, ◌>>=◌) at e)
      ]

  -- What every transaction of a chain does to a list.
  abbrev pub AllKeep : Chain → (List TxOutPoint → Type 0) → Type 0
  AllKeep c P =
      (k t : ℕ) (b : Block) (tx : Transaction)
      → get_elem? c.blocks k ≡ some b
      → get_elem? b.txs t ≡ some tx
      → Keeps x P address b t tx

  blocks_meet :
      (c : Chain) (k d : ℕ) (bs : List Block) (qs : List TxOutPoint) {rs : List TxOutPoint}
      → AllKeep c Before
      → AllKeep c After
      → Turns
      → drop k c.blocks ≡ bs
      → get_elem? bs d ≡ some b
      → get_elem? b.txs m ≡ some tx
      → Before qs
      → unspent_blocks x address bs qs ≡ some rs
      → After rs
  unfolding unspent_blocks
  blocks_meet c k d [] qs before after turn rest here at_m h e = absurd (none-ne-some _ here)
  blocks_meet c k zero (b' ∷ bs) qs before after turn rest here at_m h e =
      elim (Option-cases (unspent_txs x address b'.index 0 b'.txs qs)) [
        | inl stop ↦ ground arith
        | inr (os, go) ↦
            let same : b' ≡ b = some-injective _ _ here in
            let (at_k, next, _) = drop-cons k c.blocks rest in
            let at_k' : get_elem? c.blocks k ≡ some b = rw same at at_k in
            blocks_keep x After address c (suc k) bs os after next
              (txs_meet 0 m b.txs qs (λ t tx at_t. before k t b tx at_k' at_t)
                (λ t tx at_t. after k t b tx at_k' at_t) turn (omega arith) refl at_m h
                (rw same at go))
              (rw (go, ◌>>=◌) at e)
      ]
  blocks_meet c k (suc d) (b' ∷ bs) qs before after turn rest here at_m h e =
      elim (Option-cases (unspent_txs x address b'.index 0 b'.txs qs)) [
        | inl stop ↦ ground arith
        | inr (os, go) ↦
            let (at_k, next, _) = drop-cons k c.blocks rest in
            blocks_meet c (suc k) d bs os before after turn next here at_m
              (txs_keep x Before address b' 0 b'.txs qs (λ t tx at_t. before k t b' tx at_k at_t)
                refl h go)
              (rw (go, ◌>>=◌) at e)
      ]

  pub get_unspent_meet :
      (c : Chain) (k : ℕ) {rs : List TxOutPoint}
      → AllKeep c Before
      → AllKeep c After
      → Turns
      → get_elem? c.blocks k ≡ some b
      → get_elem? b.txs m ≡ some tx
      → Before []
      → get_unspent_tx_outs x c address ≡ some rs
      → After rs
  unfolding get_unspent_tx_outs
  get_unspent_meet c k before after turn here at_m h e =
      blocks_meet c 0 k c.blocks [] before after turn refl here at_m h e
