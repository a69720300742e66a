-- ===== src/Chain/Unspent/Sound.antt =====
-- Where the points of `GetUnspentTxOuts` come from.
use ash_coin.Base.{
  ℕ, suc, ◌+◌, ◌≡◌, refl, true, false, some, List, [], ◌∷◌, All, Text, arith, Bool-cases,
  Option-cases, inl, inr, ◌>>=◌, get_elem?, drop, drop-cons,
}
use mathlib.Core.Option.{some-injective}
use ash_coin.External.{External}
use ash_coin.Tx.{TxOutPoint, TxOut, Transaction, is_coinbase}
use ash_coin.Block.{Block}
use ash_coin.Chain.{Chain}
use ash_coin.Chain.Unspent.{new_point, is_skipped, add_outs, unspent_step, get_unspent_tx_outs}
use ash_coin.Chain.Unspent.Keep.{get_unspent_keep}
use ash_coin.Chain.Unspent.Sorted.{insert_point-All, spend_ins-All}

-- The point is that of an output of the chain, with the index of its block, the places of its
-- transaction and of itself, its address and its amount; and the output is to the address that was
-- asked for, if one was.
pub record IsOutput (c : Chain) (wanted : Text) (p : TxOutPoint) : Type 0 where
  pub place : ℕ
  pub block : Block
  pub tx : Transaction
  pub out : TxOut
  pub block_at : get_elem? c.blocks place ≡ some block
  pub tx_at : get_elem? block.txs p.tx_index ≡ some tx
  pub out_at : get_elem? tx.tx_outs p.tx_out_index ≡ some out
  pub index_right : p.block_index ≡ block.index
  pub address_right : p.address ≡ some out.address
  pub amount_right : p.amount ≡ some out.amount
  pub asked_for : is_skipped wanted out ≡ false

module _ {J : Type 0} (x : External J) (P : TxOutPoint → Type 0) (address : Text) where
  add_outs-All :
      (b t i : ℕ) (tx : Transaction) (os : List TxOut) (qs : List TxOutPoint)
      → ((i : ℕ) (o : TxOut)
          → get_elem? tx.tx_outs i ≡ some o
          → is_skipped address o ≡ false
          → P (new_point b t i o))
      → drop i tx.tx_outs ≡ os
      → All P qs
      → All P (add_outs x address b t i os qs)
  unfolding add_outs
  add_outs-All b t i tx [] qs new d h = h
  add_outs-All b t i tx (o ∷ os) qs new d h =
      let (here, next, _) = drop-cons i tx.tx_outs d in
      let i' : i + 1 ≡ suc i = omega arith in
      elim (Bool-cases (is_skipped address o)) [
        | inl skip ↦ rw skip (add_outs-All b t (i + 1) tx os qs new (rw i' next) h)
        | inr take_it ↦ rw take_it (
            add_outs-All b t (i + 1) tx os _ new (rw i' next)
              (insert_point-All x P (new_point b t i o) qs (new i o here take_it) h))
      ]

  pub unspent_step-All :
      (b t : ℕ) (tx : Transaction) (qs rs : List TxOutPoint)
      → ((i : ℕ) (o : TxOut)
          → get_elem? tx.tx_outs i ≡ some o
          → is_skipped address o ≡ false
          → P (new_point b t i o))
      → All P qs
      → unspent_step x address b t tx qs ≡ some rs
      → All P rs
  unfolding unspent_step
  unspent_step-All b t tx qs rs new h e =
      let added = add_outs-All b t 0 tx tx.tx_outs qs new refl h in
      elim (Option-cases (is_coinbase tx)) [
        | inl stop ↦ ground arith
        | inr (true, go) ↦ rw (← some-injective _ _ (rw (go, ◌>>=◌) at e)) added
        | inr (false, go) ↦
            rw (← some-injective _ _ (rw (go, ◌>>=◌) at e)) (spend_ins-All P tx.tx_ins _ added)
      ]

module _ {J : Type 0} (x : External J) where
  -- Each point that `GetUnspentTxOuts` returns is an output of the chain, with its own address and
  -- amount, and to the address that was asked for, if one was.
  pub get_unspent_tx_outs-IsOutput :
      (c : Chain) (address : Text) (rs : List TxOutPoint)
      → get_unspent_tx_outs x c address ≡ some rs
      → All (IsOutput c address) rs
  get_unspent_tx_outs-IsOutput c address rs e =
      get_unspent_keep x (All (IsOutput c address)) address c
        (λ k t b tx qs os at_k at_t h go.
          unspent_step-All x (IsOutput c address) address b.index t tx qs os
            (λ i o at_i asked. record {
              place = k;
              block = b;
              tx = tx;
              out = o;
              block_at = at_k;
              tx_at = at_t;
              out_at = at_i;
              index_right = refl;
              address_right = refl;
              amount_right = refl;
              asked_for = asked;
            })
            h go)
        tt e
