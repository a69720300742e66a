-- ===== src/Chain/Create.antt =====
-- `CreateTransaction` of src/Blockchain.cpp.
pub mod Spends
pub mod Filled
pub mod Settled
use ash_coin.Base.{
  ℕ, true, false, Option, some, List, [], ◌∷◌, ◌++◌, map, Text, txt, ◌>>=◌, if◌then◌else◌,
}
use ash_coin.External.{External}
use ash_coin.CryptoUtils.{get_address_from_private_key}
use ash_coin.Tx.{TxOutPoint, TxIn, TxOut, Transaction, new_tx_in}
use ash_coin.Tx.Result.{TxResult, success, insufficient_funds, txouts_empty, noop_transaction}
use ash_coin.Chain.{Chain}
use ash_coin.Chain.Unspent.{get_unspent_tx_outs}

abbrev pub empty_transaction : Transaction
empty_transaction = record { id = []; tx_ins = []; tx_outs = [] }

-- The outputs that are gathered, their sum, and what is left over of it.
pub record Gathered : Type 0 where
  pub included : List TxOutPoint
  pub current : ℕ
  pub leftover : ℕ

abbrev pub spend : TxOutPoint → TxIn
spend p = new_tx_in p.block_index p.tx_index p.tx_out_index (txt "signature")

abbrev pub nothing_gathered : Gathered
nothing_gathered = record { included = []; current = 0; leftover = 0 }

module _ {J : Type 0} (x : External J) where
  open x.double use {add, sub, le, lt}

  -- The loop over the unspent outputs of the sender, which ends early when the sum is enough.
  unfoldable pub gather : ℕ → List TxOutPoint → Gathered → Option Gathered
  gather amount [] g = some g
  gather amount (p ∷ ps) g = p.amount >>= λ d.
      let current = add g.current d in
      let included = g.included ++ (p ∷ []) in
      elim (le amount current) [
        | true ↦
            some (record { included = included; current = current; leftover = sub current amount })
        | false ↦
            gather amount ps
              (record { included = included; current = current; leftover = g.leftover })
      ]

  -- The outputs of the new transaction: the payment, and the change if there is any.
  unfoldable pub payment : (sender receiver : Text) → (amount leftover : ℕ) → List TxOut
  payment sender receiver amount leftover =
      let paid : TxOut = record { address = receiver; amount = amount } in
      let change : TxOut = record { address = sender; amount = leftover } in
      if lt 0 leftover then paid ∷ (change ∷ []) else paid ∷ []

  abbrev pub built : (sender receiver : Text) → ℕ → Gathered → Transaction
  built sender receiver amount g = record {
    id = [];
    tx_ins = map spend g.included;
    tx_outs = payment sender receiver amount g.leftover;
  }

  -- From the unspent outputs of the sender on.
  unfoldable pub spend_unspent :
      (sender receiver : Text) → ℕ → List TxOutPoint → Option (TxResult × Transaction)
  unfolding gather payment
  spend_unspent sender receiver amount [] = some (txouts_empty, empty_transaction)
  spend_unspent sender receiver amount (p ∷ ps) = gather amount (p ∷ ps) nothing_gathered >>= λ g.
      if lt g.current amount
      then some (insufficient_funds, empty_transaction)
      else some (success, built sender receiver amount g)

  -- `CreateTransaction`
  unfoldable pub create_transaction :
      Chain → (sender_pk receiver : Text) → ℕ → Option (TxResult × Transaction)
  unfolding spend_unspent
  create_transaction c sender_pk receiver amount =
      let sender = get_address_from_private_key x.crypto sender_pk in
      if x.boost.iequals receiver sender
      then some (noop_transaction, empty_transaction)
      else (get_unspent_tx_outs x c sender >>= spend_unspent sender receiver amount)
