-- ===== src/Tx.antt =====
-- src/Transactions.h and src/Transactions.cpp: outputs, inputs, transactions, their ids, and the
-- codes of `TxResult`. Every number is a `std::uint64_t`, and an amount is a `double`.
pub mod Result
pub mod Json
use ash_coin.Base.{
  ℕ, Bool, ◌&&◌, Option, none, some, List, [], ◌∷◌, ◌++◌, foldl, Text, txt, text_eq, decimal, ◌==◌,
}
use ash_coin.External.{External}

-- 57.00
abbrev pub coinbase_reward : ℕ
coinbase_reward = 0x404c_8000_0000_0000

pub record TxOutPoint : Type 0 where
  pub block_index : ℕ
  pub tx_index : ℕ
  pub tx_out_index : ℕ
  pub address : Option Text
  pub amount : Option ℕ

pub record TxIn : Type 0 where
  pub tx_out_pt : TxOutPoint
  pub signature : Text

pub record TxOut : Type 0 where
  pub address : Text
  pub amount : ℕ

pub record Transaction : Type 0 where
  pub id : Text
  pub tx_ins : List TxIn
  pub tx_outs : List TxOut

-- The constructor of `TxIn` from three numbers and a signature.
abbrev pub new_tx_in : ℕ → ℕ → ℕ → Text → TxIn
new_tx_in b t o s = record {
  tx_out_pt = record {
    block_index = b;
    tx_index = t;
    tx_out_index = o;
    address = none;
    amount = none;
  };
  signature = s;
}

abbrev pub is_empty : Text → Bool
is_empty s = text_eq s []

-- `none` is a failed assertion, on the inputs or on the outputs.
unfoldable pub is_coinbase : Transaction → Option Bool
is_coinbase tx = elim tx.tx_ins [
  | [] ↦ none
  | i ∷ _ ↦ elim tx.tx_outs [
    | [] ↦ none
    | _ ∷ _ ↦
        some (i.tx_out_pt.tx_index == 0 && i.tx_out_pt.tx_out_index == 0 && is_empty i.signature)
  ]
]

abbrev pub point_text : TxOutPoint → Text
point_text p = decimal p.block_index ++ (decimal p.tx_index ++ decimal p.tx_out_index)

-- The two loops of `GetTransactionId`, which append to a stream.
abbrev pub ins_text : List TxIn → Text
ins_text [] = []
ins_text (i ∷ is) = point_text i.tx_out_pt ++ ins_text is

module _ {J : Type 0} (x : External J) where
  open x.double use {show}
  open x.crypto use {sha256, hex_encode}

  abbrev pub outs_text : List TxOut → Text
  outs_text [] = []
  outs_text (o ∷ os) = (o.address ++ show o.amount) ++ outs_text os

  unfoldable pub get_transaction_id : Transaction → ℕ → Text
  get_transaction_id tx blockid =
      hex_encode (sha256 (ins_text tx.tx_ins ++ (outs_text tx.tx_outs ++ decimal blockid)))

  unfoldable pub calculate_id : Transaction → ℕ → Transaction
  unfolding get_transaction_id
  calculate_id tx blockid = record tx { id = get_transaction_id tx blockid }

  -- `emplace_back(blockIdx, 0, 0)` gives the input an empty signature.
  unfoldable pub create_coinbase_transaction : ℕ → Text → Transaction
  unfolding get_transaction_id
  create_coinbase_transaction block_idx address =
      let tx : Transaction = record {
        id = [];
        tx_ins = new_tx_in block_idx 0 0 [] ∷ [];
        tx_outs = (record { address = address; amount = coinbase_reward }) ∷ [];
      } in
      record tx { id = get_transaction_id tx block_idx }
