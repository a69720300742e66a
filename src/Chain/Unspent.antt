-- ===== src/Chain/Unspent.antt =====
-- `GetUnspentTxOuts` of src/Blockchain.cpp. The `std::set` is ordered by the hash of a point, so it is
-- a list with rising hashes, and points with one hash count as one. `none` is a failed assertion.
pub mod Keep
pub mod Meets
pub mod Sorted
pub mod Sound
pub mod Spent
pub mod Kept
use ash_coin.Base.{
  ℕ, ◌+◌, Bool, not, ◌&&◌, Option, some, List, [], ◌∷◌, Text, text_eq, ltb, ◌==◌, ◌>>=◌,
  if◌then◌else◌,
}
use ash_coin.External.{External, Boost}
use ash_coin.Tx.{TxOutPoint, TxIn, TxOut, Transaction, is_coinbase, is_empty}
use ash_coin.Block.{Block}
use ash_coin.Chain.{Chain}

-- `std::hash<ash::TxOutPoint>`; the hash of a `std::uint64_t` is the number.
unfoldable pub hash_point : Boost → TxOutPoint → ℕ
hash_point boost p =
    boost.hash_combine (boost.hash_combine (boost.hash_combine 0 p.block_index) p.tx_index)
      p.tx_out_index

-- The two points name one output.
unfoldable pub same_point : TxOutPoint → TxOutPoint → Bool
same_point p q =
    p.block_index == q.block_index && (p.tx_index == q.tx_index && p.tx_out_index == q.tx_out_index)

-- `outs.erase` of the first point that `find_if` finds, if there is one.
unfoldable pub erase_point : TxOutPoint → List TxOutPoint → List TxOutPoint
unfolding same_point
erase_point p [] = []
erase_point p (q ∷ qs) = if same_point p q then qs else q ∷ erase_point p qs

-- The loop over the inputs of a transaction.
unfoldable pub spend_ins : List TxIn → List TxOutPoint → List TxOutPoint
unfolding erase_point
spend_ins [] outs = outs
spend_ins (i ∷ is) outs = spend_ins is (erase_point i.tx_out_pt outs)

-- The point that is put into the set for an output.
abbrev pub new_point : (block_index tx_index out_index : ℕ) → TxOut → TxOutPoint
new_point b t i out = record {
  block_index = b;
  tx_index = t;
  tx_out_index = i;
  address = some out.address;
  amount = some out.amount;
}

-- The outputs of a transaction that are passed over.
abbrev pub is_skipped : Text → TxOut → Bool
is_skipped address out = not (is_empty address) && not (text_eq out.address address)

module _ {J : Type 0} (x : External J) where
  -- `std::set::insert`
  unfoldable pub insert_point : TxOutPoint → List TxOutPoint → List TxOutPoint
  unfolding hash_point
  insert_point p [] = p ∷ []
  insert_point p (q ∷ qs) =
      if ltb (hash_point x.boost p) (hash_point x.boost q)
      then p ∷ (q ∷ qs)
      else if ltb (hash_point x.boost q) (hash_point x.boost p)
      then q ∷ insert_point p qs
      else q ∷ qs

  -- The loop over the outputs of a transaction.
  unfoldable pub add_outs :
      Text → (block_index tx_index out_index : ℕ) → List TxOut → List TxOutPoint → List TxOutPoint
  unfolding insert_point
  add_outs address b t i [] outs = outs
  add_outs address b t i (out ∷ rest) outs =
      add_outs address b t (i + 1) rest
        (if is_skipped address out then outs else insert_point (new_point b t i out) outs)

  -- One transaction.
  unfoldable pub unspent_step :
      Text → (block_index tx_index : ℕ) → Transaction → List TxOutPoint → Option (List TxOutPoint)
  unfolding add_outs spend_ins
  unspent_step address b t tx outs = do
    coinbase ← is_coinbase tx
    let added = add_outs address b t 0 tx.tx_outs outs
    some (if coinbase then added else spend_ins tx.tx_ins added)

  unfoldable pub unspent_txs :
      Text
      → (block_index tx_index : ℕ) → List Transaction
      → List TxOutPoint
      → Option (List TxOutPoint)
  unfolding unspent_step
  unspent_txs address b t [] outs = some outs
  unspent_txs address b t (tx ∷ txs) outs =
      unspent_step address b t tx outs >>= unspent_txs address b (t + 1) txs

  unfoldable pub unspent_blocks : Text → List Block → List TxOutPoint → Option (List TxOutPoint)
  unfolding unspent_txs
  unspent_blocks address [] outs = some outs
  unspent_blocks address (b ∷ bs) outs =
      unspent_txs address b.index 0 b.txs outs >>= unspent_blocks address bs

  -- `GetUnspentTxOuts`; the empty address asks for all.
  unfoldable pub get_unspent_tx_outs : Chain → Text → Option (List TxOutPoint)
  unfolding unspent_blocks
  get_unspent_tx_outs c address = unspent_blocks address c.blocks []
