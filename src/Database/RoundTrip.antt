-- ===== src/Database/RoundTrip.antt =====
-- Blocks as src/ChainDatabase.cpp writes them and reads them.
use ash_coin.Base.{
  ℕ, ◌<◌, ◌^◌, ◌≡◌, refl, none, some, List, [], ◌∷◌, ◌++◌, map, Text, length, All, append_assoc,
  IsInt64, u64_of_int-lt, int_of_u64-u64_of_int,
}
use ash_coin.Tx.{TxOutPoint, TxIn, TxOut, Transaction}
use ash_coin.Block.{Block}
use ash_coin.Database.Bytes.{
  ◌>>=◌, read_nat-write_nat, read_text-write_text, read_vector-write_vector,
  read_vector_from_zero-write_vector,
}
use ash_coin.Database.Codec.{
  write_point, write_tx_in, write_tx_out, write_transaction, write_block, read_point, read_tx_in,
  read_tx_out, read_transaction, read_block,
}

-- A text whose size is a 32-bit number.
abbrev pub IsShort : Text → Type 0
IsShort s = length s < 2 ^ 32

abbrev pub IsWord : ℕ → Type 0
IsWord n = n < 2 ^ 64

-- What the file can hold of each part of a block.
pub record CanStoreIn (i : TxIn) : Type 0 where
  pub block_fits : IsWord i.tx_out_pt.block_index
  pub tx_fits : IsWord i.tx_out_pt.tx_index
  pub out_fits : IsWord i.tx_out_pt.tx_out_index
  pub signature_fits : IsShort i.signature

pub record CanStoreOut (t : TxOut) : Type 0 where
  pub address_fits : IsShort t.address
  pub amount_fits : IsWord t.amount

pub record CanStoreTx (tx : Transaction) : Type 0 where
  pub id_fits : IsShort tx.id
  pub ins_fit : All CanStoreIn tx.tx_ins
  pub outs_fit : All CanStoreOut tx.tx_outs
  pub ins_few : length tx.tx_ins < 2 ^ 32
  pub outs_few : length tx.tx_outs < 2 ^ 32

pub record CanStore (b : Block) : Type 0 where
  pub index_fits : IsWord b.index
  pub nonce_fits : IsWord b.nonce
  pub difficulty_fits : IsWord b.difficulty
  pub time_fits : IsInt64 b.time
  pub payload_fits : IsShort b.payload
  pub hash_fits : IsShort b.hash
  pub prev_fits : IsShort b.prev
  pub miner_fits : IsShort b.miner
  pub txs_fit : All CanStoreTx b.txs
  pub txs_few : length b.txs < 2 ^ 32

-- A block as it comes back: no point has an address or an amount.
abbrev pub stored_in : TxIn → TxIn
stored_in i = record i { tx_out_pt = record (i.tx_out_pt) { address = none; amount = none } }

abbrev pub stored_tx : Transaction → Transaction
stored_tx tx = record tx { tx_ins = map stored_in tx.tx_ins }

abbrev pub stored : Block → Block
stored b = record b { hashed = record (b.hashed) { txs = map stored_tx b.txs } }

point_back :
    (p : TxOutPoint) (rest : Text)
    → IsWord p.block_index
    → IsWord p.tx_index
    → IsWord p.tx_out_index
    → read_point (write_point p ++ rest) ≡ some (record p { address = none; amount = none }, rest)
unfolding read_point write_point
point_back p rest hb ht ho = simp (append_assoc, ◌>>=◌, read_nat-write_nat 8, hb, ht, ho)

tx_in_back :
    (i : TxIn) (rest : Text)
    → CanStoreIn i
    → read_tx_in (write_tx_in i ++ rest) ≡ some (stored_in i, rest)
unfolding read_tx_in write_tx_in
tx_in_back i rest h = rw (
  append_assoc,
  ◌>>=◌,
  point_back i.tx_out_pt _ h.block_fits h.tx_fits h.out_fits,
  ◌>>=◌,
  read_text-write_text i.signature rest h.signature_fits,
)

tx_out_back :
    (t : TxOut) (rest : Text)
    → CanStoreOut t
    → read_tx_out (write_tx_out t ++ rest) ≡ some (t, rest)
unfolding read_tx_out write_tx_out
tx_out_back t rest h =
    simp (
      append_assoc,
      ◌>>=◌,
      read_nat-write_nat 8,
      read_text-write_text,
      h.address_fits,
      h.amount_fits,
    )

map_same : {A : Type 0} (xs : List A) → map (λ (a : A). a) xs ≡ xs
map_same [] = refl
map_same (x ∷ xs) = rw (map_same xs)

transaction_back :
    (tx : Transaction) (rest : Text)
    → CanStoreTx tx
    → read_transaction (write_transaction tx ++ rest) ≡ some (stored_tx tx, rest)
unfolding read_transaction write_transaction
transaction_back tx rest h = simp (
  append_assoc,
  ◌>>=◌,
  read_text-write_text,
  h.id_fits,
  read_vector-write_vector write_tx_in read_tx_in CanStoreIn stored_in tx_in_back,
  h.ins_fit,
  h.ins_few,
  read_vector-write_vector write_tx_out read_tx_out CanStoreOut (λ t. t) tx_out_back,
  h.outs_fit,
  h.outs_few,
  map_same,
)

-- A block that the file can hold comes back from what `write_block` wrote, followed by anything, with
-- what follows left over; the addresses and amounts that its inputs carried are gone.
pub read_block-write_block :
    (b : Block) (rest : Text)
    → CanStore b
    → read_block (write_block b ++ rest) ≡ some (stored b, rest)
unfolding read_block write_block
read_block-write_block b rest h = simp (
  append_assoc,
  ◌>>=◌,
  read_nat-write_nat 8,
  read_text-write_text,
  h.index_fits,
  h.nonce_fits,
  h.difficulty_fits,
  h.payload_fits,
  u64_of_int-lt,
  int_of_u64-u64_of_int b.time h.time_fits,
  h.hash_fits,
  h.prev_fits,
  h.miner_fits,
  read_vector_from_zero-write_vector write_transaction read_transaction CanStoreTx stored_tx
      transaction_back,
  h.txs_fit,
  h.txs_few,
)
