-- ===== src/Database/Codec.antt =====
-- How src/ChainDatabase.cpp writes a block and reads it. The address and the amount of a point are
-- not written, and a point that is read has none.
use ash_coin.Base.{none, ◌++◌, u64_of_int, int_of_u64, Text}
use ash_coin.Tx.{TxOutPoint, TxIn, TxOut, Transaction}
use ash_coin.Block.{Block}
use ash_coin.Database.Bytes.{
  Reader, ◌>>=◌, pure, write_u64, read_u64, write_text, read_text, write_vector, read_vector,
  read_vector_from_zero,
}

unfoldable pub write_point : TxOutPoint → Text
write_point p = write_u64 p.block_index ++ (write_u64 p.tx_index ++ write_u64 p.tx_out_index)

unfoldable pub write_tx_in : TxIn → Text
write_tx_in i = write_point i.tx_out_pt ++ write_text i.signature

unfoldable pub write_tx_out : TxOut → Text
write_tx_out t = write_text t.address ++ write_u64 t.amount

unfoldable pub write_transaction : Transaction → Text
write_transaction tx =
    write_text tx.id ++ (write_vector write_tx_in tx.tx_ins ++ write_vector write_tx_out tx.tx_outs)

unfoldable pub write_block : Block → Text
write_block b =
    write_u64 b.index
    ++ (write_u64 b.nonce
        ++ (write_u64 b.difficulty
            ++ (write_text b.payload
                ++ (write_u64 (u64_of_int b.time)
                    ++ (write_text b.hash
                        ++ (write_text b.prev
                            ++ (write_text b.miner ++ write_vector write_transaction b.txs)))))))

unfoldable pub read_point : Reader TxOutPoint
read_point = do
  b ← read_u64
  t ← read_u64
  i ← read_u64
  pure (record { block_index = b; tx_index = t; tx_out_index = i; address = none; amount = none })

unfoldable pub read_tx_in : Reader TxIn
read_tx_in = do p ← read_point; s ← read_text; pure (record { tx_out_pt = p; signature = s })

unfoldable pub read_tx_out : Reader TxOut
read_tx_out = do a ← read_text; d ← read_u64; pure (record { address = a; amount = d })

unfoldable pub read_transaction : Reader Transaction
read_transaction = do
  i ← read_text
  ins ← read_vector read_tx_in
  outs ← read_vector read_tx_out
  pure (record { id = i; tx_ins = ins; tx_outs = outs })

unfoldable pub read_block : Reader Block
read_block = do
  i ← read_u64
  n ← read_u64
  d ← read_u64
  s ← read_text
  t ← read_u64
  h ← read_text
  p ← read_text
  m ← read_text
  ts ← read_vector_from_zero read_transaction
  pure (record {
    hashed = record {
      index = i;
      nonce = n;
      difficulty = d;
      payload = s;
      time = int_of_u64 t;
      prev = p;
      txs = ts;
    };
    hash = h;
    miner = m;
  })
