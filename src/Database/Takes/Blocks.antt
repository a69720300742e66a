-- ===== src/Database/Takes/Blocks.antt =====
-- What the readers of src/ChainDatabase.cpp for the parts of a block take off a stream of bytes. A
-- block that is read has no address and no amount in its inputs, so it comes back as it is.
use ash_coin.Base.{
  ◌≡◌, refl, ap, List, [], ◌∷◌, map, All, All-map, append_assoc, u64_of_int-int_of_u64,
  int_of_u64-IsInt64, none,
}
use ash_coin.Tx.{TxOutPoint, TxIn, Transaction}
use ash_coin.Block.{Block}
use ash_coin.Database.Codec.{
  write_point, write_tx_in, write_tx_out, write_transaction, write_block, read_point, read_tx_in,
  read_tx_out, read_transaction, read_block,
}
use ash_coin.Database.RoundTrip.{
  IsWord, CanStoreIn, CanStoreOut, CanStoreTx, CanStore, stored_in, stored_tx, stored,
}
use ash_coin.Database.Takes.{
  Takes, bind-Takes, pure-Takes, read_nat-Takes, read_text-Takes, read_vector-Takes,
  read_vector_from_zero-Takes,
}

-- What comes back as it is.
abbrev IsBareIn : TxIn → Type 0
IsBareIn i = CanStoreIn i × (stored_in i ≡ i)

abbrev IsBareTx : Transaction → Type 0
IsBareTx tx = CanStoreTx tx × (stored_tx tx ≡ tx)

abbrev pub IsBare : Block → Type 0
IsBare b = CanStore b × (stored b ≡ b)

pub All-first : {A : Type 0} (P Q : A → Type 0) (xs : List A) → All (λ a. P a × Q a) xs → All P xs
All-first P Q xs ps = All-map (λ a (p, _). p) xs ps

pub map_bare :
    {A : Type 0} (P : A → Type 0) (f : A → A) (xs : List A)
    → All (λ a. P a × (f a ≡ a)) xs
    → map f xs ≡ xs
map_bare P f [] _ = refl
map_bare P f (x ∷ xs) ((_, e), ps) = rw (e, map_bare P f xs ps) refl

abbrev IsBarePoint : TxOutPoint → Type 0
IsBarePoint p =
    IsWord p.block_index
    × IsWord p.tx_index
    × IsWord p.tx_out_index
    × (record p { address = none; amount = none } ≡ p)

read_point-Takes : Takes [] read_point write_point IsBarePoint
unfolding read_point write_point
read_point-Takes = bind-Takes (read_nat-Takes 8) (λ b b_fits.
    bind-Takes (read_nat-Takes 8) (λ t t_fits.
      bind-Takes (read_nat-Takes 8)
        (λ i i_fits. pure-Takes (simp append_assoc) (b_fits, t_fits, i_fits, refl))))

read_tx_in-Takes : Takes [] read_tx_in write_tx_in IsBareIn
unfolding read_tx_in write_tx_in
read_tx_in-Takes = bind-Takes read_point-Takes (λ p (b, t, i, bare).
    bind-Takes read_text-Takes (λ s short. pure-Takes refl (
      record { block_fits = b; tx_fits = t; out_fits = i; signature_fits = short },
      ap (λ (q : TxOutPoint). record { tx_out_pt = q; signature = s }) bare,
    )))

read_tx_out-Takes : Takes [] read_tx_out write_tx_out CanStoreOut
unfolding read_tx_out write_tx_out
read_tx_out-Takes = bind-Takes read_text-Takes (λ a short.
    bind-Takes (read_nat-Takes 8)
      (λ d word. pure-Takes refl (record { address_fits = short; amount_fits = word })))

read_transaction-Takes : Takes [] read_transaction write_transaction IsBareTx
unfolding read_transaction write_transaction
read_transaction-Takes = bind-Takes read_text-Takes (λ i short.
    bind-Takes (read_vector-Takes read_tx_in-Takes) (λ ins (ins_few, ins_fit).
      bind-Takes (read_vector-Takes read_tx_out-Takes) (λ outs (outs_few, outs_fit).
        pure-Takes (simp append_assoc) (
          record {
            id_fits = short;
            ins_fit = All-first CanStoreIn (λ i. stored_in i ≡ i) ins ins_fit;
            outs_fit = outs_fit;
            ins_few = ins_few;
            outs_few = outs_few;
          },
          rw (map_bare CanStoreIn stored_in ins ins_fit) refl,
        ))))

-- A block that is read from bytes can be stored as it is, and was in the stream as `write_block`
-- writes it, but for zeros at its end.
pub read_block-Takes : Takes [] read_block write_block IsBare
unfolding read_block write_block
read_block-Takes = bind-Takes (read_nat-Takes 8) (λ i i_fits.
    bind-Takes (read_nat-Takes 8) (λ n n_fits. bind-Takes (read_nat-Takes 8) (λ d d_fits.
      bind-Takes read_text-Takes (λ s s_fits. bind-Takes (read_nat-Takes 8) (λ t t_fits.
        bind-Takes read_text-Takes (λ h h_fits. bind-Takes read_text-Takes (λ p p_fits.
          bind-Takes read_text-Takes (λ m m_fits.
            bind-Takes (read_vector_from_zero-Takes read_transaction-Takes) (λ txs (few, fit).
              pure-Takes (simp (append_assoc, u64_of_int-int_of_u64 t t_fits)) (
                record {
                  index_fits = i_fits;
                  nonce_fits = n_fits;
                  difficulty_fits = d_fits;
                  time_fits = int_of_u64-IsInt64 t t_fits;
                  payload_fits = s_fits;
                  hash_fits = h_fits;
                  prev_fits = p_fits;
                  miner_fits = m_fits;
                  txs_fit = All-first CanStoreTx (λ tx. stored_tx tx ≡ tx) txs fit;
                  txs_few = few;
                },
                rw (map_bare CanStoreTx stored_tx txs fit) refl,
              ))))))))))
