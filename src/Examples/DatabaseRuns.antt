-- ===== src/Examples/DatabaseRuns.antt =====
-- Runs of the file of blocks, of hashes and of Base58.
use ash_coin.Base.{
  ◌<◌, ◌^◌, ℕ, pos, int_of_u64, none, All, u64_of_int, ◌≡◌, refl, true, some, [], ◌∷◌, ◌++◌, Text,
  txt, arith,
}
use ash_coin.Chain.{empty_chain}
use ash_coin.Database.Codec.{write_block, read_block}
use ash_coin.Database.RoundTrip.{IsShort, CanStore, CanStoreTx, read_block-write_block}
use ash_coin.Database.Load.{write_blocks, loaded, initialize, write_chain, reset}
use ash_coin.Database.Load.Reload.{initialize-write_chain}
use ash_coin.Examples.ChainRuns.{valid_two}
use ash_coin.Database.Load.Whole.{IsHeldBy, initialize-loads}
use ash_coin.Database.Takes.{IsByte, all_bytes, all_bytes-IsByte}
use ash_coin.Database.Bytes.{
  read_text, read_chars, read_nat, read_vector_from_zero, read_nat_from_zero, read_times, write_u64,
  write_u32, write_nat, write_text, write_vector, write_all,
}
use ash_coin.Database.Codec.{write_transaction, write_tx_in, write_tx_out, write_point}
use ash_coin.CryptoUtils.Base58.{base58_decode, base58_decode-base58_encode}
use ash_coin.CryptoUtils.{base58_encode}
use ash_coin.Examples.{small, genesis, second, two_blocks, block_at, reward}

reward-CanStoreTx : (n : ℕ) → n < 2 ^ 64 → CanStoreTx (reward n)
reward-CanStoreTx n h = record {
  id_fits = omega arith;
  ins_fit = (
    record {
      block_fits = h;
      tx_fits = omega arith;
      out_fits = omega arith;
      signature_fits = omega arith;
    },
    tt,
  );
  outs_fit = (record { address_fits = omega arith; amount_fits = omega arith }, tt);
  ins_few = omega arith;
  outs_few = omega arith;
}

rewarding-CanStore :
    (i : ℕ) (prev hash : Text)
    → i < 2 ^ 64
    → IsShort prev
    → IsShort hash
    → CanStore (block_at i 0 prev hash (reward i ∷ []))
rewarding-CanStore i prev hash h p q = record {
  index_fits = h;
  nonce_fits = omega arith;
  difficulty_fits = omega arith;
  time_fits = ground arith;
  payload_fits = omega arith;
  hash_fits = q;
  prev_fits = p;
  miner_fits = omega arith;
  txs_fit = (reward-CanStoreTx i h, tt);
  txs_few = omega arith;
}

pub genesis-CanStore : CanStore genesis
genesis-CanStore = rewarding-CanStore 0 [] (txt "0") (omega arith) (omega arith) (omega arith)

pub second-CanStore : CanStore second
second-CanStore = rewarding-CanStore 1 (txt "0") (txt "9") (omega arith) (omega arith) (omega arith)

read_block-write_block_example :
    read_block (write_block genesis ++ txt "more") ≡ some (genesis, txt "more")
read_block-write_block_example = read_block-write_block genesis (txt "more") genesis-CanStore

pub two_blocks-IsByte : All IsByte (write_blocks two_blocks.blocks)
unfolding all_bytes write_blocks write_block write_text write_vector write_transaction write_all
    write_nat write_tx_in write_tx_out write_point u64_of_int
two_blocks-IsByte = all_bytes-IsByte (write_blocks two_blocks.blocks) refl

loads_two :
    initialize small true second (some (write_blocks two_blocks.blocks)) empty_chain
    ≡ some (loaded two_blocks, some (write_blocks two_blocks.blocks))
unfolding write_chain reset
loads_two =
    initialize-write_chain small second two_blocks none (genesis-CanStore, (second-CanStore, tt))
      refl valid_two

-- A block whose miner is cut short, and whose number of transactions is not there, is read.
abbrev cut : Text
cut =
    write_u64 0
    ++ (write_u64 0
        ++ (write_u64 0
            ++ (write_u32 0
                ++ (write_u64 0 ++ (write_u32 0 ++ (write_u32 0 ++ (write_u32 2 ++ txt "m")))))))

cut_is_read :
    read_block cut
    ≡ some (
      record (block_at 0 0 [] [] []) {
        hashed = record {
          index = 0;
          nonce = 0;
          difficulty = 0;
          payload = [];
          time = pos 0;
          prev = [];
          txs = [];
        };
        hash = [];
        miner = txt "m" ++ (0 ∷ []);
      },
      [],
    )
unfolding read_block read_text read_chars read_nat read_vector_from_zero read_nat_from_zero
    read_times write_nat int_of_u64
cut_is_read = refl

initialize-loads_example :
    IsHeldBy small (write_blocks two_blocks.blocks) two_blocks
    × (initialize small true second (some (write_blocks two_blocks.blocks)) empty_chain
        ≡ some (loaded two_blocks, some (write_blocks two_blocks.blocks)))
initialize-loads_example =
    initialize-loads small second (write_blocks two_blocks.blocks) two_blocks two_blocks-IsByte
      loads_two

base58_decode-base58_encode_example : base58_decode (base58_encode 3364) ≡ 3364
base58_decode-base58_encode_example = base58_decode-base58_encode 3364
