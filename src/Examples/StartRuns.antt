-- ===== src/Examples/StartRuns.antt =====
-- Runs of nodes that start.
use ash_coin.Base.{
  decimal, decimal_ℤ, lookup, ◌≡◌, ◌≢◌, false, refl, true, none, some, [], ◌∷◌, txt, arith, pos,
}
use ash_coin.Tx.{get_transaction_id, create_coinbase_transaction}
use ash_coin.Block.{
  calculate_block_hash, hash_of, sha256_text, extra_of, new_block, set_miner, set_payload,
}
use ash_coin.Database.Load.{write_blocks}
use ash_coin.Database.Load.Whole.{IsHeldBy}
use ash_coin.Chain.Chained.{IsChained}
use ash_coin.Database.Bytes.{write_nat}
use ash_coin.Database.Codec.{write_block}
use ash_coin.App.Start.AnyFile.{run_file-Reaches}
use ash_coin.Settings.Registered.{http_port_default, ws_port_default}
use ash_coin.Settings.{value_bool, value_u32}
use ash_coin.Database.RoundTrip.{CanStore}
use ash_coin.Settings.{Settings, string, value_string}
use ash_coin.ComputerId.{get_uuid, set_custom_data}
use ash_coin.App.{App}
use ash_coin.App.InStep.{IsWhole}
use ash_coin.App.Runs.{here}
use ash_coin.App.Start.{World, node_of, init_peers, run, reward_of, uuid_of, genesis_block}
use ash_coin.App.Start.Restart.{up_with, fresh, fresh_chain, fresh_file, run_restarts, run-Reaches}
use ash_coin.Examples.{small, genesis, two_blocks}
use ash_coin.Examples.ChainRuns.{valid_two}
use ash_coin.Examples.DatabaseRuns.{genesis-CanStore, second-CanStore, two_blocks-IsByte}

abbrev pub world : World
world = record {
  now = pos 5;
  stamp = txt "today";
  sha1 = λ s. s;
  host_name = txt "h";
  opens = true;
  trim = λ s. s;
  lines = λ f. [];
}

abbrev with_wallet : Settings
with_wallet = record {
  settings = (txt "mining.miner.address", string (txt "w")) ∷ [];
  defaults = [];
  validators = [];
}

abbrev node : App
node = record {
  chain = two_blocks;
  temp = none;
  file = some (write_blocks two_blocks.blocks);
  mining_done = true;
  finished = true;
  difficulty = 0;
}

run_restarts_example :
    run small world with_wallet node.file ≡ some (up_with world with_wallet two_blocks node.file)
unfolding value_string lookup reward_of
run_restarts_example =
    run_restarts small world with_wallet node (write_blocks two_blocks.blocks) refl refl
      (tt, tt, refl) refl (genesis-CanStore, (second-CanStore, tt)) refl valid_two

restarted :
    run small world with_wallet (some (write_blocks two_blocks.blocks))
    ≡ some (up_with world with_wallet two_blocks node.file)
unfolding value_string lookup reward_of
restarted =
    run_restarts small world with_wallet node (write_blocks two_blocks.blocks) refl refl
      (tt, tt, refl) refl (genesis-CanStore, (second-CanStore, tt)) refl valid_two

some_byte : write_blocks two_blocks.blocks ≢ []
unfolding write_blocks write_block write_nat
some_byte = λ e. ground arith

run_file-Reaches_example :
    IsHeldBy small (write_blocks two_blocks.blocks) two_blocks
    × IsWhole (node_of false two_blocks node.file).app
    × IsChained small two_blocks.blocks
unfolding value_bool value_u32 lookup
run_file-Reaches_example =
    run_file-Reaches small world with_wallet genesis true (write_blocks two_blocks.blocks)
      (node_of false two_blocks node.file) (init_peers world with_wallet) http_port_default
      ws_port_default (record { node = node_of false two_blocks node.file; mining = none })
      two_blocks-IsByte some_byte restarted refl here

fresh-CanStore : CanStore (genesis_block small world with_wallet)
unfolding genesis_block uuid_of get_uuid set_custom_data reward_of value_string lookup set_payload
    set_miner new_block create_coinbase_transaction get_transaction_id calculate_block_hash hash_of
    sha256_text extra_of decimal decimal_ℤ
fresh-CanStore = record {
  index_fits = omega arith;
  nonce_fits = omega arith;
  difficulty_fits = omega arith;
  time_fits = ground arith;
  payload_fits = omega arith;
  hash_fits = omega arith;
  prev_fits = omega arith;
  miner_fits = omega arith;
  txs_fit = (
    record {
      id_fits = omega arith;
      ins_fit = (
        record {
          block_fits = omega arith;
          tx_fits = omega arith;
          out_fits = omega arith;
          signature_fits = omega arith;
        },
        tt,
      );
      outs_fit = (record { address_fits = omega arith; amount_fits = omega arith }, tt);
      ins_few = omega arith;
      outs_few = omega arith;
    },
    tt,
  );
  txs_few = omega arith;
}

run-Reaches_example :
    (run small world with_wallet none
      ≡ some (
          up_with world with_wallet
            (fresh_chain small world with_wallet)
            (fresh_file small world with_wallet)))
    × IsWhole (fresh small world with_wallet).node.app
    × IsChained small (fresh small world with_wallet).node.app.chain.blocks
unfolding value_string lookup reward_of genesis_block set_payload set_miner new_block
    create_coinbase_transaction
run-Reaches_example =
    run-Reaches small world with_wallet genesis true (fresh small world with_wallet) refl refl
      fresh-CanStore refl here
