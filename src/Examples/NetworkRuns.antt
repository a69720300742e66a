-- ===== src/Examples/NetworkRuns.antt =====
-- Runs of nodes over their time, and of what they send to one another.
use ash_coin.Base.{
  decimal, decimal_ℤ, ◌≡◌, refl, true, false, none, some, List, [], ◌∷◌, txt, arith, ◌>>=◌, length,
  text_eq, if◌then◌else◌,
}
use ash_coin.External.{External, IsJson, object, array}
use ash_coin.Block.{
  Block, valid_hash, calculate_block_hash, hash_of, sha256_text, extra_of, has_zeros,
}
use ash_coin.Chain.{Chain, is_valid_chain}
use ash_coin.Database.Load.{content, write_blocks, read_blocks}
use ash_coin.Database.Load.Store.{
  call_write, call_reset, call_write_chain, Call, run_calls, run_calls_refines, file_of,
}
use ash_coin.Chain.Valid.{is_valid_chain_iff}
use ash_coin.Examples.ChainRuns.{valid_two}
use ash_coin.App.Chained.{IsSound}
use ash_coin.App.Runs.Chained.{Reaches-IsSound}
use ash_coin.Chain.Chained.{IsLinked-IsChained}
use ash_coin.App.{App}
use ash_coin.App.Extends.{written}
use ash_coin.App.InStep.{IsWhole}
use ash_coin.App.Messages.{response, answer_range, range_json, handle_chain, on_chain_message}
use ash_coin.App.Messages.CatchUp.{IsBehind, sent_chain, handle_chain-answer_range}
use ash_coin.App.Messages.Wire.{wire, tagged, on_chain_message-wire}
use ash_coin.App.Rest.Control.{stop_mining}
use ash_coin.App.Rest.Serve.{serve, get_start_mining}
use ash_coin.App.Runs.{Running, request, stop_begins, Reaches, here, next}
use ash_coin.App.Runs.Whole.{Reaches-IsWhole}
use ash_coin.Tx.Json.{transactions_to_json}
use ash_coin.Block.Json.{IsBlock, block_to_json}
use ash_coin.Examples.Json.{JsonValue, json_ops, json_ops-IsJson}
use ash_coin.Examples.{small, genesis, second, two_blocks, block_at}
use ash_coin.Examples.DatabaseRuns.{genesis-CanStore, second-CanStore}

abbrev idle : Running
idle = record {
  node = record {
    app = record {
      chain = two_blocks;
      temp = none;
      file = some (write_blocks two_blocks.blocks);
      mining_done = true;
      finished = false;
      difficulty = 0;
    };
    joinable = false;
    keep_trying = true;
  };
  mining = none;
}

abbrev started : Running
started = record idle {
  node = record (idle.node) {
    app = record (idle.node.app) { mining_done = false };
    joinable = true;
  };
}

-- Mining is started, and is about to be stopped.
started-Reaches :
    Reaches small genesis true idle (record started { node = stop_mining started.node })
unfolding serve
started-Reaches =
    next (next here (request get_start_mining idle _ started.node refl refl))
      (stop_begins started refl)

Reaches-IsWhole_example : IsWhole (stop_mining started.node).app
Reaches-IsWhole_example = Reaches-IsWhole small genesis true (tt, tt, refl) started-Reaches

idle-IsSound : IsSound small idle.node.app
idle-IsSound = (
  IsLinked-IsChained small two_blocks.blocks
      ((is_valid_chain_iff small two_blocks).1.0 valid_two).0,
  tt,
)

Reaches-IsSound_example : IsSound small (stop_mining started.node).app
Reaches-IsSound_example =
    Reaches-IsSound small genesis true (tt, tt, refl) idle-IsSound started-Reaches

abbrev calls : List Call
calls =
    call_write second
    ∷ call_reset
    ∷ call_write genesis
    ∷ call_write_chain (sent_chain (second ∷ []))
    ∷ []

run_calls_refines_example :
    (run_calls calls none ≡ file_of (some (genesis ∷ second ∷ [])))
    × (read_blocks (length (content (run_calls calls none))) (content (run_calls calls none))
        ≡ some (genesis ∷ second ∷ []))
run_calls_refines_example = run_calls_refines calls (genesis-CanStore, (second-CanStore, tt))

-- A third block, and a node that has it.
abbrev third : Block
third = block_at 2 0 (txt "9") (txt "9") []

abbrev three_blocks : Chain
three_blocks = record { blocks = genesis ∷ second ∷ third ∷ []; tx_queue = [] }

abbrev ahead : App
ahead = record (idle.node.app) { chain = three_blocks }

third-valid : valid_hash small third ≡ some true
unfolding valid_hash calculate_block_hash hash_of sha256_text decimal decimal_ℤ extra_of has_zeros
third-valid = refl

three-valid : is_valid_chain small three_blocks ≡ some true
unfolding is_valid_chain calculate_block_hash hash_of sha256_text decimal decimal_ℤ extra_of
three-valid = refl

idle-IsBehind : IsBehind idle.node.app ahead second third []
idle-IsBehind = record {
  extends = refl;
  ends = refl;
  numbered = (refl, (refl, (refl, tt)));
  two = omega arith;
  bounded = omega arith;
}

handle_chain-answer_range_example :
    (answer_range small 2 2 ahead ≡ range_json small (third ∷ []))
    × (handle_chain small genesis (sent_chain (third ∷ [])) idle.node.app
        ≡ some (
          [],
          record (idle.node.app) {
            chain = three_blocks;
            temp = none;
            file = written (third ∷ []) idle.node.app.file;
          },
        ))
handle_chain-answer_range_example =
    handle_chain-answer_range small idle.node.app ahead second third [] idle-IsBehind genesis third
      refl three-valid (third-valid, tt) refl

-- Two texts: `1` is the third block, and `2` is the response with it.
abbrev talking : External JsonValue
talking = record small {
  json = record json_ops {
    dump = λ j. if json_ops.contains j (txt "message") then txt "2" else txt "1";
    parse = λ s.
        if text_eq s (txt "1")
        then some (range_json small (third ∷ []))
        else some (tagged small (range_json small (third ∷ [])) (txt "chain") (txt "response"));
  };
}

talking-IsJson : IsJson talking.json
unfolding object array
talking-IsJson = record {
  get-object = json_ops-IsJson.get-object;
  contains-object = json_ops-IsJson.contains-object;
  is_array-array = json_ops-IsJson.is_array-array;
  items-array = json_ops-IsJson.items-array;
  to_nat-of_nat = json_ops-IsJson.to_nat-of_nat;
  to_double-of_double = json_ops-IsJson.to_double-of_double;
  to_text-of_text = json_ops-IsJson.to_text-of_text;
}

third-IsBlock : IsBlock third
third-IsBlock = record {
  index_lt = omega arith;
  nonce_lt = omega arith;
  difficulty_lt = omega arith;
  time_int = ground arith;
  txs_in = tt;
}

on_chain_message-wire_example :
    (wire talking (response (txt "chain") (range_json talking (third ∷ []))) >>= λ raw.
    on_chain_message talking genesis true raw idle.node.app)
    ≡ handle_chain talking genesis (sent_chain (third ∷ [])) idle.node.app
unfolding object array block_to_json transactions_to_json
on_chain_message-wire_example =
    on_chain_message-wire talking talking-IsJson genesis third [] true idle.node.app
      (third-IsBlock, tt) (record { has_text = refl; parses = refl })
      (record { has_text = refl; parses = refl })
