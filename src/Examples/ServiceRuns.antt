-- ===== src/Examples/ServiceRuns.antt =====
-- Runs of the HTTP service, of the pages and of the settings of the program.
use ash_coin.Base.{
  decimal, decimal_ℤ, ◌≡◌, ◌-◌, refl, true, false, none, some, [], Text, txt, arith, Holds, drop,
}
use ash_coin.External.{External}
use ash_coin.CryptoUtils.{get_address_from_private_key}
use ash_coin.Block.{
  Block, valid_hash, calculate_block_hash, hash_of, sha256_text, extra_of, has_zeros,
}
use ash_coin.Chain.{add_new_block}
use ash_coin.Database.Load.{write_blocks}
use ash_coin.App.Messages.{range_json}
use ash_coin.App.Mining.{after_mining}
use ash_coin.App.Rest.{Node, ok, reply}
use ash_coin.App.Rest.Control.{rest_start_mining}
use ash_coin.App.Rest.Control.Restart.{rest_start_mining_terminates}
use ash_coin.App.Rest.Create.{rest_create_tx}
use ash_coin.App.Rest.Create.Answers.{IsAnswered, rest_create_tx-IsAnswered}
use ash_coin.App.Rest.Views.{rest_blocks_last}
use ash_coin.App.Rest.Views.Range.{rest_blocks_last-eq-drop}
use ash_coin.App.Rest.Serve.{serve, post_create_tx}
use ash_coin.App.Rest.Serve.Keeps.{IsKept, behind_thread, serve-IsKept}
use ash_coin.Examples.{small, genesis, two_blocks, small_crypto, block_at}
use ash_coin.Examples.Json.{JsonValue, null, str, dbl, field, json_ops}

-- A node with two blocks, whose mining thread ended by itself.
abbrev idle : Node
idle = record {
  app = record {
    chain = two_blocks;
    temp = none;
    file = some (write_blocks two_blocks.blocks);
    mining_done = true;
    finished = false;
    difficulty = 0;
  };
  joinable = true;
  keep_trying = true;
}

-- A payment of 150 with the key `k`.
abbrev paying : Text → JsonValue
paying to =
    field (field (field null (txt "toaddress") (str to)) (txt "privatekey") (str (txt "k")))
      (txt "amount") (dbl 150)

-- Every content is that payment.
abbrev reads_payment : Text → External JsonValue
reads_payment to = record small { json = record json_ops { parse = λ s. some (paying to) } }

rest_create_tx-IsAnswered_example :
    Holds
      (IsAnswered (reads_payment (txt "r")) (txt "/rest/createtx") (txt "payment") idle)
      (rest_create_tx (reads_payment (txt "r")) (txt "/rest/createtx") (txt "payment") idle)
rest_create_tx-IsAnswered_example =
    rest_create_tx-IsAnswered (reads_payment (txt "r")) (txt "/rest/createtx") (txt "payment") idle

abbrev own_address : Text
own_address = get_address_from_private_key small_crypto (txt "k")

rest_blocks_last-eq-drop_example :
    rest_blocks_last small (decimal 1) idle
    ≡ reply (ok (small.json.dump (range_json small (drop (2 - 1) two_blocks.blocks)))) idle
rest_blocks_last-eq-drop_example = rest_blocks_last-eq-drop small 1 idle (omega arith)

serve-IsKept_example :
    Holds
      (λ (ws, n').
        IsKept (behind_thread (post_create_tx (txt "/rest/createtx") (txt "payment")) idle) n')
      (serve (reads_payment (txt "r")) (post_create_tx (txt "/rest/createtx") (txt "payment")) idle)
serve-IsKept_example =
    serve-IsKept (reads_payment (txt "r")) (post_create_tx (txt "/rest/createtx") (txt "payment"))
      idle

-- A block with a wrong hash.
abbrev wrong : Block
wrong = block_at 2 0 (txt "9") (txt "x") []

rest_start_mining_terminates_example : rest_start_mining idle ≡ none
unfolding after_mining add_new_block valid_hash calculate_block_hash hash_of sha256_text decimal
    decimal_ℤ extra_of has_zeros
rest_start_mining_terminates_example =
    rest_start_mining_terminates small genesis wrong idle idle.app refl refl
