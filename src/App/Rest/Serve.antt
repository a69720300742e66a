-- ===== src/App/Rest/Serve.antt =====
-- The table of the resources that `initRestService` of src/MinerApp.cpp sets up.
pub mod Keeps
use ash_coin.Base.{Bool, true, false, Option, Text}
use ash_coin.External.{External}
use ash_coin.App.{App}
use ash_coin.App.Rest.{Node, Reply}
use ash_coin.App.Rest.Control.{rest_start_mining, rest_stop_mining, rest_shutdown}
use ash_coin.App.Rest.Create.{rest_create_tx, rest_create_wallet}
use ash_coin.App.Rest.Views.{
  rest_block_idx, rest_blocks_last, rest_summary, rest_block, rest_unspent, rest_address, rest_tx,
}

-- A request by its resource, with what the pattern of its path matches, the value of `indent` in its
-- query, and its content. For a new wallet it has the key that is drawn, and where
-- mining is stopped what the mining thread still does until it has ended.
pub data Request : Type 0 where
  get_block_idx get_blocks_last : Text → Request
  get_create_wallet : (private_key : Text) → Request
  get_start_mining get_shutdown : Request
  get_stop_mining : (last_round : App → App) → Request
  post_create_tx : (path content : Text) → Request
  get_summary : Request
  get_block get_unspent get_address get_tx : Text → (indent : Option Text) → Request

-- Whether a request waits for the mining thread.
abbrev pub is_stop : Request → Bool
is_stop (get_stop_mining _) = true
is_stop (get_block_idx _) = false
is_stop (get_blocks_last _) = false
is_stop (get_create_wallet _) = false
is_stop get_start_mining = false
is_stop get_shutdown = false
is_stop (post_create_tx _ _) = false
is_stop get_summary = false
is_stop (get_block _ _) = false
is_stop (get_unspent _ _) = false
is_stop (get_address _ _) = false
is_stop (get_tx _ _) = false

-- The handler of a request.
unfoldable pub serve : {J : Type 0} → External J → Request → Node → Reply
unfolding rest_block_idx rest_blocks_last rest_create_wallet rest_start_mining rest_stop_mining
    rest_shutdown rest_create_tx rest_summary rest_block rest_unspent rest_address rest_tx
serve x (get_block_idx s) n = rest_block_idx x s n
serve x (get_blocks_last s) n = rest_blocks_last x s n
serve x (get_create_wallet private_key) n = rest_create_wallet x private_key n
serve x get_start_mining n = rest_start_mining n
serve x (get_stop_mining last_round) n = rest_stop_mining last_round n
serve x get_shutdown n = rest_shutdown n
serve x (post_create_tx path content) n = rest_create_tx x path content n
serve x get_summary n = rest_summary x n
serve x (get_block s indent) n = rest_block x s indent n
serve x (get_unspent s indent) n = rest_unspent x s indent n
serve x (get_address s indent) n = rest_address x s indent n
serve x (get_tx s indent) n = rest_tx x s indent n
