-- ===== src/App/Start.antt =====
-- `MinerApp::run`, `initPeers` and the constructor of src/MinerApp.cpp. What the settings name, and the
-- servers, are seen as what a start leaves; the loop that waits for the end is not modelled.
pub mod Restart
pub mod AnyFile
use ash_coin.Base.{
  ℕ, true, false, ◌||◌, not, Option, none, some, Bool, [], ◌∷◌, ◌++◌, List, Text, txt, text_eq, ℤ,
  ◌>>=◌, if◌then◌else◌,
}
use ash_coin.External.{External}
use ash_coin.Tx.{create_coinbase_transaction}
use ash_coin.Block.{Block, new_block, set_miner, set_payload}
use ash_coin.Chain.{Chain, empty_chain}
use ash_coin.Database.Load.{File, Loaded, loaded, invalid_chain, index_error, initialize}
use ash_coin.Settings.{Settings, value_string, value_bool, value_u32}
use ash_coin.Settings.Registered.{http_port_default, ws_port_default}
use ash_coin.Peers.{Peers, load_peers, connect_all}
use ash_coin.ComputerId.{new_computer_id, set_custom_data, get_uuid}
use ash_coin.App.{App}
use ash_coin.App.Rest.{Node}

-- What a start takes from its surroundings: the time, the text of it that goes into the genesis block,
-- the hash and the name of
-- the host that make the identity of the machine, whether the index opens, Boost's `trim`, and the lines of a file,
-- none where there is no file.
pub record World : Type 0 where
  pub now : ℤ
  pub stamp : Text
  pub sha1 : Text → Text
  pub host_name : Text
  pub opens : Bool
  pub trim : Text → Text
  pub lines : Text → List Text

-- How `run` goes on: it returns at once, as there is no address for rewards, or the node is up, with
-- its peers and the ports of its servers.
pub data Started : Type 0 where
  no_address : Started
  up : Node → Peers → (http_port ws_port : ℕ) → Started

-- `MinerApp::initPeers`, on peers that begin empty.
unfoldable pub init_peers : World → Settings → Peers
unfolding value_string
init_peers w s =
    let peersfile = value_string (txt "peers.file") [] s in
    if text_eq peersfile [] then [] else connect_all (load_peers w.trim (w.lines peersfile) [])

-- The node as the constructor and the members leave it, with a chain and a file.
abbrev pub node_of : Bool → Chain → File → Node
node_of autostart c file = record {
  app = record {
    chain = c;
    temp = none;
    file = file;
    mining_done = not autostart;
    finished = false;
    difficulty = 0;
  };
  joinable = autostart;
  keep_trying = true;
}

-- The address for rewards that the settings have.
unfoldable pub reward_of : Settings → Text
unfolding value_string
reward_of s = value_string (txt "mining.miner.address") [] s

-- The identity that the constructor takes.
unfoldable pub uuid_of : World → Settings → Text
unfolding value_string get_uuid set_custom_data
uuid_of w s =
    get_uuid w.sha1 w.host_name []
      (set_custom_data (value_string (txt "database.folder") [] s) new_computer_id)

module _ {J : Type 0} (x : External J) where
  -- The callback for the genesis block.
  unfoldable pub genesis_block : World → Settings → Block
  unfolding uuid_of reward_of
  genesis_block w s = set_payload (txt "Gensis Block created " ++ w.stamp) (
      set_miner (uuid_of w s)
        (new_block x w.now 0 [] (create_coinbase_transaction x 0 (reward_of s) ∷ [])))

  -- `MinerApp::run`
  unfoldable pub run : World → Settings → File → Option Started
  unfolding genesis_block reward_of value_bool value_u32 init_peers
  run w s file =
      if text_eq (reward_of s) [] || text_eq (reward_of s) (txt "<CHANGE ME>")
      then some no_address
      else (initialize x w.opens (genesis_block w s) file empty_chain >>= λ (l, file'). elim l [
        | loaded c ↦ some (
            up (node_of (value_bool (txt "mining.autostart") false s) c file') (init_peers w s)
              (value_u32 (txt "rest.port") http_port_default s)
              (value_u32 (txt "websocket.port") ws_port_default s))
        | invalid_chain ↦ none
        | index_error ↦ none
      ])
