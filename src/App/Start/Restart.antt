-- ===== src/App/Start/Restart.antt =====
-- Nodes as `run` of src/MinerApp.cpp starts them.
use mathlib.Core.Path.{subst}
use ash_coin.Base.{
  ◌≡◌, refl, sym, ap, ◌∙◌, true, false, ◌||◌, Bool, none, some, [], ◌∷◌, map, Text, txt, text_eq,
  All, append-nil,
}
use ash_coin.External.{External}
use ash_coin.Block.{Block}
use ash_coin.Chain.{Chain, empty_chain, is_valid_chain}
use ash_coin.Database.Load.{File, write, write_blocks, write_chain, reset, loaded, initialize}
use ash_coin.Database.Load.Reload.{initialize-write_chain, initialize_fresh}
use ash_coin.Database.RoundTrip.{CanStore, stored}
use ash_coin.Settings.{Settings, value_bool, value_u32}
use ash_coin.Settings.Registered.{http_port_default, ws_port_default}
use ash_coin.App.{App}
use ash_coin.App.InStep.{IsWhole}
use ash_coin.App.Runs.{Running, Reaches}
use ash_coin.App.Runs.Whole.{Reaches-IsWhole}
use ash_coin.App.Runs.Chained.{Reaches-IsSound}
use ash_coin.Chain.Chained.{IsChained}
use ash_coin.App.Start.{World, Started, up, node_of, init_peers, reward_of, genesis_block, run}

-- An address that is not the one that has to be changed.
abbrev pub HasAddress : Settings → Type 0
HasAddress s = (text_eq (reward_of s) [] || text_eq (reward_of s) (txt "<CHANGE ME>")) ≡ false

-- What is up for a chain and a file.
abbrev pub up_with : World → Settings → Chain → File → Started
up_with w s c file =
    up (node_of (value_bool (txt "mining.autostart") false s) c file) (init_peers w s)
      (value_u32 (txt "rest.port") http_port_default s)
      (value_u32 (txt "websocket.port") ws_port_default s)

module _ {J : Type 0} (x : External J) (w : World) (s : Settings) where
  loaded-run :
      (file file' : File) (c : Chain)
      → HasAddress s
      → w.opens ≡ true
      → initialize x true (genesis_block x w s) file empty_chain ≡ some (loaded c, file')
      → run x w s file ≡ some (up_with w s c file')
  unfolding run
  loaded-run file file' c a o e =
      let opened : initialize x w.opens (genesis_block x w s) file empty_chain
          ≡ some (loaded c, file') =
        subst
          (λ (b : Bool).
            initialize x b (genesis_block x w s) file empty_chain ≡ some (loaded c, file'))
          (sym o) e in
      rw (run, a, opened) refl

  -- A node that is stopped and started again, on the file it left: if it was whole, its chain is
  -- valid, the file can hold the blocks, no input carries an address or an amount, the settings name
  -- an address for rewards, and the index opens, the new node has the same blocks and the same file,
  -- and the queue is empty.
  pub run_restarts :
      (app : App) (t : Text)
      → HasAddress s
      → w.opens ≡ true
      → IsWhole app
      → app.file ≡ some t
      → All CanStore app.chain.blocks
      → map stored app.chain.blocks ≡ app.chain.blocks
      → is_valid_chain x (record { blocks = app.chain.blocks; tx_queue = [] }) ≡ some true
      → run x w s app.file
        ≡ some (up_with w s (record { blocks = app.chain.blocks; tx_queue = [] }) app.file)
  unfolding write_chain reset
  run_restarts app t a o (_, _, h) f can bare v =
      let same : app.file ≡ write_chain app.chain (reset app.file) = f ∙ ap some (rw f at h) in
      let back = initialize-write_chain x (genesis_block x w s) app.chain app.file can bare v in
      loaded-run app.file app.file (record { blocks = app.chain.blocks; tx_queue = [] }) a o
        (rw (← same) at back)

  abbrev pub fresh_chain : Chain
  fresh_chain = record { blocks = genesis_block x w s ∷ []; tx_queue = [] }

  abbrev pub fresh_file : File
  fresh_file = write (genesis_block x w s) none

  abbrev pub fresh : Running
  fresh = record {
    node = node_of (value_bool (txt "mining.autostart") false s) fresh_chain fresh_file;
    mining = none;
  }

  fresh-IsWhole : IsWhole fresh.node.app
  unfolding write write_blocks
  fresh-IsWhole = (tt, tt, sym (append-nil _))

  -- Where there is no file, the settings name an address for rewards, the index opens, and the file
  -- can hold the genesis block as it is, a node starts with the genesis block and writes it to the
  -- file. Whatever messages, requests and rounds of mining follow, it stays whole: its chain has a
  -- block, its file holds the blocks of its chain, and each block but the first names the hash of the
  -- block before it, and has the hash computed of it.
  pub run-Reaches :
      (blank : Block) (reset_enabled : Bool) (t : Running)
      → HasAddress s
      → w.opens ≡ true
      → CanStore (genesis_block x w s)
      → stored (genesis_block x w s) ≡ genesis_block x w s
      → Reaches x blank reset_enabled fresh t
      → (run x w s none ≡ some (up_with w s fresh_chain fresh_file))
        × IsWhole t.node.app
        × IsChained x t.node.app.chain.blocks
  run-Reaches blank reset_enabled t a o can bare r =
      let genesis = genesis_block x w s in
      let begun : initialize x true genesis none empty_chain
          ≡ some (loaded fresh_chain, fresh_file) =
        rw (initialize_fresh x true genesis can, bare) refl in
      (
        loaded-run none fresh_file fresh_chain a o begun,
        Reaches-IsWhole x blank reset_enabled fresh-IsWhole r,
        (Reaches-IsSound x blank reset_enabled fresh-IsWhole (tt, tt) r).0,
      )
