-- ===== src/App/Rest/Control.antt =====
-- The requests that start and stop the mining thread and the node: src/MinerApp.cpp and `stopMining`
-- and `signalExit` of src/MinerApp.h.
pub mod Restart
use ash_coin.Base.{if◌then◌else◌, true, false, none, txt}
use ash_coin.App.{App}
use ash_coin.App.Rest.{Node, Reply, ok, bad_request, reply}

-- `MinerApp::stopMining`
unfoldable pub stop_mining : Node → Node
stop_mining n = record n { app = record (n.app) { mining_done = true }; keep_trying = false }

-- `MinerApp::signalExit`
unfoldable pub signal_exit : Node → Node
unfolding stop_mining
signal_exit n = let s = stop_mining n in record s { app = record (s.app) { finished = true } }

-- `/rest/startMining`: a thread may not be assigned to one that was not joined.
unfoldable pub rest_start_mining : Node → Reply
rest_start_mining n = elim n.app.mining_done [
  | false ↦ reply bad_request n
  | true ↦ elim n.joinable [
    | true ↦ none
    | false ↦
        reply (ok (txt "OK"))
          (record n { app = record (n.app) { mining_done = false }; joinable = true })
  ]
]

-- The state behind the mining thread, if there is one to join: `last_round` is what it does between the
-- request to stop and its end.
abbrev pub joined_app : (last_round : App → App) → Node → App
joined_app last_round n = if n.joinable then last_round n.app else n.app

-- `/rest/stopMining`
unfoldable pub rest_stop_mining : (last_round : App → App) → Node → Reply
unfolding stop_mining
rest_stop_mining last_round n = elim n.app.mining_done [
  | true ↦ reply bad_request n
  | false ↦
      let stopping = stop_mining n in
      reply (ok (txt "OK"))
        (record stopping { app = joined_app last_round stopping; joinable = false })
]

-- `/rest/shutdown`
unfoldable pub rest_shutdown : Node → Reply
unfolding signal_exit
rest_shutdown n = reply (ok (txt "OK")) (signal_exit n)
