-- ===== src/App/Runs.antt =====
-- A node of src/MinerApp.cpp over its time: the messages of other nodes, the requests to its HTTP
-- server and the rounds of its mining thread, in any order. What a callback or a handler does is one
-- step; a block is mined between two steps, while others may happen.
pub mod Whole
pub mod Chained
use ash_coin.Base.{ℕ, ◌≡◌, ◌≢◌, true, false, Bool, Option, none, some, List, Text, ℤ}
use ash_coin.External.{External}
use ash_coin.Block.{Block}
use ash_coin.Miner.{Schedule, mine_block}
use ash_coin.App.{App}
use ash_coin.App.Messages.{Sent, on_chain_message}
use ash_coin.App.Mining.{goes_on, stops, next_block, after_mining}
use ash_coin.App.Rest.{Node, Written}
use ash_coin.App.Rest.Control.{stop_mining}
use ash_coin.App.Rest.Serve.{Request, is_stop, serve}

-- A node and the block that its mining thread is at, if any, with the difficulty it was set.
pub record Running : Type 0 where
  pub node : Node
  pub mining : Option (Block × ℕ)

abbrev pub with_app : App → Running → Running
with_app app r = record r { node = record (r.node) { app = app } }

module _ {J : Type 0} (x : External J) (blank : Block) (reset_enabled : Bool) where
  -- `/rest/stopMining` sets the flags, then waits until the thread has ended, and joins it.
  pub data Step : Running → Running → Type 0 where
    message :
        (raw : Text) (r : Running) (sent : List (Sent J)) (app : App)
        → on_chain_message x blank reset_enabled raw r.node.app ≡ some (sent, app)
        → Step r (with_app app r)
    request :
        (q : Request) (r : Running) (ws : List Written) (n : Node)
        → is_stop q ≡ false
        → serve x q r.node ≡ some (ws, n)
        → Step r (record r { node = n })
    stop_begins :
        (r : Running)
        → r.node.app.mining_done ≡ false
        → Step r (record r { node = stop_mining r.node })
    stop_ends :
        (r : Running)
        → r.node.app.mining_done ≡ true
        → r.mining ≡ none
        → Step r (record r { node = record (r.node) { joinable = false } })
    round_begins :
        (now : ℤ) (reward_address uuid : Text) (r : Running) (b : Block) (app : App)
        → r.node.app.mining_done ≡ false
        → r.node.app.finished ≡ false
        → r.mining ≡ none
        → next_block x now reward_address uuid r.node.app ≡ some (b, app)
        → Step r (record (with_app app r) { mining = some (b, app.difficulty) })
    round_goes_on :
        (fuel : ℕ) (s : Schedule) (r : Running) (b : Block) (d : ℕ) (sent : List J) (app : App)
        → r.mining ≡ some (b, d)
        → after_mining x blank (mine_block x fuel s d b) r.node.app ≡ goes_on sent app
        → Step r (record (with_app app r) { mining = none })
    round_stops :
        (fuel : ℕ) (s : Schedule) (r : Running) (b : Block) (d : ℕ) (app : App)
        → r.mining ≡ some (b, d)
        → after_mining x blank (mine_block x fuel s d b) r.node.app ≡ stops app
        → Step r (record (with_app app r) { mining = none })

  pub data Reaches (r : Running) : Running → Type 0 where
    here : Reaches r r
    next : {s t : Running} → Reaches r s → Step s t → Reaches r t
