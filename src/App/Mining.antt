-- ===== src/App/Mining.antt =====
-- `runMineThread` and `broadcastNewBlock` of src/MinerApp.cpp: one round of the mining thread. What
-- the other threads do while a block is mined is a function on the state for the round of each nonce,
-- and one for the end.
use ash_coin.Base.{
  ℕ, Bool, true, false, not, ◌&&◌, Option, none, some, List, [], ◌∷◌, ◌++◌, Text, txt, decimal, ltb,
  ◌>>=◌, if◌then◌else◌, last?, ℤ,
}
use ash_coin.External.{External, object}
use ash_coin.Block.{Block, set_miner, set_payload}
use ash_coin.Block.Json.{block_to_json}
use ash_coin.Chain.{cum_difficulty, get_adjusted_difficulty, add_new_block}
use ash_coin.Chain.Queue.{create_unmined_block, requeue_transactions}
use ash_coin.Database.Load.{write}
use ash_coin.Miner.{
  success, timeout, abort, Schedule, Outcome, ended, failed_assertion, threw, still_mining,
  mine_block,
}
use ash_coin.App.{App, sync_blockchain}

-- `keepMiningCallback`
unfoldable pub keep_mining : App → ℕ → Bool
keep_mining app index = elim app.temp [
  | none ↦ true
  | some t ↦ elim (last? t.blocks) [ none ↦ true | some last ↦ ltb last.index index ]
]

-- The clock and the flag of the miner, the time at which the block is made, and the other threads.
pub record Surroundings : Type 0 where
  pub now : ℤ
  pub schedule : Schedule
  pub meanwhile : ℕ → App → App
  pub afterwards : App → App

-- How a round ends: the thread goes on or stops, with what is broadcast; it is still mining when the
-- fuel is used up; or an exception or an assertion ends it.
pub data RoundEnd (J : Type 0) : Type 0 where
  goes_on : List J → App → RoundEnd J
  stops : App → RoundEnd J
  busy : RoundEnd J
  crashes : RoundEnd J

module _ {J : Type 0} (x : External J) where
  open x.json use {of_nat, of_text}

  -- `MinerApp::broadcastNewBlock`: the message that every connected peer is sent.
  unfoldable pub broadcast_new_block : App → Option J
  broadcast_new_block app = do
    last ← last? app.chain.blocks
    cumdiff ← cum_difficulty app.chain
    some (
        object x.json (
          (txt "message", of_text (txt "newblock"))
          ∷ (txt "message-type", of_text (txt "request"))
          ∷ (txt "block", block_to_json x.json last)
          ∷ (txt "cumdiff", of_nat cumdiff)
          ∷ []))

  -- The block that a round mines, at the difficulty that it sets.
  unfoldable pub next_block : ℤ → (reward_address uuid : Text) → App → Option (Block × App)
  next_block now reward_address uuid app = do
    difficulty ← get_adjusted_difficulty app.chain
    (b, c) ← create_unmined_block x now reward_address app.chain
    some (
      set_payload (txt "coinbase block #" ++ decimal b.index) (set_miner uuid b),
      record app { chain = c; difficulty = difficulty },
    )

  -- A block that was not mined: its transactions are queued again.
  unfoldable pub give_up : Block → Block → App → Option (List J × App)
  give_up blank b app = do
    (_, c) ← requeue_transactions b app.chain
    (_, app') ← sync_blockchain x blank (record app { chain = c })
    some ([], app')

  -- A block that was mined and added.
  unfoldable pub publish : Block → App → Option (List J × App)
  unfolding broadcast_new_block
  publish blank app = do
    (synced, app') ← sync_blockchain x blank app
    (if synced
        then some ([], app')
        else (broadcast_new_block app' >>= λ message. some (message ∷ [], app')))

  abbrev pub going_on : Option (List J × App) → RoundEnd J
  going_on none = crashes
  going_on (some (sent, app)) = goes_on sent app

  unfoldable pub take_mined : Block → Block → App → RoundEnd J
  unfolding publish
  take_mined blank b app = elim (add_new_block x b app.chain) [
    | none ↦ crashes
    | some (true, c) ↦ going_on (publish blank (record app { chain = c; file = write b app.file }))
    | some (false, c) ↦ stops (record app { chain = c; mining_done = true })
  ]

  -- What the thread does with the result of `mineBlock`.
  unfoldable pub after_mining : Block → Outcome → App → RoundEnd J
  unfolding give_up take_mined
  after_mining blank (ended success b) app = take_mined blank b app
  after_mining blank (ended timeout b) app = going_on (give_up blank b app)
  after_mining blank (ended abort b) app = going_on (give_up blank b app)
  after_mining blank failed_assertion app = crashes
  after_mining blank threw app = crashes
  after_mining blank still_mining app = busy

  -- One round of `MinerApp::runMineThread`, with fuel for `mineBlock`.
  unfoldable pub mine_round :
      ℕ → Surroundings → (blank : Block) → (reward_address uuid : Text) → App → RoundEnd J
  unfolding next_block after_mining keep_mining
  mine_round fuel s blank reward_address uuid app =
      if not app.mining_done && not app.finished
      then elim (next_block s.now reward_address uuid app) [
        | none ↦ crashes
        | some (b, begun) ↦
            let schedule : Schedule = record (s.schedule) {
              keep_going = λ n. keep_mining (s.meanwhile n begun);
            } in
            after_mining blank (mine_block x fuel schedule begun.difficulty b) (s.afterwards begun)
      ]
      else stops app
