-- ===== src/App/Rest/Control/Restart.antt =====
-- Starting and stopping the mining thread of src/MinerApp.cpp.
use ash_coin.Base.{
  ◌≡◌, refl, true, false, Option, none, some, List, txt, ◌>>=◌, inl, inr, Option-cases,
}
use ash_coin.External.{External}
use ash_coin.Block.{Block}
use ash_coin.Chain.{add_new_block}
use ash_coin.Miner.{success, timeout, abort, Outcome, ended, failed_assertion, threw, still_mining}
use ash_coin.App.{App}
use ash_coin.App.Mining.{
  RoundEnd, goes_on, stops, busy, crashes, publish, give_up, take_mined, after_mining, going_on,
}
use ash_coin.App.Rest.{Node, ok, reply}
use ash_coin.App.Rest.Control.{rest_start_mining, rest_stop_mining, stop_mining, joined_app}

-- A node that mines is stopped and started again, where the mining thread leaves the flag set: both
-- requests are answered with `OK`, and behind them the node mines in a thread of its own, from what
-- the old thread left.
pub rest_start_mining-rest_stop_mining :
    (last_round : App → App) (n : Node)
    → n.app.mining_done ≡ false
    → (joined_app last_round (stop_mining n)).mining_done ≡ true
    → (rest_stop_mining last_round n >>= λ (ws, n'). rest_start_mining n')
      ≡ reply (ok (txt "OK")) (record n {
        app = record (joined_app last_round (stop_mining n)) { mining_done = false };
        joinable = true;
        keep_trying = false;
      })
unfolding rest_stop_mining rest_start_mining
rest_start_mining-rest_stop_mining last_round n e d =
    rw (rest_stop_mining, e, rest_start_mining, d) refl

-- A round that was stopped leaves the flag of the mining thread set.
abbrev StopsDone : {J : Type 0} → RoundEnd J → Type 0
StopsDone (goes_on sent app) = Unit
StopsDone (stops app) = app.mining_done ≡ true
StopsDone busy = Unit
StopsDone crashes = Unit

module _ {J : Type 0} (x : External J) (blank : Block) where
  going_on-StopsDone : (o : Option (List J × App)) → StopsDone (going_on x o)
  going_on-StopsDone none = tt
  going_on-StopsDone (some (sent, app)) = tt

  take_mined-StopsDone : (b : Block) (app : App) → StopsDone (take_mined x blank b app)
  unfolding take_mined
  take_mined-StopsDone b app = elim (Option-cases (add_new_block x b app.chain)) [
    | inl e ↦ rw (take_mined, e) tt
    | inr ((true, c), e) ↦ rw (take_mined, e) (going_on-StopsDone (publish x blank _))
    | inr ((false, c), e) ↦ rw (take_mined, e) refl
  ]

  after_mining-StopsDone : (o : Outcome) (app : App) → StopsDone (after_mining x blank o app)
  unfolding after_mining
  after_mining-StopsDone (ended success b) app = take_mined-StopsDone b app
  after_mining-StopsDone (ended timeout b) app = going_on-StopsDone (give_up x blank b app)
  after_mining-StopsDone (ended abort b) app = going_on-StopsDone (give_up x blank b app)
  after_mining-StopsDone failed_assertion app = tt
  after_mining-StopsDone threw app = tt
  after_mining-StopsDone still_mining app = tt

  -- A mining thread that ends by itself behind a block that it mined, since the chain refuses the
  -- block, is not joined by anyone: if mining is then to be started again, the program is terminated.
  pub rest_start_mining_terminates :
      (b : Block) (n : Node) (app' : App)
      → n.joinable ≡ true
      → after_mining x blank (ended success b) n.app ≡ stops app'
      → rest_start_mining (record n { app = app' }) ≡ none
  unfolding rest_start_mining
  rest_start_mining_terminates b n app' j e =
      let done : app'.mining_done ≡ true =
        rw e at (after_mining-StopsDone (ended success b) n.app) in
      rw (rest_start_mining, done, j) refl
