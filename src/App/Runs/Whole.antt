-- ===== src/App/Runs/Whole.antt =====
-- What holds of a node over its time.
use ash_coin.Base.{Bool}
use ash_coin.External.{External}
use ash_coin.Block.{Block}
use ash_coin.Miner.{mine_block}
use ash_coin.App.InStep.{IsWhole}
use ash_coin.App.Messages.Whole.{on_chain_message-IsWhole}
use ash_coin.App.Rounds.{next_block-IsWhole, after_mining-IsRounded}
use ash_coin.App.Rest.Control.{stop_mining}
use ash_coin.App.Rest.Serve.Keeps.{serve-IsWhole}
use ash_coin.App.Runs.{
  Running, Step, message, request, stop_begins, stop_ends, round_begins, round_goes_on, round_stops,
  Reaches, here, next,
}

module _ {J : Type 0} (x : External J) (blank : Block) (reset_enabled : Bool) where
  Step-IsWhole :
      {r s : Running} → Step x blank reset_enabled r s → IsWhole r.node.app → IsWhole s.node.app
  unfolding stop_mining
  Step-IsWhole (message raw r sent app e) w =
      rw e at (on_chain_message-IsWhole x blank reset_enabled raw r.node.app w)
  Step-IsWhole (request q r ws n o e) w = rw e at (serve-IsWhole x q r.node o w)
  Step-IsWhole (stop_begins r _) w = w
  Step-IsWhole (stop_ends r _ _) w = w
  Step-IsWhole (round_begins now reward_address uuid r b app _ _ _ e) w =
      rw e at (next_block-IsWhole x blank now reward_address uuid r.node.app w)
  Step-IsWhole (round_goes_on fuel s r b d sent app _ e) w =
      (rw e at (after_mining-IsRounded x blank (mine_block x fuel s d b) r.node.app w)).0
  Step-IsWhole (round_stops fuel s r b d app _ e) w =
      rw e at (after_mining-IsRounded x blank (mine_block x fuel s d b) r.node.app w)

  -- In whatever order messages, requests and rounds of the mining thread follow one another, a node
  -- that was whole is whole: its chain has a block, a chain that waits has one, and the file holds
  -- the blocks of the chain.
  pub Reaches-IsWhole :
      {r s : Running} → IsWhole r.node.app → Reaches x blank reset_enabled r s → IsWhole s.node.app
  Reaches-IsWhole w here = w
  Reaches-IsWhole w (next k st) = Step-IsWhole st (Reaches-IsWhole w k)
