-- ===== src/App/Runs/Chained.antt =====
-- The links between the blocks of a node over its time.
use mathlib.Core.Path.{subst}
use ash_coin.Base.{Bool, Option, sym}
use ash_coin.External.{External}
use ash_coin.Block.{Block}
use ash_coin.Chain.{Chain}
use ash_coin.Miner.{mine_block}
use ash_coin.App.Chained.{IsSound, IsWaiting}
use ash_coin.App.InStep.{IsWhole}
use ash_coin.App.Messages.Chained.{on_chain_message-IsSound}
use ash_coin.App.Rest.Control.{stop_mining}
use ash_coin.App.Rest.Serve.Keeps.{serve_other-IsKept}
use ash_coin.App.Rounds.Chained.{next_block-IsSound, after_mining-IsRoundSound, IsWaiting-blocks}
use ash_coin.App.Runs.{
  Running, Step, message, request, stop_begins, stop_ends, round_begins, round_goes_on, round_stops,
  Reaches, here, next,
}
use ash_coin.App.Runs.Whole.{Reaches-IsWhole}

module _ {J : Type 0} (x : External J) (blank : Block) (reset_enabled : Bool) where
  Step-IsSound :
      {r s : Running}
      → Step x blank reset_enabled r s
      → IsWhole r.node.app
      → IsSound x r.node.app
      → IsSound x s.node.app
  unfolding stop_mining
  Step-IsSound (message raw r sent app e) _ w =
      rw e at (on_chain_message-IsSound x blank reset_enabled raw r.node.app w)
  Step-IsSound (request q r ws n o e) _ (k, m) =
      let (blocks, temp, _, _) = rw e at (serve_other-IsKept x q r.node o) in
      (
        rw blocks k,
        subst (λ (o : Option Chain). IsWaiting x o n.app.chain) (sym temp)
            (IsWaiting-blocks x blank r.node.app.temp r.node.app.chain n.app.chain (sym blocks) m),
      )
  Step-IsSound (stop_begins r _) _ w = w
  Step-IsSound (stop_ends r _ _) _ w = w
  Step-IsSound (round_begins now reward_address uuid r b app _ _ _ e) (some_block, _, _) w =
      rw e at (next_block-IsSound x blank now reward_address uuid r.node.app some_block w)
  Step-IsSound (round_goes_on fuel s r b d sent app _ e) _ w =
      rw e at (after_mining-IsRoundSound x blank (mine_block x fuel s d b) r.node.app w)
  Step-IsSound (round_stops fuel s r b d app _ e) _ w =
      rw e at (after_mining-IsRoundSound x blank (mine_block x fuel s d b) r.node.app w)

  -- In whatever order messages, requests and rounds of the mining thread follow one another, a node
  -- that was whole, and whose chain was chained, has a chained chain: each block but the first names
  -- the hash of the block before it, and has the hash that is computed of it. And as long as it is so
  -- at the beginning, a chain that waits is valid, and its first block is block 0 or names the hash
  -- of the block before its place.
  pub Reaches-IsSound :
      {r s : Running}
      → IsWhole r.node.app
      → IsSound x r.node.app
      → Reaches x blank reset_enabled r s
      → IsSound x s.node.app
  Reaches-IsSound h w here = w
  Reaches-IsSound h w (next k st) =
      Step-IsSound st (Reaches-IsWhole x blank reset_enabled h k) (Reaches-IsSound h w k)
