-- ===== src/App/Start/AnyFile.antt =====
-- Nodes that `run` of src/MinerApp.cpp starts on a file that is there, whoever wrote it.
use mathlib.Core.Path.{subst}
use mathlib.Core.Option.{none-ne-some, some-injective}
use ash_coin.Base.{
  ℕ, ◌≡◌, ◌≢◌, refl, sym, ap, Bool, true, false, Option, none, some, ◌||◌, [], ◌∷◌, List, Text, txt,
  text_eq, All, Bool-cases, Option-cases, inl, inr, arith, length, IsNonEmpty,
}
use ash_coin.External.{External}
use ash_coin.Block.{Block}
use ash_coin.Chain.{Chain, empty_chain, is_valid_chain}
use ash_coin.Database.Load.{
  File, Loaded, loaded, invalid_chain, index_error, initialize, write_blocks, read_blocks,
}
use ash_coin.Database.Load.Whole.{IsHeldBy, initialize-loads}
use ash_coin.Database.Takes.{IsByte}
use ash_coin.Settings.{Settings, value_bool}
use ash_coin.Peers.{Peers}
use ash_coin.App.InStep.{IsWhole}
use ash_coin.App.Rest.{Node}
use ash_coin.App.Runs.{Running, Reaches}
use ash_coin.App.Runs.Whole.{Reaches-IsWhole}
use ash_coin.App.Runs.Chained.{Reaches-IsSound}
use ash_coin.App.Chained.{IsSound}
use ash_coin.Chain.Chained.{IsChained, IsLinked-IsChained}
use ash_coin.Chain.Valid.{is_valid_chain_iff}
use ash_coin.App.Start.{World, Started, no_address, up, node_of, reward_of, genesis_block, run}

module _ {J : Type 0} (x : External J) where
  -- A chain is loaded only where the index opens, and the file stays as it is.
  initialize-loaded :
      (opens : Bool) (genesis : Block) (s : Text) (c : Chain) (f : File)
      → initialize x opens genesis (some s) empty_chain ≡ some (loaded c, f)
      → (f ≡ some s) × (opens ≡ true)
  unfolding initialize
  initialize-loaded opens genesis s c f e = elim (Option-cases (read_blocks (length s) s)) [
    | inl stop ↦ absurd (none-ne-some _ (rw stop at e))
    | inr (bs, go) ↦
        elim (Option-cases (is_valid_chain x (record { blocks = bs; tx_queue = [] }))) [
          | inl stop ↦ absurd (none-ne-some _ (rw (go, stop) at e))
          | inr (false, refused) ↦ let never = rw (go, refused) at e in ground arith
          | inr (true, taken) ↦
              let r = rw (go, taken) at e in
              elim (Bool-cases opens) [
                | inl o ↦ (ap (λ ((m, g) : Loaded × File). g) (sym (some-injective _ _ r)), o)
                | inr o ↦ let never = rw o at r in ground arith
              ]
        ]
  ]

-- The node that is up, if one is.
abbrev node_in : Node → Option Started → Node
node_in n none = n
node_in n (some no_address) = n
node_in n (some (up m peers http_port ws_port)) = m

some_block : (bs : List Block) → write_blocks bs ≢ [] → IsNonEmpty bs
unfolding write_blocks
some_block [] some_byte = absurd (some_byte refl)
some_block (b ∷ bs) some_byte = tt

module _ {J : Type 0} (x : External J) (w : World) (st : Settings) where
  abbrev autostart : Bool
  autostart = value_bool (txt "mining.autostart") false st

  -- A node that is up has the chain and the file of `initialize`.
  run-initialize :
      (s : Text) (n : Node) (peers : Peers) (http_port ws_port : ℕ)
      → run x w st (some s) ≡ some (up n peers http_port ws_port)
      → (c : Chain) × (initialize x true (genesis_block x w st) (some s) empty_chain
          ≡ some (loaded c, some s))
        × (node_of autostart c (some s) ≡ n)
  unfolding run
  run-initialize s n peers http_port ws_port e =
      elim (Bool-cases (text_eq (reward_of st) [] || text_eq (reward_of st) (txt "<CHANGE ME>"))) [
        | inl a ↦ let never = rw a at e in ground arith
        | inr a ↦
            elim (Option-cases (initialize x w.opens (genesis_block x w st) (some s) empty_chain)) [
              | inl stop ↦ absurd (none-ne-some _ (rw (a, stop) at e))
              | inr ((invalid_chain, f), go) ↦ absurd (none-ne-some _ (rw (a, go) at e))
              | inr ((index_error, f), go) ↦ absurd (none-ne-some _ (rw (a, go) at e))
              | inr ((loaded c, f), go) ↦
                  let (same, o) = initialize-loaded x w.opens (genesis_block x w st) s c f go in
                  let begun = rw (a, go) at e in
                  (
                    c,
                    rw (o, same) at go,
                    ap (node_in (node_of autostart c (some s))) (rw same at begun),
                  )
            ]
      ]

  -- On a file of bytes that is not empty, whoever wrote it, let a node be up with blocks that the file
  -- is written from as it is, so that no zeros are missing at its end. Then its queue is empty, its
  -- chain is valid, and each block can be written and is read as it is. And whatever messages, requests
  -- and rounds of mining follow, the node stays whole: its chain has a block, and its file holds the
  -- blocks of its chain; and the chain stays chained: each block but the first names the hash of the
  -- block before it, and has the hash computed of it.
  pub run_file-Reaches :
      (blank : Block) (reset_enabled : Bool) (s : Text) (n : Node) (peers : Peers)
      (http_port ws_port : ℕ) (t : Running)
      → All IsByte s
      → s ≢ []
      → run x w st (some s) ≡ some (up n peers http_port ws_port)
      → s ≡ write_blocks n.app.chain.blocks
      → Reaches x blank reset_enabled (record { node = n; mining = none }) t
      → IsHeldBy x s n.app.chain × IsWhole t.node.app × IsChained x t.node.app.chain.blocks
  run_file-Reaches blank reset_enabled s n peers http_port ws_port t bytes some_byte e written r =
      let (c, begun, same) = run-initialize s n peers http_port ws_port e in
      let (held, _) = initialize-loads x (genesis_block x w st) s c bytes begun in
      let (_, _, _, valid) = held in
      let written' = subst (λ (m : Node). s ≡ write_blocks m.app.chain.blocks) (sym same) written in
      let start : IsWhole (node_of autostart c (some s)).app =
        (some_block c.blocks (rw written' at some_byte), tt, written') in
      let links : IsSound x (node_of autostart c (some s)).app =
        (IsLinked-IsChained x c.blocks ((is_valid_chain_iff x c).1.0 valid).0, tt) in
      let whole = subst (λ (m : Node). IsWhole m.app) same start in
      let sound = subst (λ (m : Node). IsSound x m.app) same links in
      (
        subst (λ (m : Node). IsHeldBy x s m.app.chain) same held,
        Reaches-IsWhole x blank reset_enabled whole r,
        (Reaches-IsSound x blank reset_enabled whole sound r).0,
      )
