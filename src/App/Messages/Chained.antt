-- ===== src/App/Messages/Chained.antt =====
-- What messages of other nodes do to the links between the blocks.
use ash_coin.Base.{
  ◌≡◌, Bool, true, not, ◌||◌, Option, some, List, Text, inl, inr, Bool-cases, Option-cases, Holds,
  Holds-bind, Holds-then, Holds-if, leb, ◌>>=◌, if◌then◌else◌, arith,
}
use ash_coin.External.{External}
use ash_coin.Block.{Block}
use ash_coin.Chain.{Chain, size, is_valid_chain}
use ash_coin.Chain.Valid.{IsLinked, is_valid_chain_iff}
use ash_coin.App.{App, sync_blockchain}
use ash_coin.App.Chained.{IsSound, IsSoundResult, synced-IsSound}
use ash_coin.App.Messages.{
  Sent, handle_chain_response, then_sync, handle_chain, handle_response, on_chain_message,
}
use ash_coin.App.Messages.Whole.{IsTaken, handle_chain_response-IsTaken}

module _ {J : Type 0} (x : External J) where
  abbrev Sound : List (Sent J) × App → Type 0
  Sound = IsSoundResult x {A = List (Sent J)}

  then_sync-IsSound :
      (blank : Block) (sent : List (Sent J)) (app : App)
      → IsSound x app
      → Holds Sound (then_sync x blank sent app)
  then_sync-IsSound blank sent app w =
      Holds-if Sound app.mining_done
        (sync_blockchain x blank app >>= λ (_, app'). some (sent, app')) (some (sent, app))
        (Holds-bind (IsSoundResult x {A = Bool}) Sound (sync_blockchain x blank app)
          (λ (_, app'). some (sent, app')) (synced-IsSound x blank app w) (λ (_, app') k. k))
        w

  taken-IsSound :
      (t : Chain) (app : App) (sent : List (Sent J)) (app' : App)
      → IsSound x app
      → IsLinked x t.blocks
      → IsTaken x t app (sent, app')
      → IsSound x app'
  taken-IsSound t app sent app' w m (inl e) = rw e w
  taken-IsSound t app sent app' (n, _) m (inr (e, fits)) = rw e (n, (m, fits))

  handle_chain-IsSound :
      (blank : Block) (t : Chain) (app : App)
      → IsSound x app
      → Holds Sound (handle_chain x blank t app)
  unfolding handle_chain
  handle_chain-IsSound blank t app w = elim (Option-cases (is_valid_chain x t)) [
    | inl e ↦ rw (e, ◌>>=◌) tt
    | inr (v, e) ↦
        rw (e, ◌>>=◌)
          (elim (Bool-cases (leb (size t) 0 || not v)) [
            | inl q ↦ rw q w
            | inr q ↦
                let valid : v ≡ true = ground arith in
                let linked = ((is_valid_chain_iff x t).1.0 (rw valid at e)).0 in
                rw q (
                  Holds-bind (IsTaken x t app) Sound (handle_chain_response x t app)
                    (λ (sent, app'). then_sync x blank sent app')
                    (handle_chain_response-IsTaken x t app)
                    (λ (sent, app') k.
                      then_sync-IsSound blank sent app' (taken-IsSound t app sent app' w linked k)))
          ])
  ]

  -- The node is sound behind it, if it returns.
  abbrev Links : Option (List (Sent J) × App) → Type 0
  Links = Holds Sound

  Links-then :
      {A : Type 0} (o : Option A) (f : A → Option (List (Sent J) × App))
      → ((a : A) → Links (f a))
      → Links (o >>= f)
  Links-then = Holds-then Sound

  Links-if :
      (b : Bool) (o p : Option (List (Sent J) × App))
      → Links o
      → Links p
      → Links (if b then o else p)
  Links-if = Holds-if Sound

  handle_response-IsSound :
      (blank : Block) (reset_enabled : Bool) (j : J) (app : App)
      → IsSound x app
      → Links (handle_response x blank reset_enabled j app)
  unfolding handle_response
  handle_response-IsSound blank reset_enabled j app w =
      search (Links-then, Links-if, then_sync-IsSound, handle_chain-IsSound) depth 12

  -- A message of another node leaves a node sound that is sound, if no exception or assertion ends
  -- it.
  pub on_chain_message-IsSound :
      (blank : Block) (reset_enabled : Bool) (raw : Text) (app : App)
      → IsSound x app
      → Links (on_chain_message x blank reset_enabled raw app)
  unfolding on_chain_message
  on_chain_message-IsSound blank reset_enabled raw app w = elim (Option-cases (x.json.parse raw)) [
    | inl e ↦ rw (on_chain_message, e) w
    | inr (j, e) ↦
        rw (on_chain_message, e) (search (Links-then, Links-if, handle_response-IsSound) depth 12)
  ]
