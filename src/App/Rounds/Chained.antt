-- ===== src/App/Rounds/Chained.antt =====
-- What rounds of the mining thread do to the links between the blocks.
use mathlib.Core.Path.{subst}
use ash_coin.Base.{
  ◌≡◌, refl, sym, Bool, true, false, Option, none, some, List, [], ◌∷◌, Text, inl, inr, Bool-cases,
  Option-cases, Holds, ◌>>=◌, ℤ, get_elem?-append, IsNonEmpty, IsNonEmpty-last?,
}
use ash_coin.External.{External}
use ash_coin.Block.{Block}
use ash_coin.Chain.{Chain, push_block, add_new_block, get_adjusted_difficulty}
use ash_coin.Chain.Chained.{IsAdded, add_new_block-IsChained}
use ash_coin.Chain.Queue.{requeue_loop, requeue_transactions}
use ash_coin.Chain.Requeue.{create_unmined_block_lem}
use ash_coin.Database.Load.{write}
use ash_coin.Miner.{success, timeout, abort, Outcome, ended, failed_assertion, threw, still_mining}
use ash_coin.App.{App, sync_blockchain}
use ash_coin.App.Chained.{IsSound, IsSoundResult, IsWaiting, synced-IsSound}
use ash_coin.App.Mining.{
  RoundEnd, goes_on, stops, busy, crashes, next_block, give_up, publish, take_mined, after_mining,
  going_on, broadcast_new_block,
}
use ash_coin.App.Rounds.{requeue_loop-blocks}

-- A node that a round leaves is sound.
abbrev pub IsRoundSound : {J : Type 0} → External J → RoundEnd J → Type 0
IsRoundSound x (goes_on sent app) = IsSound x app
IsRoundSound x (stops app) = IsSound x app
IsRoundSound x busy = Unit
IsRoundSound x crashes = Unit

module _ {J : Type 0} (x : External J) (blank : Block) where
  -- What goes on behind a synchronisation.
  synced_round :
      (app : App) (f : Bool × App → Option (List J × App))
      → IsSound x app
      → ((r : Bool) (app' : App) → IsSound x app' → IsRoundSound x (going_on x (f (r, app'))))
      → IsRoundSound x (going_on x (sync_blockchain x blank app >>= f))
  synced_round app f w k = go (sync_blockchain x blank app) (synced-IsSound x blank app w)
    where
      go :
          (o : Option (Bool × App))
          → Holds (IsSoundResult x {A = Bool}) o
          → IsRoundSound x (going_on x (o >>= f))
      go none _ = tt
      go (some (r, app')) v = k r app' v

  -- What waits depends on the blocks alone.
  pub IsWaiting-blocks :
      (o : Option Chain) (c d : Chain) → c.blocks ≡ d.blocks → IsWaiting x o c → IsWaiting x o d
  IsWaiting-blocks none c d same _ = tt
  IsWaiting-blocks (some t) c d same (linked, fits) = (linked, rw same at fits)

  give_up-IsRoundSound :
      (b : Block) (app : App) → IsSound x app → IsRoundSound x (going_on x (give_up x blank b app))
  unfolding give_up requeue_transactions
  give_up-IsRoundSound b app (n, m) = elim (Option-cases (requeue_loop b.txs 0 app.chain)) [
    | inl e ↦ rw (e, ◌>>=◌) tt
    | inr ((k, c), e) ↦
        let same : c.blocks ≡ app.chain.blocks = rw e at (requeue_loop-blocks b.txs 0 app.chain) in
        rw (e, ◌>>=◌)
          (synced_round (record app { chain = c }) (λ (_, app'). some ([], app'))
            (rw same n, IsWaiting-blocks app.temp app.chain c (sym same) m) (λ r app' v. v))
  ]

  publish-IsRoundSound :
      (app : App) → IsSound x app → IsRoundSound x (going_on x (publish x blank app))
  unfolding publish
  publish-IsRoundSound app w = synced_round app _ w (λ r app' v. elim (Bool-cases r) [
    | inl e ↦ rw e v
    | inr e ↦ rw e (elim (Option-cases (broadcast_new_block x app')) [
      | inl e' ↦ rw (e', ◌>>=◌) tt
      | inr (message, e') ↦ rw (e', ◌>>=◌) v
    ])
  ])

  -- A chain that waits still belongs where it did when a block was added.
  IsWaiting-push_block :
      (o : Option Chain) (b : Block) (c : Chain) → IsWaiting x o c → IsWaiting x o (push_block b c)
  IsWaiting-push_block none b c _ = tt
  IsWaiting-push_block (some t) b c (linked, (f, ef, inl z)) = (linked, (f, ef, inl z))
  IsWaiting-push_block (some t) b c (linked, (f, ef, inr (p, ep, named))) =
      (linked, (f, ef, inr (p, get_elem?-append c.blocks (b ∷ []) _ ep, named)))

  take_mined-IsRoundSound :
      (b : Block) (app : App) → IsSound x app → IsRoundSound x (take_mined x blank b app)
  unfolding take_mined
  take_mined-IsRoundSound b app (n, m) =
      go (add_new_block x b app.chain) (add_new_block-IsChained x b app.chain n)
    where
      go :
          (o : Option (Bool × Chain))
          → Holds (IsAdded x b app.chain) o
          → IsRoundSound x (elim o [
            | none ↦ crashes
            | some (true, c) ↦
                going_on x (publish x blank (record app { chain = c; file = write b app.file }))
            | some (false, c) ↦ stops (record app { chain = c; mining_done = true })
          ])
      go none _ = tt
      go (some (true, c)) (k, same) =
          publish-IsRoundSound (record app { chain = c; file = write b app.file })
            (
              k,
              subst (IsWaiting x app.temp) (sym same) (IsWaiting-push_block app.temp b app.chain m),
            )
      go (some (false, c)) (k, same) = (k, subst (IsWaiting x app.temp) (sym same) m)

  pub after_mining-IsRoundSound :
      (o : Outcome) (app : App) → IsSound x app → IsRoundSound x (after_mining x blank o app)
  unfolding after_mining
  after_mining-IsRoundSound (ended success b) app w = take_mined-IsRoundSound b app w
  after_mining-IsRoundSound (ended timeout b) app w = give_up-IsRoundSound b app w
  after_mining-IsRoundSound (ended abort b) app w = give_up-IsRoundSound b app w
  after_mining-IsRoundSound failed_assertion app w = tt
  after_mining-IsRoundSound threw app w = tt
  after_mining-IsRoundSound still_mining app w = tt

  pub next_block-IsSound :
      (now : ℤ) (reward_address uuid : Text) (app : App)
      → IsNonEmpty app.chain.blocks
      → IsSound x app
      → Holds (λ (_, app'). IsSound x app') (next_block x now reward_address uuid app)
  unfolding next_block
  next_block-IsSound now reward_address uuid app some_block (n, m) =
      let (l, e) = IsNonEmpty-last? app.chain.blocks some_block in
      let (b, q, _, _, _, _) = create_unmined_block_lem x now reward_address app.chain l e in
      elim (Option-cases (get_adjusted_difficulty app.chain)) [
        | inl e' ↦ rw (e', ◌>>=◌) tt
        | inr (d, e') ↦ rw (e', ◌>>=◌, q) (n, IsWaiting-blocks app.temp app.chain _ refl m)
      ]
