-- ===== src/App/Rounds.antt =====
-- Rounds of the mining thread of src/MinerApp.cpp on a node that is whole.
pub mod Chained
use ash_coin.Base.{
  ℕ, ◌≡◌, refl, Bool, true, false, not, ◌&&◌, Option, none, some, List, [], ◌∷◌, Text, inl, inr,
  Bool-cases, Option-cases, Gives-some, Holds, IsNonEmpty-last?, IsNonEmpty-snoc, ◌>>=◌, ℤ,
}
use ash_coin.External.{External}
use ash_coin.Tx.{Transaction, is_coinbase}
use ash_coin.Block.{Block}
use ash_coin.Chain.{Chain, push_block, get_adjusted_difficulty}
use ash_coin.Chain.Queue.{requeue_loop, requeue_transactions, queue_transaction}
use ash_coin.Chain.Add.{add_new_block-cases}
use ash_coin.Chain.Requeue.{create_unmined_block_lem}
use ash_coin.Database.Load.{write}
use ash_coin.Miner.{
  success, timeout, abort, Schedule, Outcome, ended, failed_assertion, threw, still_mining,
  mine_block,
}
use ash_coin.App.{App, sync_blockchain}
use ash_coin.App.InStep.{IsWhole, IsSynced, sync_blockchain-cases, write-Agree}
use ash_coin.App.Mining.{
  Surroundings, RoundEnd, goes_on, stops, busy, crashes, next_block, give_up, publish, take_mined,
  after_mining, mine_round, going_on, keep_mining, broadcast_new_block,
}

pub requeue_loop-blocks :
    (txs : List Transaction) (count : ℕ) (c : Chain)
    → Holds (λ (_, c'). c'.blocks ≡ c.blocks) (requeue_loop txs count c)
unfolding requeue_loop queue_transaction
requeue_loop-blocks [] count c = refl
requeue_loop-blocks (tx ∷ txs) count c = elim (Option-cases (is_coinbase tx)) [
  | inl e ↦ rw (e, ◌>>=◌) tt
  | inr (true, e) ↦ rw (e, ◌>>=◌) (requeue_loop-blocks txs count c)
  | inr (false, e) ↦ rw (e, ◌>>=◌) (requeue_loop-blocks txs _ (queue_transaction tx c))
]

-- After a round that goes on the node is whole and no temporary chain waits.
abbrev pub IsRounded : {J : Type 0} → RoundEnd J → Type 0
IsRounded (goes_on sent app) = IsWhole app × (app.temp ≡ none)
IsRounded (stops app) = IsWhole app
IsRounded busy = Unit
IsRounded crashes = Unit

module _ {J : Type 0} (x : External J) (blank : Block) where
  give_up-IsRounded :
      (b : Block) (app : App) → IsWhole app → IsRounded (going_on x (give_up x blank b app))
  unfolding give_up requeue_transactions
  give_up-IsRounded b app (n, m, h) = elim (Option-cases (requeue_loop b.txs 0 app.chain)) [
    | inl e ↦ rw (e, ◌>>=◌) tt
    | inr ((k, c), e) ↦
        let same : c.blocks ≡ app.chain.blocks = rw e at (requeue_loop-blocks b.txs 0 app.chain) in
        elim (sync_blockchain-cases x blank (record app { chain = c }) (rw same (n, m, h))) [
          | inl stop ↦ rw (e, ◌>>=◌, stop) tt
          | inr (r, app', q, w, t) ↦ rw (e, ◌>>=◌, q) (w, t)
        ]
  ]

  publish-IsRounded : (app : App) → IsWhole app → IsRounded (going_on x (publish x blank app))
  unfolding publish
  publish-IsRounded app w0 = elim (sync_blockchain-cases x blank app w0) [
    | inl stop ↦ rw (stop, ◌>>=◌) tt
    | inr (r, app', q, w, t) ↦
        rw (q, ◌>>=◌)
          (elim (Bool-cases r) [
            | inl e ↦ rw e (w, t)
            | inr e ↦ rw e (elim (Option-cases (broadcast_new_block x app')) [
              | inl e' ↦ rw (e', ◌>>=◌) tt
              | inr (message, e') ↦ rw (e', ◌>>=◌) (w, t)
            ])
          ])
  ]

  take_mined-IsRounded :
      (b : Block) (app : App) → IsWhole app → IsRounded (take_mined x blank b app)
  unfolding take_mined
  take_mined-IsRounded b app (n, m, h) =
      let (l, e) = IsNonEmpty-last? app.chain.blocks n in
      elim (add_new_block-cases x b l app.chain e) [
        | inl thrown ↦ rw (take_mined, thrown) tt
        | inr (inl taken) ↦
            rw (take_mined, taken)
              (publish-IsRounded
                (record app { chain = push_block b app.chain; file = write b app.file })
                (IsNonEmpty-snoc app.chain.blocks b, m, write-Agree b app.chain app.file h))
        | inr (inr refused) ↦ rw (take_mined, refused) (n, m, h)
      ]

  pub after_mining-IsRounded :
      (o : Outcome) (app : App) → IsWhole app → IsRounded (after_mining x blank o app)
  unfolding after_mining
  after_mining-IsRounded (ended success b) app w = take_mined-IsRounded b app w
  after_mining-IsRounded (ended timeout b) app w = give_up-IsRounded b app w
  after_mining-IsRounded (ended abort b) app w = give_up-IsRounded b app w
  after_mining-IsRounded failed_assertion app w = tt
  after_mining-IsRounded threw app w = tt
  after_mining-IsRounded still_mining app w = tt

  pub next_block-IsWhole :
      (now : ℤ) (reward_address uuid : Text) (app : App)
      → IsWhole app
      → Holds (λ (_, app'). IsWhole app') (next_block x now reward_address uuid app)
  unfolding next_block
  next_block-IsWhole now reward_address uuid app (n, m, h) =
      let (l, e) = IsNonEmpty-last? app.chain.blocks n in
      let (b, q, _, _, _, _) = create_unmined_block_lem x now reward_address app.chain l e in
      elim (Option-cases (get_adjusted_difficulty app.chain)) [
        | inl e' ↦ rw (e', ◌>>=◌) tt
        | inr (d, e') ↦ rw (e', ◌>>=◌, q) (n, m, h)
      ]

  -- The other threads leave a whole node whole.
  abbrev pub KeepsWhole : Surroundings → Type 0
  KeepsWhole s = (app : App) → IsWhole app → IsWhole (s.afterwards app)

  -- A round of the mining thread, however it ends: if the other threads leave a whole node whole, the
  -- file still holds the blocks of the chain behind it, the chain has a block, and if the thread goes
  -- on, no temporary chain waits any more.
  pub mine_round-IsRounded :
      (fuel : ℕ) (s : Surroundings) (reward_address uuid : Text) (app : App)
      → KeepsWhole s
      → IsWhole app
      → IsRounded (mine_round x fuel s blank reward_address uuid app)
  unfolding mine_round
  mine_round-IsRounded fuel s reward_address uuid app keeps w =
      elim (Bool-cases (not app.mining_done && not app.finished)) [
        | inr e ↦ rw e w
        | inl e ↦ rw e (
            go (next_block x s.now reward_address uuid app)
              (next_block-IsWhole s.now reward_address uuid app w))
      ]
    where
      go :
          (o : Option (Block × App))
          → Holds (λ (_, app'). IsWhole app') o
          → IsRounded (elim o [
            | none ↦ crashes
            | some (b, begun) ↦
                let schedule : Schedule = record (s.schedule) {
                  keep_going = λ n. keep_mining (s.meanwhile n begun);
                } in
                after_mining x blank
                  (mine_block x fuel schedule begun.difficulty b)
                  (s.afterwards begun)
          ])
      go none _ = tt
      go (some (b, begun)) v = after_mining-IsRounded _ (s.afterwards begun) (keeps begun v)
