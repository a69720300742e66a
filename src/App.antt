-- ===== src/App.antt =====
-- src/MinerApp.h and src/MinerApp.cpp: the state of the node, and `syncBlockchain`. `none` stands for
-- an exception, a failed assertion or undefined behaviour. The mutexes, the threads, the log and the
-- pages are not modelled.
pub mod Messages
pub mod Mining
pub mod InStep
pub mod Rounds
pub mod Extends
pub mod Rest
pub mod Chained
pub mod Runs
pub mod Start
pub mod Pages
use ash_coin.Base.{
  ℕ, suc, ◌+◌, ◌%◌, ◌^◌, Bool, true, false, Option, none, some, List, [], ◌∷◌, leb, ◌==◌, ◌>>=◌,
  if◌then◌else◌, head?, last?, length,
}
use ash_coin.External.{External}
use ash_coin.Block.{Block}
use ash_coin.Chain.{Chain, resize, add_new_block}
use ash_coin.Database.Load.{File, write, write_chain, reset}

-- The members of `MinerApp` that change while it runs; `difficulty` is the miner's.
pub record App : Type 0 where
  pub chain : Chain
  pub temp : Option Chain
  pub file : File
  pub mining_done : Bool
  pub finished : Bool
  pub difficulty : ℕ

module _ {J : Type 0} (x : External J) where
  -- The loop that adds the blocks of the temporary chain and goes on where one is refused.
  unfoldable pub add_blocks : List Block → Chain → Option Chain
  add_blocks [] c = some c
  add_blocks (b ∷ bs) c = add_new_block x b c >>= λ (_, c'). add_blocks bs c'

  -- The loop that also writes each block that was added.
  unfoldable pub append_blocks : List Block → Chain → File → Option (Chain × File)
  append_blocks [] c file = some (c, file)
  append_blocks (b ∷ bs) c file = add_new_block x b c >>= λ (done, c').
      append_blocks bs c' (if done then write b file else file)

  -- The temporary chain replaces the chain, and the queue of transactions with it.
  abbrev pub replace_chain : Chain → App → App
  replace_chain t app = record app { chain = t; file = write_chain t (reset app.file) }

  -- From the first index of the temporary chain on, its blocks take the place of the chain's.
  unfoldable pub overlap : Block → ℕ → Chain → App → Option (Bool × App)
  unfolding add_blocks resize
  overlap blank start t app = do
    cut ← resize x.blocks_fit blank start app.chain
    c ← add_blocks t.blocks cut
    some (true, record app { chain = c; file = write_chain c (reset app.file) })

  unfoldable pub extend : Chain → App → Option (Bool × App)
  unfolding append_blocks
  extend t app = append_blocks t.blocks app.chain app.file >>= λ (c, file).
      some (true, record app { chain = c; file = file })

  unfoldable pub sync_with : Block → Chain → App → Option (Bool × App)
  unfolding overlap extend
  sync_with blank t app = do
    first ← head? t.blocks
    elim (first.index == 0) [
      | true ↦ some (true, replace_chain t app)
      | false ↦ last? app.chain.blocks >>= λ last. elim (leb first.index last.index) [
        | true ↦ overlap blank first.index t app
        | false ↦ elim (first.index == (last.index + 1) % 2 ^ 64) [
          | true ↦ extend t app
          | false ↦ some (false, app)
        ]
      ]
    ]

  -- `MinerApp::syncBlockchain`, with what it returns. `blank` is a block of the default constructor.
  unfoldable pub sync_blockchain : Block → App → Option (Bool × App)
  unfolding sync_with
  sync_blockchain blank app = elim app.temp [
    | none ↦ some (false, app)
    | some t ↦ sync_with blank t app >>= λ (r, app'). some (r, record app' { temp = none })
  ]
