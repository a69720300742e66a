-- ===== src/App/Rest/Serve/Keeps.antt =====
-- What requests can do to a node: `initRestService` of src/MinerApp.cpp.
use ash_coin.Base.{
  false, arith, ◌≡◌, refl, Option, none, List, [], ◌∷◌, ◌++◌, Text, inl, inr, ◌⊎◌, Bool-cases,
  Option-cases, Holds, Holds-then, Holds-if, Bool, ◌>>=◌, if◌then◌else◌, pos, negsuc, from_chars,
  from_chars_int, Scanned-cases, Holds-map,
}
use ash_coin.External.{External}
use ash_coin.Tx.{Transaction}
use ash_coin.Tx.Result.{success, insufficient_funds, txouts_empty, noop_transaction, TxResult}
use ash_coin.Chain.Queue.{queue_transaction}
use ash_coin.Chain.Lookup.{find_transaction}
use mathlib.Core.Path.{subst}
use ash_coin.App.{App}
use ash_coin.App.InStep.{IsWhole}
use ash_coin.App.Rest.{Node, Reply, Written}
use ash_coin.App.Rest.Control.{rest_start_mining, rest_stop_mining, stop_mining, joined_app}
use ash_coin.App.Rest.Create.{answer_created, rest_create_tx, create_from}
use ash_coin.App.Rest.Views.{rest_block_idx, rest_blocks_last, rest_block, rest_tx}
use ash_coin.App.Rest.Serve.{
  Request, get_block_idx, get_blocks_last, get_create_wallet, get_start_mining, get_stop_mining,
  get_shutdown, post_create_tx, get_summary, get_block, get_unspent, get_address, get_tx, is_stop,
  serve,
}

-- The blocks, the chain that waits and the file are the same, and the queue has one transaction more
-- at most.
abbrev pub IsKept : Node → Node → Type 0
IsKept n n' =
    (n'.app.chain.blocks ≡ n.app.chain.blocks)
    × (n'.app.temp ≡ n.app.temp)
    × (n'.app.file ≡ n.app.file)
    × ((n'.app.chain.tx_queue ≡ n.app.chain.tx_queue)
        ⊎ ((t : Transaction) × (n'.app.chain.tx_queue ≡ n.app.chain.tx_queue ++ (t ∷ []))))

abbrev Keeps : Node → Reply → Type 0
Keeps n r = Holds (λ ((ws, n') : List Written × Node). IsKept n n') r

-- The node stays as it is.
IsKept-refl : (n : Node) → IsKept n n
IsKept-refl n = (refl, refl, refl, inl refl)

Keeps-none : (n : Node) → Keeps n none
Keeps-none n = tt

Keeps-then :
    (n : Node) {A : Type 0} (o : Option A) (f : A → Reply)
    → ((a : A) → Keeps n (f a))
    → Keeps n (o >>= f)
Keeps-then n = Holds-then (λ ((ws, n') : List Written × Node). IsKept n n')

Keeps-if :
    (n : Node) (b : Bool) (o p : Reply) → Keeps n o → Keeps n p → Keeps n (if b then o else p)
Keeps-if n = Holds-if (λ ((ws, n') : List Written × Node). IsKept n n')

start_mining-Keeps : (n : Node) → Keeps n (rest_start_mining n)
unfolding rest_start_mining
start_mining-Keeps n = elim (Bool-cases n.app.mining_done) [
  | inr e ↦ rw e (IsKept-refl n)
  | inl e ↦ rw e (elim (Bool-cases n.joinable) [ inl f ↦ rw f tt | inr f ↦ rw f (IsKept-refl n) ])
]

-- The node as the mining thread leaves it, where a request waits for its end.
abbrev pub behind_thread : Request → Node → Node
behind_thread (get_stop_mining last_round) n =
    if n.app.mining_done then n else record n { app = joined_app last_round (stop_mining n) }
behind_thread (get_block_idx _) n = n
behind_thread (get_blocks_last _) n = n
behind_thread (get_create_wallet _) n = n
behind_thread get_start_mining n = n
behind_thread get_shutdown n = n
behind_thread (post_create_tx _ _) n = n
behind_thread get_summary n = n
behind_thread (get_block _ _) n = n
behind_thread (get_unspent _ _) n = n
behind_thread (get_address _ _) n = n
behind_thread (get_tx _ _) n = n

behind_thread_other : (r : Request) (n : Node) → is_stop r ≡ false → behind_thread r n ≡ n
behind_thread_other (get_stop_mining last_round) n e = ground (arith, e)
behind_thread_other (get_block_idx _) n e = refl
behind_thread_other (get_blocks_last _) n e = refl
behind_thread_other (get_create_wallet _) n e = refl
behind_thread_other get_start_mining n e = refl
behind_thread_other get_shutdown n e = refl
behind_thread_other (post_create_tx _ _) n e = refl
behind_thread_other get_summary n e = refl
behind_thread_other (get_block _ _) n e = refl
behind_thread_other (get_unspent _ _) n e = refl
behind_thread_other (get_address _ _) n e = refl
behind_thread_other (get_tx _ _) n e = refl

stop_mining-Keeps :
    (last_round : App → App) (n : Node)
    → Keeps (behind_thread (get_stop_mining last_round) n) (rest_stop_mining last_round n)
unfolding rest_stop_mining
stop_mining-Keeps last_round n = elim (Bool-cases n.app.mining_done) [
  | inl e ↦ rw e (IsKept-refl n)
  | inr e ↦ rw e (IsKept-refl (record n { app = joined_app last_round (stop_mining n) }))
]

module _ {J : Type 0} (x : External J) where
  answer_created-Keeps :
      (path : Text) (r : TxResult × Transaction) (n : Node) → Keeps n (answer_created x path r n)
  unfolding queue_transaction
  answer_created-Keeps path (success, t) n = (refl, refl, refl, inr (t, refl))
  answer_created-Keeps path (insufficient_funds, t) n = search (Keeps-then, IsKept-refl) depth 6
  answer_created-Keeps path (txouts_empty, t) n = search (Keeps-then, IsKept-refl) depth 6
  answer_created-Keeps path (noop_transaction, t) n = search (Keeps-then, IsKept-refl) depth 6

  -- The handlers that only look, one a time.
  block_idx-Keeps : (s : Text) (n : Node) → Keeps n (rest_block_idx x s n)
  unfolding rest_block_idx
  block_idx-Keeps s n = elim (Scanned-cases (from_chars_int s)) [
    | inl (inl e) ↦ rw (rest_block_idx, e) (IsKept-refl n)
    | inl (inr e) ↦ rw (rest_block_idx, e) (IsKept-refl n)
    | inr (pos i, e) ↦ rw (rest_block_idx, e) (search (Keeps-then, Keeps-if, IsKept-refl) depth 6)
    | inr (negsuc i, e) ↦ rw (rest_block_idx, e) (IsKept-refl n)
  ]

  blocks_last-Keeps : (s : Text) (n : Node) → Keeps n (rest_blocks_last x s n)
  unfolding rest_blocks_last
  blocks_last-Keeps s n = elim (Scanned-cases (from_chars s)) [
    | inl (inl e) ↦ rw (rest_blocks_last, e) (IsKept-refl n)
    | inl (inr e) ↦ rw (rest_blocks_last, e) (search (Keeps-then, IsKept-refl) depth 6)
    | inr (k, e) ↦ rw (rest_blocks_last, e) (search (Keeps-then, IsKept-refl) depth 6)
  ]

  block-Keeps : (s : Text) (indent : Option Text) (n : Node) → Keeps n (rest_block x s indent n)
  unfolding rest_block
  block-Keeps s indent n = elim (Scanned-cases (from_chars s)) [
    | inl (inl e) ↦ rw (rest_block, e) (IsKept-refl n)
    | inl (inr e) ↦
        rw (rest_block, e) (search (Keeps-then, Keeps-if, Keeps-none, IsKept-refl) depth 6)
    | inr (k, e) ↦
        rw (rest_block, e) (search (Keeps-then, Keeps-if, Keeps-none, IsKept-refl) depth 6)
  ]

  tx-Keeps : (s : Text) (indent : Option Text) (n : Node) → Keeps n (rest_tx x s indent n)
  unfolding rest_tx
  tx-Keeps s indent n = elim (Option-cases (find_transaction n.app.chain s)) [
    | inl e ↦ rw (rest_tx, e) (IsKept-refl n)
    | inr (p, e) ↦ rw (rest_tx, e) (search (Keeps-then, IsKept-refl) depth 6)
  ]

  create_tx-Keeps : (path content : Text) (n : Node) → Keeps n (rest_create_tx x path content n)
  unfolding rest_create_tx create_from
  create_tx-Keeps path content n = elim (Option-cases (x.json.parse content)) [
    | inl e ↦ rw (rest_create_tx, e) (IsKept-refl n)
    | inr (j, e) ↦
        rw (rest_create_tx, e, create_from)
          (search (Keeps-then, Keeps-if, IsKept-refl, answer_created-Keeps) depth 12)
  ]

  -- A request, if it is answered, keeps the blocks, the waiting chain and the file, and puts one
  -- transaction into the queue at most; for `/rest/stopMining`, which waits until the mining thread has
  -- ended, that is so from what the thread leaves on.
  pub serve-IsKept :
      (r : Request) (n : Node) → Holds (λ (ws, n'). IsKept (behind_thread r n) n') (serve x r n)
  unfolding serve
  serve-IsKept (get_block_idx s) n = block_idx-Keeps s n
  serve-IsKept (get_blocks_last s) n = blocks_last-Keeps s n
  serve-IsKept (get_create_wallet private_key) n = IsKept-refl n
  serve-IsKept get_start_mining n = start_mining-Keeps n
  serve-IsKept (get_stop_mining last_round) n = stop_mining-Keeps last_round n
  serve-IsKept get_shutdown n = IsKept-refl n
  serve-IsKept (post_create_tx path content) n = create_tx-Keeps path content n
  serve-IsKept get_summary n = search (Keeps-then, IsKept-refl) depth 6
  serve-IsKept (get_block s indent) n = block-Keeps s indent n
  serve-IsKept (get_unspent s indent) n = search (Keeps-then, IsKept-refl) depth 6
  serve-IsKept (get_address s indent) n = search (Keeps-then, IsKept-refl) depth 6
  serve-IsKept (get_tx s indent) n = tx-Keeps s indent n

  -- What another request than `/rest/stopMining` keeps.
  pub serve_other-IsKept :
      (r : Request) (n : Node) → is_stop r ≡ false → Holds (λ (ws, n'). IsKept n n') (serve x r n)
  serve_other-IsKept r n e =
      subst (λ (m : Node). Holds (λ ((ws, n') : List Written × Node). IsKept m n') (serve x r n))
        (behind_thread_other r n e) (serve-IsKept r n)

  -- Such a request leaves a node whole that is whole, if it is answered.
  pub serve-IsWhole :
      (r : Request) (n : Node)
      → is_stop r ≡ false
      → IsWhole n.app
      → Holds (λ (ws, n'). IsWhole n'.app) (serve x r n)
  serve-IsWhole r n o (m, t, h) =
      Holds-map (λ (ws, n'). IsKept n n') (λ (ws, n'). IsWhole n'.app) (serve x r n)
        (λ (ws, n') (b, q, f, _). (rw b m, rw q t, rw (f, b) h)) (serve_other-IsKept r n o)
