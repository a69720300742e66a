-- ===== src/Database/Load/Reload.antt =====
-- Chains as `write` and `writeChain` write them and `initialize` loads them.
use ash_coin.Base.{
  ℕ, zero, suc, ◌≤◌, ◌<◌, ◌≡◌, refl, ◌∙◌, Bool, true, none, some, List, [], ◌∷◌, ◌++◌, map, Text,
  length, arith, All, ◌>>=◌, append_assoc, append-nil, if◌then◌else◌,
}
use native.Mathlib.Nat.{le_refl}
use ash_coin.External.{External}
use ash_coin.Block.{Block}
use ash_coin.Chain.{Chain, empty_chain, is_valid_chain}
use ash_coin.Database.Codec.{write_block, read_block}
use ash_coin.Database.RoundTrip.{CanStore, stored, read_block-write_block}
use ash_coin.Database.Load.{
  File, write, write_blocks, write_chain, reset, read_blocks, loaded, initialize, index_error,
}
use ash_coin.Database.Load.Fuel.{read_block-Shrinks}

read_blocks-step :
    (fuel : ℕ) (s : Text) {b : Block} {r : Text}
    → read_block s ≡ some (b, r)
    → read_blocks (suc fuel) s ≡ (read_blocks fuel r >>= λ bs. some (b ∷ bs))
unfolding read_blocks
read_blocks-step fuel [] {b} {r} e = absurd (omega (arith, read_block-Shrinks.lt [] b r e))
read_blocks-step fuel (a ∷ s) e = rw e

pub read_blocks-write_blocks :
    (bs : List Block) (fuel : ℕ)
    → All CanStore bs
    → length (write_blocks bs) ≤ fuel
    → read_blocks fuel (write_blocks bs) ≡ some (map stored bs)
unfolding write_blocks read_blocks
read_blocks-write_blocks [] fuel _ h = refl
read_blocks-write_blocks (b ∷ bs) fuel (p, ps) h =
    go fuel h (read_block-Shrinks.lt _ _ _ back) (λ k. read_blocks-write_blocks bs k ps)
  where
    back : read_block (write_block b ++ write_blocks bs) ≡ some (stored b, write_blocks bs)
    back = read_block-write_block b (write_blocks bs) p

    go :
        (k : ℕ)
        → length (write_block b ++ write_blocks bs) ≤ k
        → length (write_blocks bs) < length (write_block b ++ write_blocks bs)
        → ((j : ℕ)
            → length (write_blocks bs) ≤ j
            → read_blocks j (write_blocks bs) ≡ some (map stored bs))
        → read_blocks k (write_block b ++ write_blocks bs) ≡ some (stored b ∷ map stored bs)
    go zero l less ih = absurd (omega arith)
    go (suc k) l less ih =
        read_blocks-step k (write_block b ++ write_blocks bs) back ∙ rw (ih k (omega arith))

read_one :
    (g : Block)
    → CanStore g
    → read_blocks (length (write_block g)) (write_block g) ≡ some (stored g ∷ [])
unfolding write_blocks
read_one g p =
    rw append-nil at
      (read_blocks-write_blocks (g ∷ []) (length (write_block g ++ [])) (p, tt) (le_refl _))

pub write_blocks-append :
    (bs cs : List Block) → write_blocks (bs ++ cs) ≡ write_blocks bs ++ write_blocks cs
unfolding write_blocks
write_blocks-append [] cs = refl
write_blocks-append (b ∷ bs) cs = rw (write_blocks-append bs cs, append_assoc)

module _ {J : Type 0} (x : External J) where
  -- A valid chain whose blocks the file can hold, and whose inputs carry no address and no amount,
  -- is loaded as it was from the file that `reset` and `writeChain` make, with an empty queue, if
  -- the index opens; the file stays as it is.
  pub initialize-write_chain :
      (genesis : Block) (c : Chain) (file : File)
      → All CanStore c.blocks
      → map stored c.blocks ≡ c.blocks
      → is_valid_chain x (record { blocks = c.blocks; tx_queue = [] }) ≡ some true
      → initialize x true genesis (write_chain c (reset file)) empty_chain
        ≡ some (loaded (record { blocks = c.blocks; tx_queue = [] }), write_chain c (reset file))
  unfolding initialize write_chain reset
  initialize-write_chain genesis c file p bare v =
      rw (read_blocks-write_blocks c.blocks (length (write_blocks c.blocks)) p (le_refl _), bare, v)

  -- Where there is no file, the chain that is loaded is the genesis block, as the file gives it back,
  -- and the file holds that block.
  pub initialize_fresh :
      (opens : Bool) (genesis : Block)
      → CanStore genesis
      → initialize x opens genesis none empty_chain
        ≡ some (
          if opens
              then loaded (record { blocks = stored genesis ∷ []; tx_queue = [] })
              else index_error,
          write genesis none,
        )
  unfolding initialize write is_valid_chain
  initialize_fresh opens genesis p = rw (read_one genesis p)
