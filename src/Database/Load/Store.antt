-- ===== src/Database/Load/Store.antt =====
-- What `ChainDatabase` of src/ChainDatabase.cpp promises: a store of blocks, or of nothing where there
-- is no file, that `write` and `writeChain` append to, that `reset` removes, and that `initialize`
-- reads.
use ash_coin.Base.{◌≡◌, refl, Option, none, some, List, [], ◌∷◌, ◌++◌, map, length, All, append-nil}
use native.Mathlib.Nat.{le_refl}
use ash_coin.Block.{Block}
use ash_coin.Chain.{Chain}
use ash_coin.Database.RoundTrip.{CanStore, stored}
use ash_coin.Database.Load.{File, content, write, write_blocks, write_chain, reset, read_blocks}
use ash_coin.Database.Load.Reload.{read_blocks-write_blocks, write_blocks-append}

-- The calls that change the file.
pub data Call : Type 0 where
  call_write : Block → Call
  call_write_chain : Chain → Call
  call_reset : Call

-- The calls one after the other, on the file.
unfoldable pub run_calls : List Call → File → File
unfolding write write_chain reset
run_calls [] file = file
run_calls (call_write b ∷ calls) file = run_calls calls (write b file)
run_calls (call_write_chain c ∷ calls) file = run_calls calls (write_chain c file)
run_calls (call_reset ∷ calls) file = run_calls calls (reset file)

-- The store: the blocks that are held, or nothing.
abbrev pub Store : Type 0
Store = Option (List Block)

abbrev pub held : Store → List Block
held none = []
held (some bs) = bs

-- The same calls, on the store.
abbrev pub replay : List Call → Store → Store
replay [] s = s
replay (call_write b ∷ calls) s = replay calls (some (held s ++ (b ∷ [])))
replay (call_write_chain c ∷ calls) s = replay calls (some (held s ++ c.blocks))
replay (call_reset ∷ calls) s = replay calls none

-- The file of a store.
abbrev pub file_of : Store → File
file_of none = none
file_of (some bs) = some (write_blocks bs)

content-file_of : (s : Store) → content (file_of s) ≡ write_blocks (held s)
unfolding write_blocks
content-file_of none = refl
content-file_of (some bs) = refl

write-file_of : (b : Block) (s : Store) → write b (file_of s) ≡ file_of (some (held s ++ (b ∷ [])))
unfolding write write_blocks
write-file_of b s = rw (content-file_of s, write_blocks-append (held s) (b ∷ []), append-nil) refl

write_chain-file_of :
    (c : Chain) (s : Store) → write_chain c (file_of s) ≡ file_of (some (held s ++ c.blocks))
unfolding write_chain
write_chain-file_of c s = rw (content-file_of s, write_blocks-append (held s) c.blocks) refl

-- Any run of calls on the file of a store ends in the file of the store that the same calls end in.
run_calls-replay :
    (calls : List Call) (s : Store) → run_calls calls (file_of s) ≡ file_of (replay calls s)
unfolding run_calls
run_calls-replay [] s = refl
run_calls-replay (call_write b ∷ calls) s =
    rw (write-file_of b s) (run_calls-replay calls (some (held s ++ (b ∷ []))))
run_calls-replay (call_write_chain c ∷ calls) s =
    rw (write_chain-file_of c s) (run_calls-replay calls (some (held s ++ c.blocks)))
run_calls-replay (call_reset ∷ calls) s = run_calls-replay calls none

-- After any calls of `write`, `writeChain` and `reset`, beginning without a file, the file is that of
-- the store that the calls make, and if it can hold each of the blocks, the loop of `initialize` reads
-- exactly the blocks of the store, each as it comes back from the file.
pub run_calls_refines :
    (calls : List Call)
    → All CanStore (held (replay calls none))
    → (run_calls calls none ≡ file_of (replay calls none))
      × (read_blocks (length (content (run_calls calls none))) (content (run_calls calls none))
          ≡ some (map stored (held (replay calls none))))
run_calls_refines calls can =
    let same = run_calls-replay calls none in
    (
      same,
      rw (same, content-file_of (replay calls none))
          (read_blocks-write_blocks (held (replay calls none))
            (length (write_blocks (held (replay calls none)))) can (le_refl _)),
    )
