-- ===== src/Database/Load.antt =====
-- The operations of `ChainDatabase`. A file that ends inside a block is `none` where the rest of the
-- block stays indeterminate.
pub mod Fuel
pub mod Reload
pub mod Store
pub mod Whole
use ash_coin.Base.{
  ℕ, zero, suc, Bool, true, false, Option, none, some, List, [], ◌∷◌, ◌++◌, Text, length, ◌>>=◌,
  if◌then◌else◌,
}
use ash_coin.External.{External}
use ash_coin.Block.{Block}
use ash_coin.Chain.{Chain, is_valid_chain}
use ash_coin.Database.Codec.{write_block, read_block}

abbrev pub File : Type 0
File = Option Text

abbrev pub content : File → Text
content none = []
content (some s) = s

-- `ChainDatabase::write` appends to the file, and makes it where there is none.
unfoldable pub write : Block → File → File
write b file = some (content file ++ write_block b)

unfoldable pub write_blocks : List Block → Text
write_blocks [] = []
write_blocks (b ∷ bs) = write_block b ++ write_blocks bs

-- `ChainDatabase::writeChain`
unfoldable pub write_chain : Chain → File → File
unfolding write_blocks
write_chain c file = some (content file ++ write_blocks c.blocks)

-- `ChainDatabase::reset`
unfoldable pub reset : File → File
reset file = none

-- The loop of `initialize`: it reads blocks until the end of the file.
unfoldable pub read_blocks : ℕ → Text → Option (List Block)
read_blocks fuel [] = some []
read_blocks zero (a ∷ s) = none
read_blocks (suc fuel) (a ∷ s) =
    read_block (a ∷ s) >>= λ (b, rest). read_blocks fuel rest >>= λ bs. some (b ∷ bs)

-- How `initialize` ends: with a chain, or with one of its two exceptions.
pub data Loaded : Type 0 where
  loaded : Chain → Loaded
  invalid_chain : Loaded
  index_error : Loaded

module _ {J : Type 0} (x : External J) where
  -- `ChainDatabase::initialize`, where `genesis` is what the callback returns and `opens` says whether
  -- the index opens. Each block takes bytes of the file, so its size is fuel enough.
  unfoldable pub initialize : Bool → Block → File → Chain → Option (Loaded × File)
  unfolding read_blocks write
  initialize opens genesis file c =
      let file' : File = elim file [ none ↦ write genesis none | some s ↦ some s ] in
      read_blocks (length (content file')) (content file') >>= λ bs.
      let c' : Chain = record { blocks = c.blocks ++ bs; tx_queue = c.tx_queue } in
      is_valid_chain x c' >>= λ valid.
      if valid
      then some (if opens then loaded c' else index_error, file')
      else some (invalid_chain, file')
