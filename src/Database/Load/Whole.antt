-- ===== src/Database/Load/Whole.antt =====
-- Files of bytes, whoever wrote them, as the constructor and `initialize` of src/ChainDatabase.cpp
-- load them.
use ash_coin.Base.{
  ℕ, zero, suc, ◌≡◌, ◌∙◌, refl, sym, ap, Option, false, true, none, some, List, [], ◌∷◌, ◌++◌, Text,
  length, replicate, append_assoc, append-nil, All, Option-cases, inl, inr, arith,
}
use mathlib.Core.Path.{subst}
use mathlib.Core.Option.{none-ne-some, some-injective}
use ash_coin.External.{External}
use ash_coin.Tx.{Transaction}
use ash_coin.Block.{Block}
use ash_coin.Chain.{Chain, empty_chain, is_valid_chain}
use ash_coin.Database.RoundTrip.{CanStore, stored}
use ash_coin.Database.Codec.{write_block, read_block}
use ash_coin.Database.Takes.{IsByte, Covers-then}
use ash_coin.Database.Takes.Blocks.{IsBare, map_bare, All-first, read_block-Takes}
use ash_coin.Database.Load.{
  write_chain, reset, File, Loaded, write_blocks, read_blocks, loaded, invalid_chain, index_error,
  initialize,
}
use ash_coin.Database.Load.Reload.{initialize-write_chain}

read_blocks-taken :
    (fuel : ℕ) (s : Text) (bs : List Block)
    → All IsByte s
    → read_blocks fuel s ≡ some bs
    → ((k : ℕ) × (s ++ replicate k 0 ≡ write_blocks bs)) × All IsBare bs
unfolding read_blocks write_blocks
read_blocks-taken fuel [] bs bytes e =
    subst
      (λ (bs' : List Block). ((k : ℕ) × ([] ++ replicate k 0 ≡ write_blocks bs')) × All IsBare bs')
      (some-injective _ _ e) ((0, refl), tt)
read_blocks-taken zero (a ∷ s) bs bytes e = ground arith
read_blocks-taken (suc fuel) (a ∷ s) bs bytes e = elim (Option-cases (read_block (a ∷ s))) [
  | inl stop ↦ absurd (none-ne-some _ (rw stop at e))
  | inr ((b, r), go) ↦
      let (took, bare, left, less) = read_block-Takes.taken (a ∷ s) b r bytes go in
      elim (Option-cases (read_blocks fuel r)) [
        | inl stop ↦ absurd (none-ne-some _ (rw (go, stop) at e))
        | inr (bs', more) ↦
            let ((j, rest), bares) = read_blocks-taken fuel r bs' left more in
            let (k, all, d) =
              Covers-then [] (a ∷ s) (write_block b) r (write_block b ++ write_blocks bs') [] took
                (
                  j,
                  append_assoc (write_block b) r _
                      ∙ ap (λ (v : Text). write_block b ++ v) rest
                      ∙ sym (append-nil _),
                  inr refl,
                )
                (omega arith) in
            subst
              (λ (bs'' : List Block).
                ((i : ℕ) × ((a ∷ s) ++ replicate i 0 ≡ write_blocks bs'')) × All IsBare bs'')
              (some-injective _ _ (rw (go, more) at e)) ((k, all ∙ append-nil _), (bare, bares))
      ]
]

-- The chain that was loaded.
abbrev chain_of : Option (Loaded × File) → Chain
chain_of none = empty_chain
chain_of (some (loaded c, _)) = c
chain_of (some (invalid_chain, _)) = empty_chain
chain_of (some (index_error, _)) = empty_chain

-- What holds of a chain that a file with these bytes loads as: the file is what is written of the
-- blocks, of which zeros may be missing at the end.
abbrev pub IsHeldBy : {J : Type 0} → External J → Text → Chain → Type 0
IsHeldBy x s c =
    (c.tx_queue ≡ [])
    × ((k : ℕ) × (s ++ replicate k 0 ≡ write_blocks c.blocks))
    × All IsBare c.blocks
    × (is_valid_chain x c ≡ some true)

module _ {J : Type 0} (x : External J) (genesis : Block) where
  initialize-IsHeldBy :
      (s : Text) (c : Chain)
      → All IsByte s
      → initialize x true genesis (some s) empty_chain ≡ some (loaded c, some s)
      → IsHeldBy x s c
  unfolding initialize
  initialize-IsHeldBy s c bytes e = elim (Option-cases (read_blocks (length s) s)) [
    | inl stop ↦ absurd (none-ne-some _ (rw stop at e))
    | inr (bs, go) ↦
        let (cut, bare) = read_blocks-taken (length s) s bs bytes go in
        elim (Option-cases (is_valid_chain x (record { blocks = bs; tx_queue = [] }))) [
          | inl stop ↦ absurd (none-ne-some _ (rw (go, stop) at e))
          | inr (false, refused) ↦ let never = rw (go, refused) at e in ground arith
          | inr (true, taken) ↦
              subst (IsHeldBy x s) (ap chain_of (rw (go, taken) at e)) (refl, cut, bare, taken)
        ]
  ]

  -- Where the index opens, a file of bytes that loads as a chain is what is written of the blocks of
  -- the chain, but for zeros that are missing at its end, and the chain is valid with an empty queue,
  -- each of its blocks one that can be written and is read as it is. From the whole of what is written
  -- of its blocks the same chain is loaded again.
  pub initialize-loads :
      (s : Text) (c : Chain)
      → All IsByte s
      → initialize x true genesis (some s) empty_chain ≡ some (loaded c, some s)
      → IsHeldBy x s c
        × (initialize x true genesis (some (write_blocks c.blocks)) empty_chain
            ≡ some (loaded c, some (write_blocks c.blocks)))
  unfolding write_chain reset
  initialize-loads s c bytes e =
      let held = initialize-IsHeldBy s c bytes e in
      let (q, _, bare, v) = held in
      let emptied : (record c { tx_queue = [] }) ≡ c =
        ap (λ (txs : List Transaction). record c { tx_queue = txs }) (sym q) in
      (
        held,
        subst
            (λ (d : Chain).
              initialize x true genesis (some (write_blocks c.blocks)) empty_chain
              ≡ some (loaded d, some (write_blocks c.blocks)))
            emptied
            (initialize-write_chain x genesis c none
              (All-first CanStore (λ b. stored b ≡ b) c.blocks bare)
              (map_bare CanStore stored c.blocks bare)
              (subst (λ (d : Chain). is_valid_chain x d ≡ some true) (sym emptied) v)),
      )
