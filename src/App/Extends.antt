-- ===== src/App/Extends.antt =====
-- `syncBlockchain` of src/MinerApp.cpp for a temporary chain that continues the chain.
use ash_coin.Base.{
  ◌+◌, ◌%◌, ◌^◌, ◌<◌, ◌≡◌, refl, true, false, none, some, List, [], ◌∷◌, ◌++◌, All, head?, last?,
  last?-append, append_assoc, append-nil, arith, ◌>>=◌, ◌==◌, leb,
}
use ash_coin.External.{External}
use ash_coin.Block.{Block, valid_hash}
use ash_coin.Chain.{Chain, push_block}
use ash_coin.Chain.Valid.{IsLinkedFrom}
use ash_coin.Chain.Add.{add_new_block_valid}
use ash_coin.Database.Load.{File, write}
use ash_coin.App.{App, append_blocks, extend, sync_with, sync_blockchain}

-- The file behind some calls of `write`.
abbrev pub written : List Block → File → File
written [] file = file
written (b ∷ bs) file = written bs (write b file)

module _ {J : Type 0} (x : External J) where
  append_blocks-eq-append :
      (bs : List Block) (c : Chain) (file : File) (l : Block)
      → last? c.blocks ≡ some l
      → IsLinkedFrom x l bs
      → All (λ (b : Block). valid_hash x b ≡ some true) bs
      → append_blocks x bs c file ≡ some (record c { blocks = c.blocks ++ bs }, written bs file)
  unfolding append_blocks
  append_blocks-eq-append [] c file l e _ _ = rw (append-nil c.blocks) refl
  append_blocks-eq-append (b ∷ bs) c file l e (n, ns) (v, vs) =
      let q = add_new_block_valid x b l c e v n.prev_hash in
      let rest =
        append_blocks-eq-append bs (push_block b c) (write b file) b (last?-append c.blocks b) ns
          vs in
      rw (append_blocks, q, ◌>>=◌, rest, append_assoc) refl

  -- A temporary chain that begins behind the last block, each block following the one before it with
  -- a hash that is valid, is appended as a whole, and its blocks are written to the file one after
  -- the other; no temporary chain waits afterwards.
  pub sync_blockchain-eq-append :
      (blank l f : Block) (bs : List Block) (t : Chain) (app : App)
      → app.temp ≡ some t
      → t.blocks ≡ f ∷ bs
      → last? app.chain.blocks ≡ some l
      → l.index + 1 < 2 ^ 64
      → IsLinkedFrom x l (f ∷ bs)
      → All (λ (b : Block). valid_hash x b ≡ some true) (f ∷ bs)
      → sync_blockchain x blank app
        ≡ some (
          true,
          record app {
            chain = record (app.chain) { blocks = app.chain.blocks ++ (f ∷ bs) };
            temp = none;
            file = written (f ∷ bs) app.file;
          },
        )
  unfolding sync_blockchain sync_with extend
  sync_blockchain-eq-append blank l f bs t app et eb el w ns vs =
      let i : f.index ≡ l.index + 1 = omega (arith, ns.0.index_next) in
      let positive : (f.index == 0) ≡ false = ground arith in
      let beyond : leb f.index l.index ≡ false = ground arith in
      let next : (f.index == (l.index + 1) % 2 ^ 64) ≡ true = ground arith in
      let begins : head? t.blocks ≡ some f = rw eb refl in
      let all = append_blocks-eq-append (f ∷ bs) app.chain app.file l el ns vs in
      let extended : sync_with x blank t app
          ≡ some (
            true,
            record app {
              chain = record (app.chain) { blocks = app.chain.blocks ++ (f ∷ bs) };
              file = written (f ∷ bs) app.file;
            },
          ) =
        rw (begins, ◌>>=◌, positive, el, ◌>>=◌, beyond, next, extend, eb, all, ◌>>=◌) refl in
      simp (sync_blockchain, et) (rw (extended, ◌>>=◌) refl)
