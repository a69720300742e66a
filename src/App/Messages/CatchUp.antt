-- ===== src/App/Messages/CatchUp.antt =====
-- How a node of src/MinerApp.cpp that is behind comes to the chain of another one.
use ash_coin.Base.{
  ap, ◌∙◌, Bool, suc, ◌+◌, ◌-◌, ◌%◌, ◌^◌, ◌≤◌, ◌<◌, ◌≡◌, refl, ◌∙◌, true, false, ◌&&◌, none, some,
  List, [], ◌∷◌, ◌++◌, All, text_eq_iff, ltb, leb, ◌==◌, ◌>>=◌, last?, IsNonEmpty-last?, length,
  get_elem?, drop-append, take-length, get_elem?-last?, length-append, arith,
}
use ash_coin.External.{External}
use ash_coin.Block.{Block, valid_hash}
use ash_coin.Chain.{Chain, size, is_valid_chain}
use ash_coin.Chain.Valid.{IsLinkedFrom, IsLinked-tail, is_valid_chain_iff}
use ash_coin.Chain.Numbered.{IsNumbered, IsNumbered-append, IsNumbered-last?}
use ash_coin.App.{App, sync_blockchain}
use ash_coin.App.Extends.{written, sync_blockchain-eq-append}
use ash_coin.App.Messages.{
  range_json, answer_range, Sent, then_sync, handle_chain_response, handle_chain,
}
use ash_coin.App.Messages.Answers.{answer_range-eq-take}

abbrev pub sent_chain : List Block → Chain
sent_chain bs = record { blocks = bs; tx_queue = [] }

-- The blocks of the longer chain are those of the shorter one and more.
pub record IsBehind (a b : App) (l f : Block) (bs : List Block) : Type 0 where
  pub extends : b.chain.blocks ≡ a.chain.blocks ++ (f ∷ bs)
  pub ends : last? a.chain.blocks ≡ some l
  pub numbered : IsNumbered 0 b.chain.blocks
  pub two : 2 ≤ size a.chain
  pub bounded : size b.chain < 2 ^ 64

then_sync_idle :
    {J : Type 0} (x : External J) (blank : Block) (sent : List (Sent J)) (app : App) {r : Bool}
    {app' : App}
    → app.mining_done ≡ true
    → sync_blockchain x blank app ≡ some (r, app')
    → then_sync x blank sent app ≡ some (sent, app')
then_sync_idle x blank sent app m e = simp m (rw (e, ◌>>=◌) refl)

module _ {J : Type 0} (x : External J) (a b : App) (l f : Block) (bs : List Block)
    (behind : IsBehind a b l f bs) where
  open behind use {extends, ends, numbered, two, bounded}

  abbrev parts : IsNumbered 0 a.chain.blocks × IsNumbered (0 + size a.chain) (f ∷ bs)
  parts = IsNumbered-append 0 a.chain.blocks (f ∷ bs) (rw extends at numbered)

  at_end : l.index + 1 ≡ size a.chain
  at_end = omega (arith, IsNumbered-last? 0 a.chain.blocks parts.0 ends)

  at_place : f.index ≡ size a.chain
  at_place = omega (arith, parts.1.0)

  sizes : size b.chain ≡ size a.chain + suc (length bs)
  sizes = rw extends (length-append a.chain.blocks (f ∷ bs))

  -- The node that is ahead sends the blocks that the other one does not have.
  range-missing :
      (e : Block)
      → last? b.chain.blocks ≡ some e
      → answer_range x (l.index + 1) e.index b ≡ range_json x (f ∷ bs)
  range-missing e ee =
      let n = IsNumbered-last? 0 b.chain.blocks numbered ee in
      let answer =
        answer_range-eq-take x (l.index + 1) e.index b numbered (omega (arith, at_end, sizes)) in
      let all : suc e.index - (l.index + 1) ≡ length (f ∷ bs) = omega (arith, at_end, sizes) in
      answer ∙ rw (all, at_end, extends, drop-append a.chain.blocks (f ∷ bs), take-length bs) refl

  -- The other one lets them wait.
  waits :
      f.prev ≡ l.hash
      → handle_chain_response x (sent_chain (f ∷ bs)) a
        ≡ some ([], record a { temp = some (sent_chain (f ∷ bs)) })
  unfolding handle_chain_response
  waits link =
      let (z, ez) = IsNonEmpty-last? (f ∷ bs) tt in
      let before : f.index - 1 ≡ l.index = omega (arith, at_end, at_place) in
      let there : get_elem? a.chain.blocks (f.index - 1) ≡ some l =
        rw before (get_elem?-last? a.chain.blocks l.index ends at_end) in
      let later : (f.index == 0) ≡ false = ground (arith, at_place) in
      let next : ltb ((l.index + 1) % 2 ^ 64) f.index ≡ false =
        ground (arith, at_end, at_place, sizes) in
      let inside : (ltb (f.index - 1) (size a.chain) && ltb 0 (f.index - 1)) ≡ true =
        ground (arith, at_end, before) in
      let same = (text_eq_iff f.prev l.hash).1 link in
      rw (ez, ◌>>=◌, later, ends, ◌>>=◌, next, inside, there, ◌>>=◌, same) refl

  -- A node that does not mine, and that has two blocks at least, asks a node whose chain is valid and
  -- goes on where its own ends, for the blocks behind its own. The other one answers with exactly
  -- those, and when they come in, and the hash of each is valid, the node appends them to its chain
  -- and to its file; the blocks of the two nodes are then the same.
  pub handle_chain-answer_range :
      (blank e : Block)
      → last? b.chain.blocks ≡ some e
      → is_valid_chain x b.chain ≡ some true
      → All (λ (c : Block). valid_hash x c ≡ some true) (f ∷ bs)
      → a.mining_done ≡ true
      → (answer_range x (l.index + 1) e.index b ≡ range_json x (f ∷ bs))
        × (handle_chain x blank (sent_chain (f ∷ bs)) a
            ≡ some (
              [],
              record a {
                chain = record (a.chain) { blocks = b.chain.blocks };
                temp = none;
                file = written (f ∷ bs) a.file;
              },
            ))
  unfolding handle_chain
  handle_chain-answer_range blank e ee v hs m =
      let linked : IsLinkedFrom x l (f ∷ bs) =
        IsLinked-tail x l a.chain.blocks (f ∷ bs) ends
          (rw extends at ((is_valid_chain_iff x b.chain).1.0 v).0) in
      let all : size b.chain ≡ size a.chain + length (f ∷ bs) =
        ap length extends ∙ length-append a.chain.blocks (f ∷ bs) in
      let few : size (sent_chain (f ∷ bs)) < 2 ^ 32 =
        omega (arith, ((is_valid_chain_iff x b.chain).1.0 v).1, all) in
      let fine : is_valid_chain x (sent_chain (f ∷ bs)) ≡ some true =
        (is_valid_chain_iff x (sent_chain (f ∷ bs))).1.1 (linked.1, few) in
      let waiting : App = record a { temp = some (sent_chain (f ∷ bs)) } in
      let taken =
        sync_blockchain-eq-append x blank l f bs (sent_chain (f ∷ bs)) waiting refl refl ends
          (omega (arith, at_end, sizes)) linked hs in
      let some_left : leb (suc (length bs)) 0 ≡ false = ground arith in
      (
        range-missing e ee,
        rw
            (
              fine,
              ◌>>=◌,
              some_left,
              waits linked.0.prev_hash,
              ◌>>=◌,
              then_sync_idle x blank [] waiting m taken,
              extends,
            )
            refl,
      )
