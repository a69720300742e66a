-- ===== src/App/Messages/Answers.antt =====
-- What the node makes of chains that it is sent, and which blocks it sends.
use ash_coin.Base.{
  ℕ, suc, ◌+◌, ◌-◌, ◌%◌, ◌^◌, ◌≤◌, ◌<◌, ◌≡◌, refl, sym, ap, ◌↔◌, ◌&&◌, IsNonEmpty-drop,
  head?-IsNonEmpty, take-nil, drop-nil, get_elem?_below, none, some, List, [], ◌∷◌, txt, text_eq,
  inl, inr, Bool-cases, IsNonEmpty, IsNonEmpty-last?, ltb, leb, ◌==◌, ◌>>=◌, head?, take, drop,
  arith,
}
use native.Mathlib.Nat.{add-zero}
use ash_coin.External.{External}
use ash_coin.Block.{Block}
use ash_coin.Chain.{Chain, size}
use ash_coin.Chain.Numbered.{IsNumbered, IsNumbered-drop, IsNumbered-last?}
use ash_coin.App.{App}
use ash_coin.App.Messages.{
  blocks_from, blocks_to, range_json, error_json, answer_range, handle_chain_response,
}

blocks_to-eq-take :
    (id2 k : ℕ) (bs : List Block) → IsNumbered k bs → blocks_to id2 bs ≡ take (suc id2 - k) bs
unfolding blocks_to
blocks_to-eq-take id2 k [] n = sym (take-nil (suc id2 - k))
blocks_to-eq-take id2 k (b ∷ bs) (e, n) = elim (Bool-cases (leb b.index id2)) [
  | inl h ↦
      let one : suc id2 - k ≡ suc (suc id2 - suc k) = ground arith in
      rw (h, one, blocks_to-eq-take id2 (suc k) bs n) refl
  | inr h ↦ let none_left : suc id2 - k ≡ 0 = ground arith in rw (h, none_left) refl
]

blocks_from-eq-drop :
    (id1 k : ℕ) (bs : List Block)
    → IsNumbered k bs
    → k ≤ id1
    → blocks_from id1 bs ≡ drop (id1 - k) bs
unfolding blocks_from
blocks_from-eq-drop id1 k [] n h = sym (drop-nil (id1 - k))
blocks_from-eq-drop id1 k (b ∷ bs) (e, n) h = elim (Bool-cases (b.index == id1)) [
  | inl here ↦ let first : id1 - k ≡ 0 = ground arith in rw (here, first) refl
  | inr later ↦
      let one : id1 - k ≡ suc (id1 - suc k) = ground arith in
      rw (later, one) (blocks_from-eq-drop id1 (suc k) bs n (ground arith))
]

module _ {J : Type 0} (x : External J) where
  -- At a chain whose blocks have their places as indices, the answer to a request for a range that
  -- begins in the chain is the blocks at the places from `id1` to `id2`, or up to the end.
  pub answer_range-eq-take :
      (id1 id2 : ℕ) (app : App)
      → IsNumbered 0 app.chain.blocks
      → id1 < size app.chain
      → answer_range x id1 id2 app ≡ range_json x (take (suc id2 - id1) (drop id1 app.chain.blocks))
  unfolding answer_range
  answer_range-eq-take id1 id2 app n h =
      let all : id1 - 0 ≡ id1 = omega arith in
      let from : blocks_from id1 app.chain.blocks ≡ drop id1 app.chain.blocks =
        rw all at (blocks_from-eq-drop id1 0 app.chain.blocks n (omega arith)) in
      rw (answer_range, from)
        (go (drop id1 app.chain.blocks)
          (rw (add-zero id1) at (IsNumbered-drop id1 0 app.chain.blocks n))
          (IsNonEmpty-drop id1 app.chain.blocks h))
    where
      go :
          (bs : List Block)
          → IsNumbered id1 bs
          → IsNonEmpty bs
          → elim bs [
            | [] ↦ error_json x (txt "could not find id1 in chain")
            | b ∷ bs' ↦ range_json x (blocks_to id2 (b ∷ bs'))
          ]
            ≡ range_json x (take (suc id2 - id1) bs)
      go [] m k = absurd k
      go (b ∷ bs) m k = ap (range_json x) (blocks_to-eq-take id2 id1 (b ∷ bs) m)

  -- A chain that comes with a response aborts the node exactly if it begins at block 1, on a node
  -- whose blocks have their places as indices.
  pub handle_chain_response_aborts :
      (t : Chain) (app : App) (f : Block)
      → head? t.blocks ≡ some f
      → IsNonEmpty app.chain.blocks
      → IsNumbered 0 app.chain.blocks
      → size app.chain < 2 ^ 64
      → (handle_chain_response x t app ≡ none) ↔ (f.index ≡ 1)
  unfolding handle_chain_response
  handle_chain_response_aborts t app f ef m n w =
      let (l, el) = IsNonEmpty-last? app.chain.blocks m in
      let (z, ez) = IsNonEmpty-last? t.blocks (head?-IsNonEmpty t.blocks ef) in
      let at_end : l.index + 1 ≡ 0 + size app.chain = IsNumbered-last? 0 app.chain.blocks n el in
      rw (ef, ez, ◌>>=◌)
        (elim (Bool-cases (f.index == 0)) [
          | inl e ↦ rw e (ground arith)
          | inr e ↦
              rw (e, el, ◌>>=◌)
                (elim (Bool-cases (ltb ((l.index + 1) % 2 ^ 64) f.index)) [
                  | inl e' ↦ rw e' (ground arith)
                  | inr e' ↦
                      rw e'
                        (elim (Bool-cases
                          (ltb (f.index - 1) (size app.chain) && ltb 0 (f.index - 1))) [
                            | inr e'' ↦ rw e'' (ground arith)
                            | inl e'' ↦
                                let (p, ep) =
                                  get_elem?_below app.chain.blocks (f.index - 1) (ground arith) in
                                rw (e'', ep, ◌>>=◌)
                                  (elim (Bool-cases (text_eq f.prev p.hash)) [
                                    | inl q ↦ rw q (ground arith)
                                    | inr q ↦ rw q (ground arith)
                                  ])
                          ])
                ])
        ])
