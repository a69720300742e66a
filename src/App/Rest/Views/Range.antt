-- ===== src/App/Rest/Views/Range.antt =====
-- What `/blocks/last/` and `/rest/tx/` of src/MinerApp.cpp write.
use ash_coin.Base.{
  ℕ, zero, suc, ◌+◌, ◌-◌, ◌^◌, ◌<◌, ◌≡◌, refl, Option, some, List, Text, decimal,
  from_chars-decimal, leb, ◌>>=◌, inl, inr, Bool-cases, Option-cases, Holds, Holds-then,
  get_elem?_below, last?, drop, drop-at, drop-length, length, arith,
}
use ash_coin.External.{External}
use ash_coin.Chain.{Chain, size}
use ash_coin.Chain.Lookup.{find_transaction}
use ash_coin.App.Messages.{range_json}
use ash_coin.App.Rest.{Node, Reply, Written, ok, not_found, reply}
use ash_coin.App.Rest.Views.{blocks_between, last_blocks, rest_blocks_last, rest_tx}

blocks_between-eq-drop :
    (rounds idx : ℕ) (c : Chain)
    → idx + rounds ≡ size c
    → blocks_between rounds idx c ≡ some (drop idx c.blocks)
unfolding blocks_between
blocks_between-eq-drop zero idx c h =
    let at_end : idx ≡ length c.blocks = omega arith in rw (at_end, drop-length c.blocks) refl
blocks_between-eq-drop (suc rounds) idx c h =
    let (b, e) = get_elem?_below c.blocks idx (omega arith) in
    let next : idx + 1 ≡ suc idx = omega arith in
    rw
      (
        e,
        ◌>>=◌,
        next,
        blocks_between-eq-drop rounds (suc idx) c (omega arith),
        drop-at idx c.blocks e,
      )
      refl

module _ {J : Type 0} (x : External J) where
  -- For a number of 64 bits in decimal, `/blocks/last/` writes that many blocks from the end of the
  -- chain, all of them if there are not as many, and leaves the node as it is.
  pub rest_blocks_last-eq-drop :
      (k : ℕ) (n : Node)
      → k < 2 ^ 64
      → rest_blocks_last x (decimal k) n
        ≡ reply (ok (x.json.dump (range_json x (drop (size n.app.chain - k) n.app.chain.blocks)))) n
  unfolding rest_blocks_last last_blocks
  rest_blocks_last-eq-drop k n h = elim (Bool-cases (leb (size n.app.chain) k)) [
    | inl e ↦
        let all : size n.app.chain - k ≡ 0 = ground arith in
        rw
          (
            rest_blocks_last,
            from_chars-decimal k h,
            last_blocks,
            e,
            blocks_between-eq-drop (size n.app.chain - 0) 0 n.app.chain (omega arith),
            ◌>>=◌,
            all,
          )
          refl
    | inr e ↦
        rw
          (
            rest_blocks_last,
            from_chars-decimal k h,
            last_blocks,
            e,
            blocks_between-eq-drop (size n.app.chain - (size n.app.chain - k))
                (size n.app.chain - k) n.app.chain (ground arith),
            ◌>>=◌,
          )
          refl
  ]

  Ends-then :
      {A : Type 0} (o : Option A) (f : A → Reply)
      → ((a : A) → Holds (λ (ws, n'). last? ws ≡ some not_found) (f a))
      → Holds (λ (ws, n'). last? ws ≡ some not_found) (o >>= f)
  Ends-then = Holds-then (λ ((ws, n') : List Written × Node). last? ws ≡ some not_found)

  -- Whatever the id, what `/rest/tx/` writes last is the status 404, also behind a transaction that
  -- was found.
  pub rest_tx-ends :
      (id : Text) (indent : Option Text) (n : Node)
      → Holds (λ (ws, n'). last? ws ≡ some not_found) (rest_tx x id indent n)
  unfolding rest_tx
  rest_tx-ends id indent n = elim (Option-cases (find_transaction n.app.chain id)) [
    | inl e ↦ rw (rest_tx, e) refl
    | inr (p, e) ↦ rw (rest_tx, e) (search Ends-then depth 6)
  ]
