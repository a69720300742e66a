-- ===== src/Chain/Valid.antt =====
-- What `isValidChain` and `addNewBlock` check.
use mathlib.Core.Bool.{false≢true}
use ash_coin.Base.{
  zero, ltb, get_elem?_below, Bool-cases, inl, inr, ℕ, suc, ◌+◌, ◌-◌, ◌%◌, ◌^◌, ◌≤◌, ◌<◌, ◌≡◌, refl,
  ◌↔◌, Bool, true, false, ◌&&◌, some, List, [], ◌∷◌, ◌++◌, last?, text_eq_iff, &&_iff, length,
  get_elem?, drop, drop-cons, arith, ◌==◌, if◌then◌else◌, ap,
}
use mathlib.Core.Option.{some-injective, none-ne-some}
use ash_coin.External.{External}
use ash_coin.Block.{Block, calculate_block_hash}
use ash_coin.Chain.{Chain, size, block_pair, is_valid_block_pair, valid_loop, is_valid_chain}

if_and : (b r : Bool) → (if b then some r else some false) ≡ some (b && r)
if_and b r = ground arith

module _ {J : Type 0} (x : External J) where
  linked_test : Block → List Block → Bool
  linked_test p [] = true
  linked_test p (b ∷ bs) = block_pair x b p && linked_test b bs

  pair_at :
      (c : Chain) (idx : ℕ) (p b : Block)
      → 0 < idx
      → idx ≤ size c
      → get_elem? c.blocks idx ≡ some b
      → get_elem? c.blocks (idx - 1) ≡ some p
      → is_valid_block_pair x idx c ≡ some (block_pair x b p)
  unfolding is_valid_block_pair
  pair_at c idx p b h h' eb ep = ground arith

  loop_at :
      (c : Chain) (k idx : ℕ) (p : Block) (bs : List Block)
      → size c < 2 ^ 32
      → idx ≡ suc k
      → drop k c.blocks ≡ p ∷ bs
      → valid_loop x (suc (length bs)) idx c ≡ some (linked_test p bs)
  unfolding valid_loop linked_test
  loop_at c k idx p [] w e d =
      let (_, _, n) = drop-cons k c.blocks d in
      let over : ltb idx (size c) ≡ false = ground (arith, n, e) in rw (valid_loop, over) refl
  loop_at c k idx p (b ∷ bs) w e d =
      let (ep, d', n) = drop-cons k c.blocks d in
      let (eb, _, _) = drop-cons (suc k) c.blocks d' in
      let pred_k : suc k - 1 ≡ k = omega arith in
      let pair : is_valid_block_pair x idx c ≡ some (block_pair x b p) =
        rw e (pair_at c (suc k) p b (omega arith) (omega arith) eb (rw pred_k ep)) in
      let going : ltb idx (size c) ≡ true = ground (arith, n, e) in
      let ih = loop_at c (suc k) ((idx + 1) % 2 ^ 32) b bs w (omega (arith, n, e, w)) d' in
      rw (valid_loop, going, pair, ih) (if_and (block_pair x b p) (linked_test b bs))

  -- From 2 ^ 32 blocks on the index comes back to 0, where there is no pair.
  loop_wrapped : (c : Chain) (rounds : ℕ) → 0 < size c → valid_loop x (suc rounds) 0 c ≡ some false
  unfolding valid_loop is_valid_block_pair
  loop_wrapped c rounds n = ground arith

  loop_long :
      (c : Chain) (rounds idx : ℕ)
      → 2 ^ 32 ≤ size c
      → 0 < idx
      → idx < 2 ^ 32
      → 2 ^ 32 < rounds + idx
      → valid_loop x rounds idx c ≡ some false
  unfolding valid_loop
  loop_long c zero idx w p l r = absurd (omega arith)
  loop_long c (suc zero) idx w p l r = absurd (omega arith)
  loop_long c (suc (suc rounds)) idx w p l r =
      let (b, eb) = get_elem?_below c.blocks idx (omega arith) in
      let (q, eq) = get_elem?_below c.blocks (idx - 1) (omega arith) in
      let pair : is_valid_block_pair x idx c ≡ some (block_pair x b q) =
        pair_at c idx q b p (omega arith) eb eq in
      let going : ltb idx (size c) ≡ true = ground arith in
      elim (Bool-cases (block_pair x b q)) [
        | inr bad ↦ rw (valid_loop, going, pair, bad) refl
        | inl ok ↦ elim (Bool-cases (ltb (idx + 1) (2 ^ 32))) [
          | inl more ↦
              let less : idx + 1 < 2 ^ 32 = ground (arith, more) in
              let same : (idx + 1) % 2 ^ 32 ≡ idx + 1 = omega arith in
              rw (valid_loop, going, pair, ok, same)
                (loop_long c (suc rounds) (idx + 1) w (omega arith) less (omega arith))
          | inr last ↦
              let least : 2 ^ 32 ≤ idx + 1 = ground (arith, last) in
              let wrapped : (idx + 1) % 2 ^ 32 ≡ 0 = omega arith in
              rw (valid_loop, going, pair, ok, wrapped) (loop_wrapped c rounds (omega arith))
        ]
      ]

  -- A block that follows another one: the next index, the link to its hash, and a hash of its own
  -- that is right.
  pub record IsNext (p b : Block) : Type 0 where
    pub index_next : b.index ≡ (p.index + 1) % 2 ^ 64
    pub prev_hash : b.prev ≡ p.hash
    pub hash_right : calculate_block_hash x b ≡ b.hash

  abbrev pub IsLinkedFrom : Block → List Block → Type 0
  IsLinkedFrom p [] = Unit
  IsLinkedFrom p (b ∷ bs) = IsNext p b × IsLinkedFrom b bs

  -- Each block follows the one before it. Nothing is asked of the first.
  abbrev pub IsLinked : List Block → Type 0
  IsLinked [] = Unit
  IsLinked (b ∷ bs) = IsLinkedFrom b bs

  block_pair_iff : (p b : Block) → (block_pair x b p ≡ true) ↔ IsNext p b
  block_pair_iff p b =
      ground (arith, text_eq_iff b.prev p.hash, text_eq_iff (calculate_block_hash x b) b.hash)

  linked_test_iff : (p : Block) (bs : List Block) → (linked_test p bs ≡ true) ↔ IsLinkedFrom p bs
  unfolding linked_test
  linked_test_iff p [] = (λ _. tt, λ _. refl)
  linked_test_iff p (b ∷ bs) =
      let (to, from) = linked_test_iff b bs in
      let (to', from') = block_pair_iff p b in
      let (split, join) = &&_iff (block_pair x b p) (linked_test b bs) in
      (λ h. (to' (split h).0, to (split h).1), λ h. join (from' h.0, from h.1))

  blocks_test : List Block → Bool
  unfolding linked_test
  blocks_test [] = true
  blocks_test (b ∷ bs) = linked_test b bs

  is_valid_chain-eq-test :
      (c : Chain) → size c < 2 ^ 32 → is_valid_chain x c ≡ some (blocks_test c.blocks)
  unfolding is_valid_chain blocks_test
  is_valid_chain-eq-test c w = go c.blocks refl
    where
      go : (bs : List Block) → c.blocks ≡ bs → is_valid_chain x c ≡ some (blocks_test c.blocks)
      go [] e = rw e
      go (b ∷ bs) e =
          let n : size c ≡ suc (length bs) = rw e in
          let t : (size c == 0) ≡ false = ground arith in
          rw (is_valid_chain, t, n, loop_at c 0 1 b bs w (omega arith) e, e) refl

  is_valid_chain_long : (c : Chain) → 2 ^ 32 ≤ size c → is_valid_chain x c ≡ some false
  unfolding is_valid_chain
  is_valid_chain_long c w =
      let t : (size c == 0) ≡ false = ground arith in
      rw (is_valid_chain, t) (loop_long c (size c) 1 w (omega arith) (omega arith) (omega arith))

  blocks_test_iff : (bs : List Block) → (blocks_test bs ≡ true) ↔ IsLinked bs
  unfolding blocks_test
  blocks_test_iff [] = (λ _. tt, λ _. refl)
  blocks_test_iff (b ∷ bs) = linked_test_iff b bs

  pub is_valid_chain_iff :
      (c : Chain)
      → ((v : Bool) × (is_valid_chain x c ≡ some v))
        × ((is_valid_chain x c ≡ some true) ↔ (IsLinked c.blocks × (size c < 2 ^ 32)))
  is_valid_chain_iff c = elim (Bool-cases (ltb (size c) (2 ^ 32))) [
    | inl few ↦
        let w : size c < 2 ^ 32 = ground (arith, few) in
        let e = is_valid_chain-eq-test c w in
        let (to, from) = blocks_test_iff c.blocks in
        (
          (blocks_test c.blocks, e),
          rw e (λ h. (to (some-injective _ _ h), w), λ (h, _). ap some (from h)),
        )
    | inr many ↦
        let w : 2 ^ 32 ≤ size c = ground (arith, many) in
        let e = is_valid_chain_long c w in
        (
          (false, e),
          rw e (λ h. absurd (false≢true (some-injective _ _ h)), λ (_, l). absurd (omega arith)),
        )
  ]

  IsLinkedFrom-tail :
      (p l : Block) (bs cs : List Block)
      → last? (p ∷ bs) ≡ some l
      → IsLinkedFrom p (bs ++ cs)
      → IsLinkedFrom l cs
  IsLinkedFrom-tail p l [] cs e n = let q : p ≡ l = some-injective _ _ e in rw q at n
  IsLinkedFrom-tail p l (b ∷ bs) cs e (_, n) = IsLinkedFrom-tail b l bs cs e n

  -- What stands behind the last block of the first part of a chain.
  pub IsLinked-tail :
      (l : Block) (bs cs : List Block) → last? bs ≡ some l → IsLinked (bs ++ cs) → IsLinkedFrom l cs
  IsLinked-tail l [] cs e n = absurd (none-ne-some _ e)
  IsLinked-tail l (b ∷ bs) cs e n = IsLinkedFrom-tail b l bs cs e n
