-- ===== src/Chain/Chained.antt =====
-- Chains in which each block names the hash of the block before it: what `addNewBlock` keeps, whatever
-- the indices are.
use mathlib.Core.Option.{some-injective}
use ash_coin.Base.{
  none, false, ℕ, Bool, zero, suc, ◌-◌, ◌≤◌, ◌≡◌, refl, true, some, List, [], ◌∷◌, ◌++◌, append-nil,
  take, last?, Holds, Option-cases, inl, inr, ◌>>=◌, arith, if◌then◌else◌,
}
use ash_coin.External.{External}
use ash_coin.Block.{Block, calculate_block_hash, valid_hash}
use ash_coin.Chain.{Chain, size, resized, push_block, add_new_block}
use ash_coin.Chain.Add.{taken, add_new_block-cases, valid_hash_iff}
use ash_coin.Chain.Valid.{IsLinked, IsLinkedFrom}

module _ {J : Type 0} (x : External J) where
  -- A block that names the hash of the one before it, and whose own hash is right.
  pub record IsBehind (p b : Block) : Type 0 where
    pub prev_named : b.prev ≡ p.hash
    pub hash_right : calculate_block_hash x b ≡ b.hash

  abbrev pub IsChainedFrom : Block → List Block → Type 0
  IsChainedFrom p [] = Unit
  IsChainedFrom p (b ∷ bs) = IsBehind p b × IsChainedFrom b bs

  -- Nothing is asked of the first block.
  abbrev pub IsChained : List Block → Type 0
  IsChained [] = Unit
  IsChained (b ∷ bs) = IsChainedFrom b bs

  linked_from : (p : Block) (bs : List Block) → IsLinkedFrom x p bs → IsChainedFrom p bs
  linked_from p [] _ = tt
  linked_from p (b ∷ bs) (n, r) =
      (record { prev_named = n.prev_hash; hash_right = n.hash_right }, linked_from b bs r)

  -- The blocks of a valid chain are chained.
  pub IsLinked-IsChained : (bs : List Block) → IsLinked x bs → IsChained bs
  IsLinked-IsChained [] _ = tt
  IsLinked-IsChained (b ∷ bs) n = linked_from b bs n

  snoc_from :
      (p l b : Block) (bs : List Block)
      → last? (p ∷ bs) ≡ some l
      → IsChainedFrom p bs
      → IsBehind l b
      → IsChainedFrom p (bs ++ (b ∷ []))
  snoc_from p l b [] e _ n = let q : p ≡ l = some-injective _ _ e in (rw (← q) at n, tt)
  snoc_from p l b (q ∷ bs) e (m, r) n = (m, snoc_from q l b bs e r n)

  IsChained-snoc :
      (l b : Block) (bs : List Block)
      → last? bs ≡ some l
      → IsChained bs
      → IsBehind l b
      → IsChained (bs ++ (b ∷ []))
  IsChained-snoc l b [] e _ n = tt
  IsChained-snoc l b (p ∷ bs) e r n = snoc_from p l b bs e r n

  take_from :
      (k : ℕ) (p : Block) (bs : List Block) → IsChainedFrom p bs → IsChainedFrom p (take k bs)
  take_from zero p bs _ = tt
  take_from (suc k) p [] _ = tt
  take_from (suc k) p (b ∷ bs) (n, r) = (n, take_from k b bs r)

  take_blocks : (k : ℕ) (bs : List Block) → IsChained bs → IsChained (take k bs)
  take_blocks zero bs _ = tt
  take_blocks (suc k) [] _ = tt
  take_blocks (suc k) (b ∷ bs) n = take_from k b bs n

  -- What is left of a chain that is cut.
  pub IsChained-resized :
      (blank : Block) (k : ℕ) (c : Chain)
      → k ≤ size c
      → IsChained c.blocks
      → IsChained (resized blank k c).blocks
  unfolding resized
  IsChained-resized blank k c h n =
      let none_left : k - size c ≡ 0 = omega arith in
      rw (none_left, append-nil) (take_blocks k c.blocks n)

  abbrev pub IsAdded : Block → Chain → Bool × Chain → Type 0
  IsAdded b c (r, c') = IsChained c'.blocks × (c' ≡ (if r then push_block b c else c))

  add_to_none :
      (b : Block) (c : Chain)
      → last? c.blocks ≡ none
      → IsChained c.blocks
      → Holds (IsAdded b c) (add_new_block x b c)
  unfolding add_new_block
  add_to_none b c e n = elim (Option-cases (valid_hash x b)) [
    | inl v ↦ rw (v, ◌>>=◌) tt
    | inr (false, v) ↦ rw (v, ◌>>=◌) (n, refl)
    | inr (true, v) ↦ rw (v, ◌>>=◌, e, ◌>>=◌) tt
  ]

  -- A block that is added stands behind the last one; one that is not leaves the chain.
  pub add_new_block-IsChained :
      (b : Block) (c : Chain) → IsChained c.blocks → Holds (IsAdded b c) (add_new_block x b c)
  add_new_block-IsChained b c n = elim (Option-cases (last? c.blocks)) [
    | inl e ↦ add_to_none b c e n
    | inr (l, e) ↦ elim (add_new_block-cases x b l c e) [
      | inl thrown ↦ rw thrown tt
      | inr (inr refused) ↦ rw refused (n, refl)
      | inr (inl added) ↦
          let (v, q, _) = taken x b l c (push_block b c) e added in
          let behind : IsBehind l b = record {
            prev_named = q;
            hash_right = ((valid_hash_iff x b).0 v).0;
          } in
          rw added (IsChained-snoc l b c.blocks e n behind, refl)
    ]
  ]
