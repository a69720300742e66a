-- ===== src/Chain/Add.antt =====
-- What `addNewBlock` does to a chain.
use ash_coin.Base.{
  ◌<◌, none, Holds, Option-cases, Bool-cases, inl, inr, ◌⊎◌, ◌>>=◌, length-append, ◌+◌, ◌%◌, ◌^◌,
  ◌≡◌, refl, ◌↔◌, Bool, true, false, Option, some, List, [], ◌∷◌, ◌++◌, text_eq, text_eq_iff,
  ==_iff, ◌==◌, last?, arith, if◌then◌else◌,
}
use mathlib.Core.Option.{some-injective, none-ne-some}
use mathlib.Core.Bool.{false≢true}
use ash_coin.External.{External}
use ash_coin.Block.{Block, valid_hash, calculate_block_hash, has_zeros}
use ash_coin.Chain.{Chain, size, add_new_block, is_valid_chain, push_block}
use ash_coin.Chain.Valid.{IsNext, IsLinked, IsLinkedFrom, is_valid_chain_iff}

-- The answer of a test that does not throw, from what it means.
answered :
    (o : Option Bool) (t : Bool)
    → (v : Bool) × (o ≡ some v)
    → (o ≡ some true → t ≡ true)
    → (t ≡ true → o ≡ some true)
    → o ≡ some t
answered o true _ to from = from refl
answered o false (true, e) to from = absurd (false≢true (to e))
answered o false (false, e) to from = e

module _ {J : Type 0} (x : External J) where
  pub valid_hash_iff :
      (b : Block)
      → (valid_hash x b ≡ some true) ↔ (
          (calculate_block_hash x b ≡ b.hash)
          × (x.string_fits b.difficulty ≡ true)
          × (has_zeros b.difficulty b.hash ≡ true))
  unfolding valid_hash
  valid_hash_iff b = ground (arith, text_eq_iff (calculate_block_hash x b) b.hash)

  valid_hash_throws :
      (b : Block)
      → (valid_hash x b ≡ none)
        ↔ ((calculate_block_hash x b ≡ b.hash) × (x.string_fits b.difficulty ≡ false))
  unfolding valid_hash
  valid_hash_throws b = ground (arith, text_eq_iff (calculate_block_hash x b) b.hash)

  -- At a chain that has a last block `addNewBlock` throws exactly if the hash of the block is right
  -- and no `std::string` can have its difficulty as its size. It says yes, and the chain then ends
  -- with the block, exactly if the hash is right and begins with as many zeros as the difficulty says,
  -- which a string can have, and the block names the hash of the last one. If it returns with no,
  -- the chain is as it was.
  pub add_new_block_iff :
      (b l : Block) (c : Chain)
      → last? c.blocks ≡ some l
      → ((add_new_block x b c ≡ none)
          ↔ ((calculate_block_hash x b ≡ b.hash) × (x.string_fits b.difficulty ≡ false)))
        × ((add_new_block x b c ≡ some (true, push_block b c)) ↔ (
            ((calculate_block_hash x b ≡ b.hash)
              × (x.string_fits b.difficulty ≡ true)
              × (has_zeros b.difficulty b.hash ≡ true))
            × (b.prev ≡ l.hash)))
        × Holds (λ (r, c'). c' ≡ (if r then push_block b c else c)) (add_new_block x b c)
  unfolding add_new_block
  add_new_block_iff b l c e =
      let throws = valid_hash_throws b in
      let valid = valid_hash_iff b in
      let names = text_eq_iff b.prev l.hash in
      elim (Option-cases (valid_hash x b)) [
        | inl v ↦ rw (v, ◌>>=◌) (ground (arith, throws, valid, v), ground (arith, valid, v), tt)
        | inr (false, v) ↦ rw (v, ◌>>=◌) (ground (arith, throws, v), ground (arith, valid, v), refl)
        | inr (true, v) ↦
            rw (v, ◌>>=◌, e, ◌>>=◌)
              (elim (Bool-cases (text_eq b.prev l.hash)) [
                | inl q ↦ rw q (ground (arith, throws, v), ground (arith, valid, v, names, q), refl)
                | inr q ↦ rw q (ground (arith, throws, v), ground (arith, valid, v, names, q), refl)
              ])
      ]

  -- A block whose hash is valid and that names the last block is added.
  pub add_new_block_valid :
      (b l : Block) (c : Chain)
      → last? c.blocks ≡ some l
      → valid_hash x b ≡ some true
      → b.prev ≡ l.hash
      → add_new_block x b c ≡ some (true, push_block b c)
  unfolding add_new_block
  add_new_block_valid b l c e v q = rw (v, ◌>>=◌, e, ◌>>=◌, (text_eq_iff b.prev l.hash).1 q) refl

  -- The three ways in which `addNewBlock` may end.
  pub add_new_block-cases :
      (b l : Block) (c : Chain)
      → last? c.blocks ≡ some l
      → (add_new_block x b c ≡ none)
        ⊎ ((add_new_block x b c ≡ some (true, push_block b c))
            ⊎ (add_new_block x b c ≡ some (false, c)))
  unfolding add_new_block
  add_new_block-cases b l c e = elim (Option-cases (valid_hash x b)) [
    | inl v ↦ rw (v, ◌>>=◌) (inl refl)
    | inr (false, v) ↦ rw (v, ◌>>=◌) (inr (inr refl))
    | inr (true, v) ↦
        rw (v, ◌>>=◌, e, ◌>>=◌)
          (elim (Bool-cases (text_eq b.prev l.hash)) [
            | inl q ↦ rw q (inr (inl refl))
            | inr q ↦ rw q (inr (inr refl))
          ])
  ]

  -- A block that was taken was valid, and stands at the end.
  pub taken :
      (b l : Block) (c c' : Chain)
      → last? c.blocks ≡ some l
      → add_new_block x b c ≡ some (true, c')
      → (valid_hash x b ≡ some true) × (b.prev ≡ l.hash) × (c' ≡ push_block b c)
  unfolding add_new_block
  taken b l c c' e a = elim (Option-cases (valid_hash x b)) [
    | inl v ↦ absurd (none-ne-some _ (rw (v, ◌>>=◌) at a))
    | inr (false, v) ↦ absurd (ground (arith, rw (v, ◌>>=◌) at a))
    | inr (true, v) ↦ elim (Bool-cases (text_eq b.prev l.hash)) [
      | inr q ↦ absurd (ground (arith, rw (v, ◌>>=◌, e, ◌>>=◌, q) at a))
      | inl q ↦
          (v, (text_eq_iff b.prev l.hash).0 q, ground (arith, rw (v, ◌>>=◌, e, ◌>>=◌, q) at a))
    ]
  ]

  IsLinkedFrom-append :
      (p l b : Block) (bs : List Block)
      → last? (p ∷ bs) ≡ some l
      → IsLinkedFrom x p (bs ++ (b ∷ [])) ↔ (IsLinkedFrom x p bs × IsNext x l b)
  IsLinkedFrom-append p l b [] e =
      let q : p ≡ l = some-injective _ _ e in
      (λ (n, _). (tt, rw q at n), λ (_, n). (rw (← q) at n, tt))
  IsLinkedFrom-append p l b (q ∷ bs) e =
      let (to, from) = IsLinkedFrom-append q l b bs e in
      (λ (n, r). ((n, (to r).0), (to r).1), λ ((n, r), m). (n, from (r, m)))

  IsLinked-append :
      (l b : Block) (bs : List Block)
      → last? bs ≡ some l
      → IsLinked x (bs ++ (b ∷ [])) ↔ (IsLinked x bs × IsNext x l b)
  IsLinked-append l b [] e = cc
  IsLinked-append l b (p ∷ bs) e = IsLinkedFrom-append p l b bs e

  valid-IsNext :
      (b l : Block)
      → valid_hash x b ≡ some true
      → b.prev ≡ l.hash
      → b.index ≡ (l.index + 1) % 2 ^ 64
      → IsNext x l b
  valid-IsNext b l v p i = record {
    index_next = i;
    prev_hash = p;
    hash_right = ((valid_hash_iff b).0 v).0;
  }

  -- After a valid chain of less than 2 ^ 32 - 1 blocks has taken a block, `isValidChain` says whether
  -- the index of the block is the next one: `addNewBlock` does not look at the index, and with
  -- another one the chain is not valid.
  pub add_new_block-is_valid_chain :
      (b l : Block) (c c' : Chain)
      → size c + 1 < 2 ^ 32
      → last? c.blocks ≡ some l
      → is_valid_chain x c ≡ some true
      → add_new_block x b c ≡ some (true, c')
      → is_valid_chain x c' ≡ some (b.index == (l.index + 1) % 2 ^ 64)
  add_new_block-is_valid_chain b l c c' w e v a =
      let (ok, link, same) = taken b l c c' e a in
      let join = IsLinked-append l b c.blocks e in
      let (answer, pushed) = is_valid_chain_iff x (push_block b c) in
      let (linked, _) = (is_valid_chain_iff x c).1.0 v in
      let (to, from) = ==_iff b.index ((l.index + 1) % 2 ^ 64) in
      let few : size (push_block b c) < 2 ^ 32 =
        omega (arith, length-append c.blocks (b ∷ []), w) in
      rw same (
        answered _ _ answer (λ t. from (join.0 (pushed.0 t).0).1.index_next)
          (λ t. pushed.1 (join.1 (linked, valid-IsNext b l ok link (to t)), few)))

  -- Only `addNewBlock` asks for the zeros of the difficulty: a chain of two blocks that are linked
  -- passes `isValidChain` whatever the second one's hash begins with.
  pub is_valid_chain_ignores_work :
      (p b : Block)
      → IsNext x p b
      → x.string_fits b.difficulty ≡ true
      → has_zeros b.difficulty b.hash ≡ false
      → let one : Chain = record { blocks = p ∷ []; tx_queue = [] } in
        (is_valid_chain x (push_block b one) ≡ some true)
        × (add_new_block x b one ≡ some (false, one))
  unfolding valid_hash add_new_block
  is_valid_chain_ignores_work p b n f z =
      let one : Chain = record { blocks = p ∷ []; tx_queue = [] } in
      ((is_valid_chain_iff x (push_block b one)).1.1 ((n, tt), omega arith), ground arith)
