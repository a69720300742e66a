-- ===== src/Chain/Numbered.antt =====
-- Chains whose blocks have their places as indices, and `getAdjustedDifficulty` on them.
use ash_coin.Base.{
  ℕ, zero, suc, ◌+◌, ◌-◌, ◌%◌, ◌^◌, ◌<◌, ◌≡◌, refl, ◌⊎◌, inl, inr, true, some, List, [], ◌∷◌, ◌++◌,
  last?, head?, length, get_elem?_below, drop, arith, Gives, ◌>>=◌, ◌==◌, ltb, Bool-cases, quot_ℤ,
  ◌-ℤ◌, ltb_ℤ, pos,
}
use mathlib.Core.Option.{some-injective}
use ash_coin.External.{External}
use ash_coin.Block.{Block}
use ash_coin.Chain.{Chain, size, is_valid_chain, get_adjusted_difficulty}
use ash_coin.Chain.Valid.{IsLinkedFrom, IsLinked, is_valid_chain_iff}

-- The blocks have the numbers from `k` on as their indices.
abbrev pub IsNumbered : ℕ → List Block → Type 0
IsNumbered k [] = Unit
IsNumbered k (b ∷ bs) = (b.index ≡ k) × IsNumbered (suc k) bs

pub IsNumbered-drop : (j k : ℕ) (bs : List Block) → IsNumbered k bs → IsNumbered (j + k) (drop j bs)
IsNumbered-drop zero k bs n = let same : 0 + k ≡ k = omega arith in rw same n
IsNumbered-drop (suc j) k [] n = tt
IsNumbered-drop (suc j) k (b ∷ bs) (_, n) =
    let next : suc j + k ≡ j + suc k = omega arith in rw next (IsNumbered-drop j (suc k) bs n)

-- The two parts of a list.
pub IsNumbered-append :
    (k : ℕ) (bs cs : List Block)
    → IsNumbered k (bs ++ cs)
    → IsNumbered k bs × IsNumbered (k + length bs) cs
IsNumbered-append k [] cs n = let same : k + 0 ≡ k = omega arith in (tt, rw same n)
IsNumbered-append k (b ∷ bs) cs (i, n) =
    let (m, r) = IsNumbered-append (suc k) bs cs n in
    let next : k + suc (length bs) ≡ suc k + length bs = omega arith in ((i, m), rw next r)

pub IsNumbered-last? :
    (k : ℕ) (bs : List Block) {l : Block}
    → IsNumbered k bs
    → last? bs ≡ some l
    → l.index + 1 ≡ k + length bs
IsNumbered-last? k [] n e = ground arith
IsNumbered-last? k (b ∷ []) (i, _) e = ground arith
IsNumbered-last? k (b ∷ c ∷ bs) (_, n) e = omega (arith, IsNumbered-last? (suc k) (c ∷ bs) n e)

-- The new difficulty is that of the last block, or next to it on the circle of 64-bit numbers.
abbrev pub IsNear : ℕ → ℕ → Type 0
IsNear old new = (new ≡ old) ⊎ ((new ≡ (old + 1) % 2 ^ 64) ⊎ (new ≡ (old + 2 ^ 64 - 1) % 2 ^ 64))

module _ {J : Type 0} (x : External J) where
  IsLinkedFrom-IsNumbered :
      (p : Block) (bs : List Block) (k : ℕ)
      → IsLinkedFrom x p bs
      → p.index ≡ k
      → k + length bs < 2 ^ 64
      → IsNumbered (suc k) bs
  IsLinkedFrom-IsNumbered p [] k l e w = tt
  IsLinkedFrom-IsNumbered p (b ∷ bs) k (n, l) e w =
      let next : b.index ≡ suc k = omega (arith, n.index_next) in
      (next, IsLinkedFrom-IsNumbered b bs (suc k) l next (omega arith))

  -- A valid chain that begins at block 0, and has less than 2 ^ 64 blocks, is numbered.
  pub is_valid_chain-IsNumbered :
      (c : Chain) (f : Block)
      → is_valid_chain x c ≡ some true
      → head? c.blocks ≡ some f
      → f.index ≡ 0
      → size c < 2 ^ 64
      → IsNumbered 0 c.blocks
  is_valid_chain-IsNumbered c f v h z w = go c.blocks ((is_valid_chain_iff x c).1.0 v).0 h w
    where
      go :
          (bs : List Block)
          → IsLinked x bs
          → head? bs ≡ some f
          → length bs < 2 ^ 64
          → IsNumbered 0 bs
      go [] l e s = tt
      go (b ∷ bs) l e s =
          let same : b ≡ f = some-injective _ _ e in
          let first : b.index ≡ 0 = rw same z in
          (first, IsLinkedFrom-IsNumbered b bs 0 l first (omega arith))

  -- On a valid chain that begins at block 0, and has less than 2 ^ 64 blocks, `getAdjustedDifficulty`
  -- does not throw, and gives a difficulty that is that of the last block or next to it, modulo
  -- 2 ^ 64.
  pub get_adjusted_difficulty-IsNear :
      (c : Chain) (f l : Block)
      → is_valid_chain x c ≡ some true
      → head? c.blocks ≡ some f
      → f.index ≡ 0
      → size c < 2 ^ 64
      → last? c.blocks ≡ some l
      → Gives (IsNear l.difficulty) (get_adjusted_difficulty c)
  unfolding get_adjusted_difficulty
  get_adjusted_difficulty-IsNear c f l v h z w e =
      let n = is_valid_chain-IsNumbered c f v h z w in
      let at_end : l.index + 1 ≡ 0 + size c = IsNumbered-last? 0 c.blocks n e in
      rw (e, ◌>>=◌)
        (elim (Bool-cases ((l.index + 1) % 2 ^ 64 % 10 == 0)) [
          | inr t ↦ rw t (inl refl)
          | inl t ↦ rw t (elim (Bool-cases (ltb (size c) 10)) [
            | inl s ↦ absurd (ground arith)
            | inr s ↦
                let (g, q) = get_elem?_below c.blocks (size c - 10) (ground arith) in
                let timespan = quot_ℤ (l.time -ℤ g.time) 1000 in
                rw (s, q, ◌>>=◌)
                  (elim (Bool-cases (ltb_ℤ timespan (pos 30))) [
                    | inl a ↦ rw a (inr (inl refl))
                    | inr a ↦ rw a (elim (Bool-cases (ltb_ℤ (pos 120) timespan)) [
                      | inl b ↦ rw b (inr (inr refl))
                      | inr b ↦ rw b (inl refl)
                    ])
                  ])
          ])
        ])
