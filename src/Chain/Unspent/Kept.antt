-- ===== src/Chain/Unspent/Kept.antt =====
-- The outputs that stay in the answer of `GetUnspentTxOuts` of src/Blockchain.cpp.
use ash_coin.Base.{
  ℕ, zero, suc, ◌+◌, ◌≡◌, refl, sym, ◌⊎◌, true, false, some, List, [], ◌∷◌, All, Text, arith, inl,
  inr, Bool-cases, Option-cases, ◌>>=◌, ltb, get_elem?,
}
use mathlib.Core.Option.{some-injective, none-ne-some}
use ash_coin.External.{External}
use ash_coin.Tx.{TxOutPoint, TxIn, TxOut, Transaction, is_coinbase}
use ash_coin.Block.{Block}
use ash_coin.Chain.{Chain}
use ash_coin.Chain.Unspent.{
  hash_point, same_point, erase_point, spend_ins, new_point, is_skipped, insert_point, add_outs,
  unspent_step, get_unspent_tx_outs,
}
use ash_coin.Chain.Unspent.Meets.{get_unspent_meet}
use ash_coin.Chain.Unspent.Sound.{unspent_step-All}
use ash_coin.Chain.Unspent.Sorted.{insert_point-All}

-- Some point of the list names the output.
abbrev pub IsNamed : TxOutPoint → List TxOutPoint → Type 0
IsNamed p [] = ⊥
IsNamed p (q ∷ qs) = (same_point p q ≡ true) ⊎ IsNamed p qs

from_zero : (i : ℕ) → 0 + i ≡ i
from_zero i = omega arith

-- None of the inputs names the output.
abbrev pub NamesOther : TxOutPoint → List TxIn → Type 0
NamesOther p is = All (λ (i : TxIn). same_point i.tx_out_pt p ≡ false) is

erase_point-IsNamed :
    (p r : TxOutPoint) (qs : List TxOutPoint)
    → same_point r p ≡ false
    → IsNamed p qs
    → IsNamed p (erase_point r qs)
unfolding erase_point same_point
erase_point-IsNamed p r [] o h = h
erase_point-IsNamed p r (q ∷ qs) o (inr h) = elim (Bool-cases (same_point r q)) [
  | inl hit ↦ rw hit h
  | inr miss ↦ rw miss (inr (erase_point-IsNamed p r qs o h))
]
erase_point-IsNamed p r (q ∷ qs) o (inl h) =
    let miss : same_point r q ≡ false = ground arith in rw miss (inl h)

spend_ins-IsNamed :
    (p : TxOutPoint) (is : List TxIn) (qs : List TxOutPoint)
    → NamesOther p is
    → IsNamed p qs
    → IsNamed p (spend_ins is qs)
unfolding spend_ins
spend_ins-IsNamed p [] qs _ h = h
spend_ins-IsNamed p (i ∷ is) qs (o, os) h =
    spend_ins-IsNamed p is _ os (erase_point-IsNamed p i.tx_out_pt qs o h)

module _ {J : Type 0} (x : External J) where
  insert_point-IsNamed :
      (p r : TxOutPoint) (qs : List TxOutPoint) → IsNamed p qs → IsNamed p (insert_point x r qs)
  unfolding insert_point
  insert_point-IsNamed p r [] h = absurd h
  insert_point-IsNamed p r (q ∷ qs) (inl h) =
      elim (Bool-cases (ltb (hash_point x.boost r) (hash_point x.boost q))) [
        | inl before ↦ rw before (inr (inl h))
        | inr after ↦ elim (Bool-cases (ltb (hash_point x.boost q) (hash_point x.boost r))) [
          | inl later ↦ rw (after, later) (inl h)
          | inr same ↦ rw (after, same) (inl h)
        ]
      ]
  insert_point-IsNamed p r (q ∷ qs) (inr h) =
      elim (Bool-cases (ltb (hash_point x.boost r) (hash_point x.boost q))) [
        | inl before ↦ rw before (inr (inr h))
        | inr after ↦ elim (Bool-cases (ltb (hash_point x.boost q) (hash_point x.boost r))) [
          | inl later ↦ rw (after, later) (inr (insert_point-IsNamed p r qs h))
          | inr same ↦ rw (after, same) (inr h)
        ]
      ]

  -- A point with the hash of the output names the output.
  abbrev pub Tells : TxOutPoint → TxOutPoint → Type 0
  Tells p q = hash_point x.boost q ≡ hash_point x.boost p → same_point p q ≡ true

  -- The output itself is put in, unless a point is there that names it.
  inserted-IsNamed :
      (p : TxOutPoint) (qs : List TxOutPoint)
      → same_point p p ≡ true
      → All (Tells p) qs
      → IsNamed p (insert_point x p qs)
  unfolding insert_point
  inserted-IsNamed p [] self _ = inl self
  inserted-IsNamed p (q ∷ qs) self (t, ts) =
      elim (Bool-cases (ltb (hash_point x.boost p) (hash_point x.boost q))) [
        | inl before ↦ rw before (inl self)
        | inr after ↦ elim (Bool-cases (ltb (hash_point x.boost q) (hash_point x.boost p))) [
          | inl later ↦ rw (after, later) (inr (inserted-IsNamed p qs self ts))
          | inr same ↦ rw (after, same) (inl (t (ground arith)))
        ]
      ]

  module _ (address : Text) (p : TxOutPoint) where
    add_outs-IsNamed :
        (b t i : ℕ) (os : List TxOut) (qs : List TxOutPoint)
        → IsNamed p qs
        → IsNamed p (add_outs x address b t i os qs)
    unfolding add_outs
    add_outs-IsNamed b t i [] qs h = h
    add_outs-IsNamed b t i (o ∷ os) qs h = elim (Bool-cases (is_skipped address o)) [
      | inl skip ↦ rw skip (add_outs-IsNamed b t (i + 1) os qs h)
      | inr take_it ↦
          rw take_it
            (add_outs-IsNamed b t (i + 1) os _ (insert_point-IsNamed p (new_point b t i o) qs h))
    ]

    -- The transaction does not spend the output.
    abbrev pub Leaves : Transaction → Type 0
    Leaves tx = (is_coinbase tx ≡ some true) ⊎ NamesOther p tx.tx_ins

    -- It is enough that the output is there once the outputs of the transaction are.
    left-IsNamed :
        (b t : ℕ) (tx : Transaction) (qs rs : List TxOutPoint)
        → Leaves tx
        → IsNamed p (add_outs x address b t 0 tx.tx_outs qs)
        → unspent_step x address b t tx qs ≡ some rs
        → IsNamed p rs
    unfolding unspent_step
    left-IsNamed b t tx qs rs (inl reward) h e =
        rw (← some-injective _ _ (rw (reward, ◌>>=◌) at e)) h
    left-IsNamed b t tx qs rs (inr other) h e = elim (Option-cases (is_coinbase tx)) [
      | inl stop ↦ ground arith
      | inr (true, go) ↦ rw (← some-injective _ _ (rw (go, ◌>>=◌) at e)) h
      | inr (false, go) ↦
          rw (← some-injective _ _ (rw (go, ◌>>=◌) at e)) (spend_ins-IsNamed p tx.tx_ins _ other h)
    ]

  -- The output of a transaction is put in with the others.
  added-IsNamed :
      (address : Text) (b t i d : ℕ) (p : TxOutPoint) (out : TxOut) (os : List TxOut)
      (qs : List TxOutPoint)
      → p ≡ new_point b t (i + d) out
      → get_elem? os d ≡ some out
      → is_skipped address out ≡ false
      → ((e : ℕ) (o : TxOut) → get_elem? os e ≡ some o → Tells p (new_point b t (i + e) o))
      → All (Tells p) qs
      → IsNamed p (add_outs x address b t i os qs)
  unfolding add_outs same_point
  added-IsNamed address b t i d p out [] qs same here asked tells h = absurd (none-ne-some _ here)
  added-IsNamed address b t i zero p out (o ∷ os) qs same here asked tells h =
      let first : o ≡ out = some-injective _ _ here in
      let place : i + 0 ≡ i = omega arith in
      let point : new_point b t i o ≡ p = rw (first, ← place) (sym same) in
      let self : same_point p p ≡ true = ground arith in
      let taken : is_skipped address o ≡ false = rw first asked in
      rw (taken, point) (add_outs-IsNamed address p b t (i + 1) os _ (inserted-IsNamed p qs self h))
  added-IsNamed address b t i (suc d) p out (o ∷ os) qs same here asked tells h =
      let next : i + suc d ≡ (i + 1) + d = omega arith in
      let same' : p ≡ new_point b t ((i + 1) + d) out = rw next at same in
      let later : (e : ℕ) (o' : TxOut)
          → get_elem? os e ≡ some o'
          → Tells p (new_point b t ((i + 1) + e) o') =
        λ e o' at_e. shifted e o' (tells (suc e) o' at_e) in
      elim (Bool-cases (is_skipped address o)) [
        | inl skip ↦
            rw skip (added-IsNamed address b t (i + 1) d p out os qs same' here asked later h)
        | inr take_it ↦ rw take_it (
            added-IsNamed address b t (i + 1) d p out os _ same' here asked later
              (insert_point-All x (Tells p) (new_point b t i o) qs first_tells h))
      ]
    where
      first_tells : Tells p (new_point b t i o)
      first_tells = let place : i + 0 ≡ i = omega arith in rw place at (tells 0 o refl)

      shifted :
          (e : ℕ) (o' : TxOut)
          → Tells p (new_point b t (i + suc e) o')
          → Tells p (new_point b t ((i + 1) + e) o')
      shifted e o' l = let moved : i + suc e ≡ (i + 1) + e = omega arith in rw moved at l

  -- The output at place `i` of the transaction at place `m` of the block at place `k` of a chain.
  pub record IsPlaced (c : Chain) (address : Text) (k m i : ℕ) (p : TxOutPoint) : Type 0 where
    pub block : Block
    pub tx : Transaction
    pub out : TxOut
    pub block_at : get_elem? c.blocks k ≡ some block
    pub tx_at : get_elem? block.txs m ≡ some tx
    pub out_at : get_elem? tx.tx_outs i ≡ some out
    pub point : p ≡ new_point block.index m i out
    pub asked_for : is_skipped address out ≡ false

  -- An output that the address asks for is in the answer of `GetUnspentTxOuts`, if the transactions of
  -- the chain, but for rewards, do not name it in their inputs, and if no other output of the chain
  -- has its hash.
  pub get_unspent_tx_outs-IsNamed :
      (c : Chain) (address : Text) (k m i : ℕ) (p : TxOutPoint) (rs : List TxOutPoint)
      → IsPlaced c address k m i p
      → ((k m : ℕ) (b : Block) (tx : Transaction)
          → get_elem? c.blocks k ≡ some b
          → get_elem? b.txs m ≡ some tx
          → Leaves address p tx)
      → ((k m i : ℕ) (b : Block) (tx : Transaction) (o : TxOut)
          → get_elem? c.blocks k ≡ some b
          → get_elem? b.txs m ≡ some tx
          → get_elem? tx.tx_outs i ≡ some o
          → Tells p (new_point b.index m i o))
      → get_unspent_tx_outs x c address ≡ some rs
      → IsNamed p rs
  get_unspent_tx_outs-IsNamed c address k m i p rs at leaves tells e =
      get_unspent_meet x (All (Tells p)) (IsNamed p) address at.block m at.tx c k
        (λ k' t b tx at_k at_t qs os h go.
          unspent_step-All x (Tells p) address b.index t tx qs os
            (λ j o at_j _. tells k' t j b tx o at_k at_t at_j) h go)
        (λ k' t b tx at_k at_t qs os h go.
          left-IsNamed address p b.index t tx qs os (leaves k' t b tx at_k at_t)
            (add_outs-IsNamed address p b.index t 0 tx.tx_outs qs h) go)
        (λ qs os h go.
          left-IsNamed address p at.block.index m at.tx qs os
            (leaves k m at.block at.tx at.block_at at.tx_at)
            (added-IsNamed address at.block.index m 0 i p at.out at.tx.tx_outs qs
              (rw (from_zero i) at.point) at.out_at at.asked_for
              (λ j o at_j.
                rw (from_zero j) (tells k m j at.block at.tx o at.block_at at.tx_at at_j))
              h)
            go)
        at.block_at at.tx_at tt e
