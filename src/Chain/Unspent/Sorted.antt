-- ===== src/Chain/Unspent/Sorted.antt =====
-- The order of the set that `GetUnspentTxOuts` fills, and what spending takes out of it.
use ash_coin.Base.{
  ℕ, ◌+◌, ◌<◌, ◌≡◌, true, false, some, List, [], ◌∷◌, All, All-map, Text, ltb, arith, Bool-cases,
  inl, inr, Option-cases, ◌>>=◌,
}
use mathlib.Core.Option.{some-injective}
use ash_coin.External.{External, Boost}
use ash_coin.Tx.{TxOutPoint, TxIn, TxOut, Transaction, is_coinbase}
use ash_coin.Chain.{Chain}
use ash_coin.Chain.Unspent.Keep.{get_unspent_keep}
use ash_coin.Chain.Unspent.{
  hash_point, same_point, erase_point, spend_ins, new_point, is_skipped, insert_point, add_outs,
  unspent_step, get_unspent_tx_outs,
}

-- The hashes rise, so no two points of the list are equal.
abbrev pub IsRising : Boost → List TxOutPoint → Type 0
IsRising boost [] = Unit
IsRising boost (p ∷ ps) = All (λ q. hash_point boost p < hash_point boost q) ps × IsRising boost ps

erase_point-All :
    (P : TxOutPoint → Type 0) (p : TxOutPoint) (qs : List TxOutPoint)
    → All P qs
    → All P (erase_point p qs)
unfolding erase_point
erase_point-All P p [] h = tt
erase_point-All P p (q ∷ qs) (h, hs) = elim (Bool-cases (same_point p q)) [
  | inl hit ↦ rw hit hs
  | inr miss ↦ rw miss (h, erase_point-All P p qs hs)
]

pub erase_point-IsRising :
    (boost : Boost) (p : TxOutPoint) (qs : List TxOutPoint)
    → IsRising boost qs
    → IsRising boost (erase_point p qs)
unfolding erase_point
erase_point-IsRising boost p [] h = tt
erase_point-IsRising boost p (q ∷ qs) (h, hs) = elim (Bool-cases (same_point p q)) [
  | inl hit ↦ rw hit hs
  | inr miss ↦ rw miss (erase_point-All _ p qs h, erase_point-IsRising boost p qs hs)
]

pub spend_ins-All :
    (P : TxOutPoint → Type 0) (is : List TxIn) (qs : List TxOutPoint)
    → All P qs
    → All P (spend_ins is qs)
unfolding spend_ins
spend_ins-All P [] qs h = h
spend_ins-All P (i ∷ is) qs h = spend_ins-All P is _ (erase_point-All P i.tx_out_pt qs h)

spend_ins-IsRising :
    (boost : Boost) (is : List TxIn) (qs : List TxOutPoint)
    → IsRising boost qs
    → IsRising boost (spend_ins is qs)
unfolding spend_ins
spend_ins-IsRising boost [] qs h = h
spend_ins-IsRising boost (i ∷ is) qs h =
    spend_ins-IsRising boost is _ (erase_point-IsRising boost i.tx_out_pt qs h)

module _ {J : Type 0} (x : External J) where
  pub insert_point-All :
      (P : TxOutPoint → Type 0) (p : TxOutPoint) (qs : List TxOutPoint)
      → P p
      → All P qs
      → All P (insert_point x p qs)
  unfolding insert_point
  insert_point-All P p [] h _ = (h, tt)
  insert_point-All P p (q ∷ qs) h (k, ks) =
      elim (Bool-cases (ltb (hash_point x.boost p) (hash_point x.boost q))) [
        | inl before ↦ rw before (h, (k, ks))
        | inr after ↦ elim (Bool-cases (ltb (hash_point x.boost q) (hash_point x.boost p))) [
          | inl later ↦ rw (after, later) (k, insert_point-All P p qs h ks)
          | inr same ↦ rw (after, same) (k, ks)
        ]
      ]

  insert_point-IsRising :
      (p : TxOutPoint) (qs : List TxOutPoint)
      → IsRising x.boost qs
      → IsRising x.boost (insert_point x p qs)
  unfolding insert_point
  insert_point-IsRising p [] _ = (tt, tt)
  insert_point-IsRising p (q ∷ qs) (k, ks) =
      elim (Bool-cases (ltb (hash_point x.boost p) (hash_point x.boost q))) [
        | inl before ↦
            let less : hash_point x.boost p < hash_point x.boost q = ground arith in
            rw before ((less, All-map (λ r h. omega arith) qs k), (k, ks))
        | inr after ↦ elim (Bool-cases (ltb (hash_point x.boost q) (hash_point x.boost p))) [
          | inl later ↦
              rw (after, later)
                (insert_point-All _ p qs (ground arith) k, insert_point-IsRising p qs ks)
          | inr same ↦ rw (after, same) (k, ks)
        ]
      ]

  pub add_outs-IsRising :
      (address : Text) (b t i : ℕ) (os : List TxOut) (qs : List TxOutPoint)
      → IsRising x.boost qs
      → IsRising x.boost (add_outs x address b t i os qs)
  unfolding add_outs
  add_outs-IsRising address b t i [] qs h = h
  add_outs-IsRising address b t i (o ∷ os) qs h = elim (Bool-cases (is_skipped address o)) [
    | inl skip ↦ rw skip (add_outs-IsRising address b t (i + 1) os qs h)
    | inr take_it ↦ rw take_it (
        add_outs-IsRising address b t (i + 1) os _ (insert_point-IsRising (new_point b t i o) qs h))
  ]

  pub unspent_step-IsRising :
      (address : Text) (b t : ℕ) (tx : Transaction) (qs rs : List TxOutPoint)
      → IsRising x.boost qs
      → unspent_step x address b t tx qs ≡ some rs
      → IsRising x.boost rs
  unfolding unspent_step
  unspent_step-IsRising address b t tx qs rs h e = elim (Option-cases (is_coinbase tx)) [
    | inl stop ↦ ground arith
    | inr (true, go) ↦
        rw (← some-injective _ _ (rw (go, ◌>>=◌) at e))
          (add_outs-IsRising address b t 0 tx.tx_outs qs h)
    | inr (false, go) ↦
        rw (← some-injective _ _ (rw (go, ◌>>=◌) at e))
          (spend_ins-IsRising x.boost tx.tx_ins _ (add_outs-IsRising address b t 0 tx.tx_outs qs h))
  ]

  -- The set that `GetUnspentTxOuts` returns is in the order of the hashes, each hash once; so no
  -- output is listed twice.
  pub get_unspent_tx_outs-IsRising :
      (c : Chain) (address : Text) (rs : List TxOutPoint)
      → get_unspent_tx_outs x c address ≡ some rs
      → IsRising x.boost rs
  get_unspent_tx_outs-IsRising c address rs e =
      get_unspent_keep x (IsRising x.boost) address c
        (λ k t b tx qs os _ _ h go. unspent_step-IsRising address b.index t tx qs os h go) tt e
