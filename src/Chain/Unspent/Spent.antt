-- ===== src/Chain/Unspent/Spent.antt =====
-- What spending takes out of the list of unspent outputs.
pub mod Loops
use ash_coin.Base.{
  ℕ, zero, suc, ◌+◌, ◌<◌, ◌≤◌, ◌≡◌, ◌≢◌, refl, sym, ◌∙◌, ap, Bool, true, false, none, some, List,
  [], ◌∷◌, All, All-map, Text, ltb, arith, Bool-cases, inl, inr, Option-cases, ◌>>=◌, get_elem?,
  ◌&&◌, ◌==◌, ◌↔◌,
}
use mathlib.Core.Option.{some-injective, none-ne-some}
use ash_coin.External.{External, Boost}
use ash_coin.Tx.{TxOutPoint, TxIn, TxOut, Transaction, is_coinbase}
use ash_coin.Block.{Block}
use ash_coin.Chain.{Chain}
use ash_coin.Chain.Numbered.{IsNumbered}
use ash_coin.Chain.Unspent.{
  hash_point, same_point, erase_point, spend_ins, new_point, insert_point, add_outs, unspent_step,
  unspent_txs, unspent_blocks, get_unspent_tx_outs, is_skipped,
}
use ash_coin.Chain.Unspent.Sound.{unspent_step-All}
use ash_coin.Chain.Unspent.Sorted.{
  IsRising, erase_point-IsRising, spend_ins-All, unspent_step-IsRising, add_outs-IsRising,
  insert_point-All,
}

-- No point of the list names the output.
abbrev pub IsGone : TxOutPoint → List TxOutPoint → Type 0
IsGone p qs = All (λ (q : TxOutPoint). same_point p q ≡ false) qs

same_point-hash :
    (boost : Boost) (p q : TxOutPoint)
    → same_point p q ≡ true
    → hash_point boost p ≡ hash_point boost q
unfolding same_point hash_point
same_point-hash boost p q e =
    let i : p.block_index ≡ q.block_index = ground arith in
    let j : p.tx_index ≡ q.tx_index = ground arith in
    let k : p.tx_out_index ≡ q.tx_out_index = ground arith in rw (i, j, k) refl

above-IsGone :
    (boost : Boost) (p q : TxOutPoint) (qs : List TxOutPoint)
    → same_point p q ≡ true
    → All (λ r. hash_point boost q < hash_point boost r) qs
    → IsGone p qs
above-IsGone boost p q qs e = All-map (λ r h. above r h) qs
  where
    above : (r : TxOutPoint) → hash_point boost q < hash_point boost r → same_point p r ≡ false
    above r h = elim (Bool-cases (same_point p r)) [
      | inl f ↦ absurd (omega (arith, same_point-hash boost p q e, same_point-hash boost p r f))
      | inr f ↦ f
    ]

erase_point-IsGone :
    (boost : Boost) (p : TxOutPoint) (qs : List TxOutPoint)
    → IsRising boost qs
    → IsGone p (erase_point p qs)
unfolding erase_point
erase_point-IsGone boost p [] h = tt
erase_point-IsGone boost p (q ∷ qs) (h, hs) = elim (Bool-cases (same_point p q)) [
  | inl hit ↦ rw hit (above-IsGone boost p q qs hit h)
  | inr miss ↦ rw miss (miss, erase_point-IsGone boost p qs hs)
]

pub spend_ins-IsGone :
    (boost : Boost) (n : ℕ) (is : List TxIn) (i : TxIn) (qs : List TxOutPoint)
    → get_elem? is n ≡ some i
    → IsRising boost qs
    → IsGone i.tx_out_pt (spend_ins is qs)
unfolding spend_ins
spend_ins-IsGone boost n [] i qs e h = absurd (none-ne-some _ e)
spend_ins-IsGone boost zero (j ∷ is) i qs e h = rw (some-injective _ _ e) (
    spend_ins-All (λ q. same_point i.tx_out_pt q ≡ false) is _
      (erase_point-IsGone boost i.tx_out_pt qs h))
spend_ins-IsGone boost (suc n) (j ∷ is) i qs e h =
    spend_ins-IsGone boost n is i _ e (erase_point-IsRising boost j.tx_out_pt qs h)
