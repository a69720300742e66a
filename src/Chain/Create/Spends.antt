-- ===== src/Chain/Create/Spends.antt =====
-- What `CreateTransaction` answers.
use ash_coin.Base.{
  ℕ, ◌≡◌, refl, sym, ◌∙◌, true, false, Option, some, List, [], ◌∷◌, ◌++◌, map, Text, arith, ◌>>=◌,
  Bool-cases, Option-cases, inl, inr, append_assoc, append-nil, ◌⊎◌,
}
use mathlib.Core.Option.{some-injective}
use mathlib.Core.Bool.{false≢true}
use ash_coin.External.{External, Double}
use ash_coin.CryptoUtils.{get_address_from_private_key}
use ash_coin.Tx.{TxOutPoint, Transaction}
use ash_coin.Tx.Result.{TxResult, success, insufficient_funds, txouts_empty, noop_transaction}
use ash_coin.Chain.{Chain}
use ash_coin.Chain.Unspent.{get_unspent_tx_outs}
use ash_coin.Chain.Create.{
  Gathered, spend, gather, payment, nothing_gathered, spend_unspent, create_transaction,
  empty_transaction,
}

-- The amounts of some points, added in their order.
abbrev pub sum_points : Double → ℕ → List TxOutPoint → Option ℕ
sum_points d acc [] = some acc
sum_points d acc (p ∷ ps) = p.amount >>= λ a. sum_points d (d.add acc a) ps

-- What holds of two doubles, NaN or not: `a <= b` excludes `b < a`.
pub record IsCompared (d : Double) : Type 0 where
  pub not_lt : (a b : ℕ) → d.le a b ≡ true → d.lt b a ≡ false

-- The points that were gathered are the first ones, and their sum is what it is said to be; either it
-- is enough, and what is left over is the rest of it, or all points were taken.
pub record IsGathered (d : Double) (amount : ℕ) (ps : List TxOutPoint) (g : Gathered) : Type 0 where
  pub unused : List TxOutPoint
  pub split : ps ≡ g.included ++ unused
  pub summed : sum_points d 0 g.included ≡ some g.current
  pub enough_or_all :
      ((d.le amount g.current ≡ true) × (g.leftover ≡ d.sub g.current amount))
      ⊎ ((unused ≡ []) × (g.leftover ≡ 0))

module _ {J : Type 0} (x : External J) where
  sum_points-append :
      (acc : ℕ) (ps : List TxOutPoint) (p : TxOutPoint) {s a : ℕ}
      → sum_points x.double acc ps ≡ some s
      → p.amount ≡ some a
      → sum_points x.double acc (ps ++ (p ∷ [])) ≡ some (x.double.add s a)
  sum_points-append acc [] p e f = rw (f, some-injective _ _ e)
  sum_points-append acc (q ∷ ps) p e f = elim (Option-cases q.amount) [
    | inl stop ↦ ground arith
    | inr (b, go) ↦ rw go (sum_points-append (x.double.add acc b) ps p (rw (go, ◌>>=◌) at e) f)
  ]

  gather-IsGathered :
      (amount : ℕ) (all ps : List TxOutPoint) (g : Gathered) {g' : Gathered}
      → all ≡ g.included ++ ps
      → sum_points x.double 0 g.included ≡ some g.current
      → g.leftover ≡ 0
      → gather x amount ps g ≡ some g'
      → IsGathered x.double amount all g'
  unfolding gather
  gather-IsGathered amount all [] g a s l e =
      rw (← some-injective _ _ e)
        (record { unused = []; split = a; summed = s; enough_or_all = inr (refl, l) })
  gather-IsGathered amount all (p ∷ ps) g a s l e = elim (Option-cases p.amount) [
    | inl stop ↦ ground arith
    | inr (d, known) ↦
        let current = x.double.add g.current d in
        let all' : all ≡ (g.included ++ (p ∷ [])) ++ ps = rw append_assoc a in
        let sum' = sum_points-append 0 g.included p s known in
        elim (Bool-cases (x.double.le amount current)) [
          | inl enough ↦ rw (← some-injective _ _ (rw (known, enough) at e)) (record {
            unused = ps;
            split = all';
            summed = sum';
            enough_or_all = inl (enough, refl);
          })
          | inr less ↦
              gather-IsGathered amount all ps
                (record {
                  included = g.included ++ (p ∷ []);
                  current = current;
                  leftover = g.leftover;
                })
                all' sum' l (rw (known, less) at e)
        ]
  ]

  -- What an answer of `CreateTransaction` says of the unspent outputs of the sender.
  abbrev pub IsAnswer :
      (sender receiver : Text) → ℕ → List TxOutPoint → TxResult × Transaction → Type 0
  IsAnswer sender receiver amount ps (success, tx) =
      (g : Gathered) × IsGathered x.double amount ps g
      × (x.double.lt g.current amount ≡ false)
      × (tx.tx_ins ≡ map spend g.included)
      × (tx.tx_outs ≡ payment x sender receiver amount g.leftover)
  IsAnswer sender receiver amount ps (insufficient_funds, tx) =
      (total : ℕ) × (sum_points x.double 0 ps ≡ some total)
      × (x.double.lt total amount ≡ true)
      × (tx ≡ empty_transaction)
  IsAnswer sender receiver amount ps (txouts_empty, tx) = (ps ≡ []) × (tx ≡ empty_transaction)
  IsAnswer sender receiver amount ps (noop_transaction, tx) =
      (x.boost.iequals receiver sender ≡ true) × (tx ≡ empty_transaction)

  short_of_all :
      (amount : ℕ) (ps : List TxOutPoint) (g : Gathered)
      → IsCompared x.double
      → IsGathered x.double amount ps g
      → x.double.lt g.current amount ≡ true
      → sum_points x.double 0 ps ≡ some g.current
  short_of_all amount ps g laws h less = elim h.enough_or_all [
    | inl (enough, _) ↦ absurd (false≢true (sym (laws.not_lt amount g.current enough) ∙ less))
    | inr (none_left, _) ↦ rw (h.split, none_left, append-nil) h.summed
  ]

  spend_unspent-IsAnswer :
      (sender receiver : Text) (amount : ℕ) (ps : List TxOutPoint) (r : TxResult × Transaction)
      → IsCompared x.double
      → spend_unspent x sender receiver amount ps ≡ some r
      → IsAnswer sender receiver amount ps r
  unfolding spend_unspent
  spend_unspent-IsAnswer sender receiver amount [] r laws e =
      rw (← some-injective _ _ e) (refl, refl)
  spend_unspent-IsAnswer sender receiver amount (p ∷ ps) r laws e =
      elim (Option-cases (gather x amount (p ∷ ps) nothing_gathered)) [
        | inl stop ↦ ground arith
        | inr (g, go) ↦
            let h = gather-IsGathered amount (p ∷ ps) (p ∷ ps) nothing_gathered refl refl refl go in
            elim (Bool-cases (x.double.lt g.current amount)) [
              | inl less ↦
                  rw (← some-injective _ _ (rw (go, less) at e))
                    (g.current, short_of_all amount (p ∷ ps) g laws h less, less, refl)
              | inr fits ↦ rw (← some-injective _ _ (rw (go, fits) at e)) (g, h, fits, refl, refl)
            ]
      ]

  -- `CreateTransaction` succeeds only with inputs that are the first unspent outputs of the sender, in
  -- their order, with a sum that is not below the amount; the outputs are the amount to the receiver
  -- and, if it is positive, what is left over to the sender. It says `INSUFFICIENT_FUNDS` only if
  -- all unspent outputs together are below the amount, `TXOUTS_EMPTY` only if there are none, and
  -- `NOOP_TRANSACTION` only if `iequals`, which does not tell capital letters from small ones, says
  -- that the receiver is the sender; the transaction is empty then.
  pub create_transaction-IsAnswer :
      (c : Chain) (pk receiver : Text) (amount : ℕ) (ps : List TxOutPoint)
      (r : TxResult × Transaction)
      → IsCompared x.double
      → get_unspent_tx_outs x c (get_address_from_private_key x.crypto pk) ≡ some ps
      → create_transaction x c pk receiver amount ≡ some r
      → IsAnswer (get_address_from_private_key x.crypto pk) receiver amount ps r
  unfolding create_transaction
  create_transaction-IsAnswer c pk receiver amount ps r laws u e =
      let sender = get_address_from_private_key x.crypto pk in
      elim (Bool-cases (x.boost.iequals receiver sender)) [
        | inl self ↦ rw (← some-injective _ _ (rw self at e)) (self, refl)
        | inr other ↦ spend_unspent-IsAnswer sender receiver amount ps r laws (rw (other, u) at e)
      ]

  -- The sign of the amount is not looked at: where it is not above the first unspent output of the
  -- sender, negative or not, that output is spent, the receiver is paid the amount, and the rest of
  -- the output, which is more than the output for a negative amount, goes to the sender.
  pub create_transaction_any_sign :
      (c : Chain) (pk receiver : Text) (amount d : ℕ) (p : TxOutPoint) (ps : List TxOutPoint)
      → x.boost.iequals receiver (get_address_from_private_key x.crypto pk) ≡ false
      → get_unspent_tx_outs x c (get_address_from_private_key x.crypto pk) ≡ some (p ∷ ps)
      → p.amount ≡ some d
      → x.double.le amount (x.double.add 0 d) ≡ true
      → x.double.lt (x.double.add 0 d) amount ≡ false
      → create_transaction x c pk receiver amount
        ≡ some (
          success,
          record {
            id = [];
            tx_ins = spend p ∷ [];
            tx_outs =
                payment x
                  (get_address_from_private_key x.crypto pk)
                  receiver
                  amount
                  (x.double.sub (x.double.add 0 d) amount);
          },
        )
  unfolding create_transaction gather
  create_transaction_any_sign c pk receiver amount d p ps other u known enough fits =
      rw (other, u, known, enough, fits)
