-- ===== src/Tx/Json/RoundTrip.antt =====
-- Transactions as the conversions of src/Transactions.cpp write them and read them.
use ash_coin.Base.{ℕ, ◌<◌, ◌^◌, ◌≡◌, refl, Option, none, some, List, [], ◌∷◌, map, All, Text}
use ash_coin.External.{JsonOps, IsJson}
use ash_coin.Tx.{TxOutPoint, TxIn, TxOut, Transaction}
use ash_coin.Tx.Json.{
  all_of_json, point_to_json, point_of_json, tx_in_to_json, tx_in_of_json, tx_out_to_json,
  tx_out_of_json, transaction_to_json, transaction_of_json, transactions_to_json,
  transactions_of_json,
}

-- The numbers of a `TxOutPoint` are 64-bit numbers.
pub record IsPoint (p : TxOutPoint) : Type 0 where
  pub block_lt : p.block_index < 2 ^ 64
  pub tx_lt : p.tx_index < 2 ^ 64
  pub out_lt : p.tx_out_index < 2 ^ 64

abbrev pub IsTransaction : Transaction → Type 0
IsTransaction tx = All (λ (i : TxIn). IsPoint i.tx_out_pt) tx.tx_ins

module _ {J A : Type 0} (P : A → Type 0) (to : A → J) (of : J → Option A) where
  pub all_of_json-map :
      ((a : A) → P a → of (to a) ≡ some a)
      → (as' : List A) → All P as'
      → all_of_json of (map to as') ≡ some as'
  unfolding all_of_json
  all_of_json-map h [] _ = refl
  all_of_json-map h (a ∷ as') (p, ps) = rw (h a p, all_of_json-map h as' ps)

abbrev IsAny : {A : Type 0} → A → Type 0
IsAny a = Unit

All-IsAny : {A : Type 0} (xs : List A) → All IsAny xs
All-IsAny [] = tt
All-IsAny (x ∷ xs) = (tt, All-IsAny xs)

module _ {J : Type 0} (o : JsonOps J) (laws : IsJson o) where
  open laws use {
    get-object, contains-object, items-array, to_nat-of_nat, to_double-of_double, to_text-of_text,
  }

  point_round_trip_at :
      (b t i : ℕ) (a : Option Text) (d : Option ℕ)
      → b < 2 ^ 64
      → t < 2 ^ 64
      → i < 2 ^ 64
      → let p : TxOutPoint = record {
        block_index = b;
        tx_index = t;
        tx_out_index = i;
        address = a;
        amount = d;
      } in
        point_of_json o (point_to_json o p) ≡ some p
  unfolding point_of_json point_to_json
  point_round_trip_at b t i none none hb ht hi =
      simp (get-object, contains-object, to_nat-of_nat, hb, ht, hi)
  point_round_trip_at b t i none (some d) hb ht hi =
      simp (get-object, contains-object, to_nat-of_nat, to_double-of_double, hb, ht, hi)
  point_round_trip_at b t i (some a) none hb ht hi =
      simp (get-object, contains-object, to_nat-of_nat, to_text-of_text, hb, ht, hi)
  point_round_trip_at b t i (some a) (some d) hb ht hi =
      simp (
        get-object, contains-object, to_nat-of_nat, to_text-of_text, to_double-of_double, hb, ht,
        hi,
      )

  point_round_trip : (p : TxOutPoint) → IsPoint p → point_of_json o (point_to_json o p) ≡ some p
  point_round_trip p h =
      point_round_trip_at p.block_index p.tx_index p.tx_out_index p.address p.amount h.block_lt
        h.tx_lt h.out_lt

  tx_in_round_trip : (i : TxIn) → IsPoint i.tx_out_pt → tx_in_of_json o (tx_in_to_json o i) ≡ some i
  unfolding tx_in_of_json tx_in_to_json
  tx_in_round_trip i h = simp (get-object, to_text-of_text) (rw (point_round_trip i.tx_out_pt h))

  tx_out_round_trip : (t : TxOut) → IsAny t → tx_out_of_json o (tx_out_to_json o t) ≡ some t
  unfolding tx_out_of_json tx_out_to_json
  tx_out_round_trip t _ = simp (get-object, to_double-of_double, to_text-of_text)

  transaction_round_trip :
      (tx : Transaction)
      → IsTransaction tx
      → transaction_of_json o (transaction_to_json o tx) ≡ some tx
  unfolding transaction_of_json transaction_to_json
  transaction_round_trip tx h =
      simp (get-object, to_text-of_text, items-array)
        (rw (
          all_of_json-map _ (tx_in_to_json o) (tx_in_of_json o) tx_in_round_trip tx.tx_ins h,
          all_of_json-map _ (tx_out_to_json o) (tx_out_of_json o) tx_out_round_trip tx.tx_outs
              (All-IsAny tx.tx_outs),
        ))

  -- The transactions that `to_json` writes, `from_json` reads back as they were, with the addresses
  -- and amounts that their inputs may carry, if the numbers of their inputs are 64-bit numbers.
  pub transactions_of_json-transactions_to_json :
      (txs : List Transaction)
      → All IsTransaction txs
      → transactions_of_json o (transactions_to_json o txs) ≡ some txs
  unfolding transactions_of_json transactions_to_json
  transactions_of_json-transactions_to_json txs h = rw (
    items-array,
    all_of_json-map _ (transaction_to_json o) (transaction_of_json o) transaction_round_trip txs h,
  )
