-- ===== src/Tx/Json.antt =====
-- The json conversions of src/Transactions.cpp. `none` is an exception of the json library, or a key
-- that is not there.
pub mod RoundTrip
use ash_coin.Base.{
  ℕ, Bool, true, Option, none, some, List, [], ◌∷◌, ◌++◌, map, Text, txt, ◌>>=◌, if◌then◌else◌,
}
use ash_coin.External.{JsonOps, object, array}
use ash_coin.Tx.{TxOutPoint, TxIn, TxOut, Transaction}

-- The loop `for (jtx : j.items()) v.push_back(jtx.value().get<T>())`.
unfoldable pub all_of_json : {J A : Type 0} → (J → Option A) → List J → Option (List A)
all_of_json f [] = some []
all_of_json f (j ∷ js) = do a ← f j; as' ← all_of_json f js; some (a ∷ as')

module _ {J : Type 0} (o : JsonOps J) where
  open o use {of_nat, of_text, of_double, get, contains, items, to_nat, to_text, to_double}

  abbrev address_pairs : Option Text → List (Text × J)
  address_pairs none = []
  address_pairs (some a) = (txt "address", of_text a) ∷ []

  abbrev amount_pairs : Option ℕ → List (Text × J)
  amount_pairs none = []
  amount_pairs (some d) = (txt "amount", of_double d) ∷ []

  unfoldable pub point_to_json : TxOutPoint → J
  point_to_json p = object o (
      (txt "blockIndex", of_nat p.block_index)
      ∷ (txt "txIndex", of_nat p.tx_index)
      ∷ (txt "txOutIndex", of_nat p.tx_out_index)
      ∷ (address_pairs p.address ++ amount_pairs p.amount))

  unfoldable pub tx_in_to_json : TxIn → J
  tx_in_to_json i =
      object o
        ((txt "txOutPt", point_to_json i.tx_out_pt) ∷ (txt "signature", of_text i.signature) ∷ [])

  unfoldable pub tx_out_to_json : TxOut → J
  tx_out_to_json t =
      object o ((txt "address", of_text t.address) ∷ (txt "amount", of_double t.amount) ∷ [])

  unfoldable pub transaction_to_json : Transaction → J
  transaction_to_json tx = object o (
      (txt "id", of_text tx.id)
      ∷ (txt "inputs", array o (map tx_in_to_json tx.tx_ins))
      ∷ (txt "outputs", array o (map tx_out_to_json tx.tx_outs))
      ∷ [])

  unfoldable pub transactions_to_json : List Transaction → J
  transactions_to_json txs = array o (map transaction_to_json txs)

  -- `j[k].get_to(v)`
  abbrev pub nat_at : J → Text → Option ℕ
  nat_at j k = get j k >>= to_nat

  abbrev pub text_at : J → Text → Option Text
  text_at j k = get j k >>= to_text

  abbrev pub double_at : J → Text → Option ℕ
  double_at j k = get j k >>= to_double

  -- A key that is looked for by `contains` before it is read.
  abbrev optional : {A : Type 0} → (J → Text → Option A) → J → Text → Option (Option A)
  optional f j k = if contains j k then (f j k >>= λ a. some (some a)) else some none

  unfoldable pub point_of_json : J → Option TxOutPoint
  point_of_json j = do
    b ← nat_at j (txt "blockIndex")
    t ← nat_at j (txt "txIndex")
    i ← nat_at j (txt "txOutIndex")
    a ← optional text_at j (txt "address")
    d ← optional double_at j (txt "amount")
    some (record { block_index = b; tx_index = t; tx_out_index = i; address = a; amount = d })

  unfoldable pub tx_in_of_json : J → Option TxIn
  tx_in_of_json j = do
    p ← get j (txt "txOutPt") >>= point_of_json
    s ← text_at j (txt "signature")
    some (record { tx_out_pt = p; signature = s })

  unfoldable pub tx_out_of_json : J → Option TxOut
  tx_out_of_json j = do
    a ← text_at j (txt "address")
    d ← double_at j (txt "amount")
    some (record { address = a; amount = d })

  abbrev list_at : {A : Type 0} → (J → Option A) → J → Text → Option (List A)
  list_at f j k = get j k >>= λ v. all_of_json f (items v)

  unfoldable pub transaction_of_json : J → Option Transaction
  transaction_of_json j = do
    i ← text_at j (txt "id")
    ins ← list_at tx_in_of_json j (txt "inputs")
    outs ← list_at tx_out_of_json j (txt "outputs")
    some (record { id = i; tx_ins = ins; tx_outs = outs })

  unfoldable pub transactions_of_json : J → Option (List Transaction)
  transactions_of_json j = all_of_json transaction_of_json (items j)

  -- `UnspentTxOuts`, whose elements are points.
  unfoldable pub unspent_to_json : List TxOutPoint → J
  unspent_to_json outs = array o (map point_to_json outs)

  unfoldable pub unspent_of_json : J → Option (List TxOutPoint)
  unspent_of_json j = all_of_json point_of_json (items j)
