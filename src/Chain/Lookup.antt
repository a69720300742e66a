-- ===== src/Chain/Lookup.antt =====
-- `FindTransaction`, `GetBlockDetails`, `GetAddressLedger` and `GetAddressBalance` of
-- src/Blockchain.cpp. `none` is an exception, a failed assertion or undefined behaviour.
pub mod Find
use ash_coin.Base.{
  ℕ, ◌+◌, not, ◌&&◌, Option, none, some, List, [], ◌∷◌, ◌++◌, foldl, Text, text_eq, ◌>>=◌,
  get_elem?, last?, drop_last, head?, ℤ, if◌then◌else◌,
}
use ash_coin.External.{External}
use ash_coin.Tx.{TxOutPoint, TxIn, TxOut, Transaction, is_coinbase}
use ash_coin.Block.{Block}
use ash_coin.Chain.{Chain}

-- The first transaction of a block with the id, by its place.
unfoldable pub find_in : Text → ℕ → ℕ → List Transaction → Option (ℕ × ℕ)
find_in txid block_index i [] = none
find_in txid block_index i (tx ∷ txs) =
    if text_eq tx.id txid then some (block_index, i) else find_in txid block_index (i + 1) txs

unfoldable pub find_from : Text → List Block → Option (ℕ × ℕ)
unfolding find_in
find_from txid [] = none
find_from txid (b ∷ bs) =
    let rest = find_from txid bs in
    elim (find_in txid b.index 0 b.txs) [ some p ↦ some p | none ↦ rest ]

-- `FindTransaction`
unfoldable pub find_transaction : Chain → Text → Option (ℕ × ℕ)
unfolding find_from
find_transaction c txid = find_from txid c.blocks

-- The output that a point names, by the places of the block, the transaction and the output.
unfoldable pub output_at : Chain → TxOutPoint → Option TxOut
output_at c p = do
  b ← get_elem? c.blocks p.block_index
  tx ← get_elem? b.txs p.tx_index
  get_elem? tx.tx_outs p.tx_out_index

unfoldable pub fill_in : Chain → TxIn → Option TxIn
unfolding output_at
fill_in c i = do
  out ← output_at c i.tx_out_pt
  some (record i {
    tx_out_pt = record (i.tx_out_pt) { address = some out.address; amount = some out.amount };
  })

-- A loop that changes each element of a list in place.
abbrev pub for_each {ℓ} : {A : Type ℓ} → (A → Option A) → List A → Option (List A)
for_each f [] = some []
for_each f (a ∷ as') = do b ← f a; bs ← for_each f as'; some (b ∷ bs)

unfoldable pub fill_transaction : Chain → Transaction → Option Transaction
unfolding fill_in
fill_transaction c tx = for_each (fill_in c) tx.tx_ins >>= λ ins. some (record tx { tx_ins = ins })

-- `GetBlockDetails`
unfoldable pub get_block_details : Chain → ℕ → Option Block
unfolding fill_transaction
get_block_details c index = do
  b ← get_elem? c.blocks index
  ts ← for_each (fill_transaction c) b.txs
  some (record b { hashed = record (b.hashed) { txs = ts } })

pub record LedgerInfo : Type 0 where
  pub block_idx : ℕ
  pub txid : Text
  pub time : ℤ
  pub amount : ℕ

-- The first output to the address.
unfoldable pub credit : Text → List TxOut → Option ℕ
credit address [] = none
credit address (t ∷ ts) = if text_eq t.address address then some t.amount else credit address ts

-- -1.0
abbrev pub minus_one : ℕ
minus_one = 0xbff0_0000_0000_0000

module _ {J : Type 0} (x : External J) where
  open x.double use {add, sub, mul}

  -- The sum of the amounts of the inputs, which have to be filled in.
  unfoldable pub sum_ins : List TxIn → ℕ → Option ℕ
  sum_ins [] acc = some acc
  sum_ins (i ∷ is) acc = i.tx_out_pt.amount >>= λ d. sum_ins is (add acc d)

  abbrev pub entry : Block → Transaction → ℕ → LedgerInfo
  entry b tx d = record { block_idx = b.index; txid = tx.id; time = b.time; amount = d }

  abbrev pub add_credit : Block → Transaction → Text → List LedgerInfo → List LedgerInfo
  add_credit b tx address ledger = elim (credit address tx.tx_outs) [
    | none ↦ ledger
    | some d ↦ ledger ++ (entry b tx d ∷ [])
  ]

  -- The last entry is taken off, and the debit is put in its place.
  unfoldable pub add_debit : Block → Transaction → List LedgerInfo → Option (List LedgerInfo)
  unfolding sum_ins
  add_debit b tx ledger = do
    total ← sum_ins tx.tx_ins 0
    last ← last? ledger
    some (drop_last ledger ++ (entry b tx (mul (sub total last.amount) minus_one) ∷ []))

  -- One transaction of `GetAddressLedger`.
  unfoldable pub ledger_step :
      Block → Text → Transaction → List LedgerInfo → Option (List LedgerInfo)
  unfolding add_debit credit
  ledger_step b address tx ledger = do
    first ← head? tx.tx_ins
    owner ← first.tx_out_pt.address
    coinbase ← is_coinbase tx
    (if not coinbase && text_eq owner address
        then add_debit b tx (add_credit b tx address ledger)
        else some (add_credit b tx address ledger))

  unfoldable pub ledger_txs :
      Block → Text → List Transaction → List LedgerInfo → Option (List LedgerInfo)
  unfolding ledger_step
  ledger_txs b address [] ledger = some ledger
  ledger_txs b address (tx ∷ txs) ledger =
      ledger_step b address tx ledger >>= ledger_txs b address txs

  unfoldable pub ledger_blocks :
      Chain → Text → List Block → List LedgerInfo → Option (List LedgerInfo)
  unfolding ledger_txs get_block_details
  ledger_blocks c address [] ledger = some ledger
  ledger_blocks c address (b ∷ bs) ledger = do
    full ← get_block_details c b.index
    ledger' ← ledger_txs b address full.txs ledger
    ledger_blocks c address bs ledger'

  -- `GetAddressLedger`
  unfoldable pub get_address_ledger : Chain → Text → Option (List LedgerInfo)
  unfolding ledger_blocks
  get_address_ledger c address = ledger_blocks c address c.blocks []

  -- `GetAddressBalance`
  unfoldable pub get_address_balance : Chain → Text → Option ℕ
  unfolding get_address_ledger
  get_address_balance c address = get_address_ledger c address >>= λ ledger.
      some (foldl (λ acc (e : LedgerInfo). add acc e.amount) 0 ledger)
