-- ===== src/Chain/Json.antt =====
-- The json conversions of `Blockchain` and `AddressLedger` of src/Blockchain.cpp.
use ash_coin.Base.{Option, some, List, [], ◌∷◌, map, txt, ◌>>=◌, u64_of_int, int_of_u64}
use ash_coin.External.{JsonOps, object, array}
use ash_coin.Tx.Json.{nat_at, text_at, double_at, all_of_json}
use ash_coin.Block.Json.{block_to_json, block_of_json}
use ash_coin.Chain.{Chain}
use ash_coin.Chain.Lookup.{LedgerInfo}

module _ {J : Type 0} (o : JsonOps J) where
  open o use {of_nat, of_double, of_text, items}

  unfoldable pub chain_to_json : Chain → J
  chain_to_json c = array o (map (block_to_json o) c.blocks)

  -- The queue is that of the chain that is read into, which the callers make anew.
  unfoldable pub chain_of_json : J → Option Chain
  chain_of_json j =
      all_of_json (block_of_json o) (items j) >>= λ bs. some (record { blocks = bs; tx_queue = [] })

  unfoldable pub ledger_info_to_json : LedgerInfo → J
  ledger_info_to_json li = object o (
      (txt "txid", of_text li.txid)
      ∷ (txt "blockid", of_nat li.block_idx)
      ∷ (txt "amount", of_double li.amount)
      ∷ (txt "time", of_nat (u64_of_int li.time))
      ∷ [])

  unfoldable pub ledger_info_of_json : J → Option LedgerInfo
  ledger_info_of_json j = do
    b ← nat_at o j (txt "blockid")
    i ← text_at o j (txt "txid")
    d ← double_at o j (txt "amount")
    t ← nat_at o j (txt "time")
    some (record { block_idx = b; txid = i; time = int_of_u64 t; amount = d })

  unfoldable pub ledger_to_json : List LedgerInfo → J
  ledger_to_json ledger = array o (map ledger_info_to_json ledger)

  unfoldable pub ledger_of_json : J → Option (List LedgerInfo)
  ledger_of_json j = all_of_json ledger_info_of_json (items j)
