-- ===== src/Block/Json.antt =====
-- The json conversions of src/Block.cpp.
use ash_coin.Base.{
  ◌<◌, ◌^◌, ◌≡◌, Option, some, [], ◌∷◌, txt, All, ◌>>=◌, u64_of_int, int_of_u64, IsInt64,
  u64_of_int-lt, int_of_u64-u64_of_int,
}
use ash_coin.External.{JsonOps, object, IsJson}
use ash_coin.Tx.Json.{nat_at, text_at, transactions_to_json, transactions_of_json}
use ash_coin.Tx.Json.RoundTrip.{IsTransaction, transactions_of_json-transactions_to_json}
use ash_coin.Block.{Block}

module _ {J : Type 0} (o : JsonOps J) where
  open o use {of_nat, of_text, get}

  unfoldable pub block_to_json : Block → J
  block_to_json b = object o (
      (txt "index", of_nat b.index)
      ∷ (txt "nonce", of_nat b.nonce)
      ∷ (txt "difficulty", of_nat b.difficulty)
      ∷ (txt "hash", of_text b.hash)
      ∷ (txt "prev", of_text b.prev)
      ∷ (txt "miner", of_text b.miner)
      ∷ (txt "data", of_text b.payload)
      ∷ (txt "transactions", transactions_to_json o b.txs)
      ∷ (txt "time", of_nat (u64_of_int b.time))
      ∷ [])

  unfoldable pub block_of_json : J → Option Block
  block_of_json j = do
    i ← nat_at o j (txt "index")
    n ← nat_at o j (txt "nonce")
    d ← nat_at o j (txt "difficulty")
    s ← text_at o j (txt "data")
    p ← text_at o j (txt "prev")
    h ← text_at o j (txt "hash")
    m ← text_at o j (txt "miner")
    ts ← get j (txt "transactions") >>= transactions_of_json o
    t ← nat_at o j (txt "time")
    some (record {
      hashed = record {
        index = i;
        nonce = n;
        difficulty = d;
        payload = s;
        time = int_of_u64 t;
        prev = p;
        txs = ts;
      };
      hash = h;
      miner = m;
    })

-- The numbers of a block are in the range of their types.
pub record IsBlock (b : Block) : Type 0 where
  pub index_lt : b.index < 2 ^ 64
  pub nonce_lt : b.nonce < 2 ^ 64
  pub difficulty_lt : b.difficulty < 2 ^ 64
  pub time_int : IsInt64 b.time
  pub txs_in : All IsTransaction b.txs

module _ {J : Type 0} (o : JsonOps J) (laws : IsJson o) where
  open laws use {get-object, to_nat-of_nat, to_text-of_text}

  -- A block whose numbers are in range comes back from its json value as it was.
  pub block_of_json-block_to_json :
      (b : Block) → IsBlock b → block_of_json o (block_to_json o b) ≡ some b
  unfolding block_of_json block_to_json
  block_of_json-block_to_json b h = simp (
    get-object,
    to_text-of_text,
    to_nat-of_nat,
    h.index_lt,
    h.nonce_lt,
    h.difficulty_lt,
    u64_of_int-lt,
    transactions_of_json-transactions_to_json o laws b.txs h.txs_in,
    int_of_u64-u64_of_int b.time h.time_int,
  )
