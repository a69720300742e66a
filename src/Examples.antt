-- ===== src/Examples.antt =====
-- Concrete instances of what the program uses and does not implement, and small chains, for the runs
-- in the children.
mod Json
mod ChainRuns
mod PaymentRuns
mod DatabaseRuns
mod NodeRuns
mod ServiceRuns
mod NetworkRuns
mod StartRuns
mod SettingsRuns
mod PeerRuns
mod EntryRuns
mod MachineRuns
mod SettledRuns
use ash_coin.Base.{
  ℕ, suc, ◌+◌, ◌-◌, ◌*◌, ◌%◌, Bool, Option, none, some, List, [], ◌∷◌, Text, txt, text_eq, decimal,
  ltb, leb, ℤ, pos, foldl,
}
use ash_coin.External.{External, Double, Crypto, Boost}
use ash_coin.Tx.{TxOutPoint, TxIn, TxOut, Transaction, new_tx_in}
use ash_coin.Block.{Block, HashedData}
use ash_coin.Chain.{Chain}
use Json.{JsonValue, json_ops}

-- Whole numbers in the place of doubles.
abbrev pub whole : Double
whole = record {
  add = λ a b. a + b;
  sub = λ a b. a - b;
  mul = λ a b. a * b;
  le = leb;
  lt = ltb;
  show = decimal;
}

-- A digest of one decimal digit, the sum of the bytes.
abbrev pub digit_sum : Text → Text
digit_sum s = (48 + foldl (λ n b. n + b) 0 s % 10) ∷ []

abbrev pub small_crypto : Crypto
small_crypto = record {
  sha256 = digit_sum;
  ripemd160 = digit_sum;
  hex_encode = λ s. s;
  hex_decode = λ s. s;
  decode_integer = λ s. foldl (λ n b. n + b) 0 s;
  public_point = λ n. (n, n);
  show_hex = decimal;
  parse_hex = λ s. foldl (λ n b. n + b) 0 s;
  pad64 = λ s. s;
}

abbrev pub small_boost : Boost
small_boost = record { hash_combine = λ seed v. seed * 1000 + v; iequals = text_eq }

abbrev pub small : External JsonValue
small = record {
  double = whole;
  crypto = small_crypto;
  boost = small_boost;
  json = json_ops;
  string_fits = λ n. ltb n 1000;
  blocks_fit = λ n. ltb n 1000;
}

-- A reward of 100 for the wallet `16D`, in a block of index `n`.
abbrev pub reward : ℕ → Transaction
reward n = record {
  id = txt "t";
  tx_ins = new_tx_in n 0 0 [] ∷ [];
  tx_outs = (record { address = txt "16D"; amount = 100 }) ∷ [];
}

-- A block of a difficulty and with a hash.
abbrev pub block_at : (index difficulty : ℕ) → (prev hash : Text) → List Transaction → Block
block_at i d prev hash txs = record {
  hashed = record {
    index = i;
    nonce = 0;
    difficulty = d;
    payload = [];
    time = pos 0;
    prev = prev;
    txs = txs;
  };
  hash = hash;
  miner = [];
}

abbrev pub genesis : Block
genesis = block_at 0 0 [] (txt "0") (reward 0 ∷ [])

abbrev pub second : Block
second = block_at 1 0 (txt "0") (txt "9") (reward 1 ∷ [])

abbrev pub only_genesis : Chain
only_genesis = record { blocks = genesis ∷ []; tx_queue = [] }

abbrev pub two_blocks : Chain
two_blocks = record { blocks = genesis ∷ second ∷ []; tx_queue = [] }
