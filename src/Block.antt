-- ===== src/Block.antt =====
-- src/Block.h and src/Block.cpp: blocks, their hash and its check. The time is the count of
-- milliseconds of a `BlockTime`, an `int64_t`; the logger is not modelled.
pub mod Json
pub mod Collide
use ash_coin.Base.{
  Option, none, some, false, not, ◌>>=◌, if◌then◌else◌, ℕ, ◌+◌, ◌%◌, ◌^◌, Bool, ◌&&◌, List, [], ◌∷◌,
  ◌++◌, Text, text_eq, decimal, ◌==◌, take, replicate, ℤ, int_eq, decimal_ℤ,
}
use ash_coin.External.{External}
use ash_coin.Tx.{Transaction}
use ash_coin.Tx.Json.{transactions_to_json}

pub record HashedData : Type 0 where
  pub index : ℕ
  pub nonce : ℕ
  pub difficulty : ℕ
  pub payload : Text
  pub time : ℤ
  pub prev : Text
  pub txs : List Transaction

-- `Block::previousHash` is `prev`, and `Block::data` is `payload`.
pub record Block : Type 0 where
  pub hashed : HashedData
  pub open hashed use *
  pub hash : Text
  pub miner : Text

-- `Block::operator==`
unfoldable pub same_block : Block → Block → Bool
same_block a b =
    a.index == b.index
    && (a.nonce == b.nonce && (text_eq a.payload b.payload && int_eq a.time b.time))

unfoldable pub set_payload : Text → Block → Block
set_payload s b = record b { hashed = record (b.hashed) { payload = s } }

unfoldable pub set_miner : Text → Block → Block
set_miner s b = record b { miner = s }

unfoldable pub set_mined_data : (nonce difficulty : ℕ) → ℤ → Text → Block → Block
set_mined_data nonce difficulty time hash b = record b {
  hashed = record (b.hashed) { nonce = nonce; difficulty = difficulty; time = time };
  hash = hash;
}

-- `hash.compare(0, n, zeros) == 0`: the hash begins with `n` letters `0`, and is not shorter.
unfoldable pub has_zeros : ℕ → Text → Bool
has_zeros n hash = text_eq (take n hash) (replicate n 48)

module _ {J : Type 0} (x : External J) where
  open x.crypto use {sha256, hex_encode}

  -- `ash::crypto::SHA256`
  unfoldable pub sha256_text : Text → Text
  sha256_text s = hex_encode (sha256 s)

  unfoldable pub hash_of : (index nonce difficulty : ℕ) → ℤ → (payload prev extra : Text) → Text
  hash_of index nonce difficulty time payload prev extra = sha256_text (
      decimal index
      ++ (decimal nonce
          ++ (decimal difficulty ++ (payload ++ (decimal_ℤ time ++ (prev ++ extra))))))

  -- The hash of the transactions that goes into the block's hash.
  unfoldable pub extra_of : List Transaction → Text
  extra_of txs = sha256_text (x.json.dump (transactions_to_json x.json txs))

  unfoldable pub calculate_block_hash : Block → Text
  calculate_block_hash b =
      hash_of b.index b.nonce b.difficulty b.time b.payload b.prev (extra_of b.txs)

  -- The zeros are made only where the hash is right; `none` is the exception of a difficulty that no
  -- `std::string` has as its size.
  unfoldable pub valid_hash : Block → Option Bool
  valid_hash b =
      if not (text_eq (calculate_block_hash b) b.hash)
      then some false
      else if x.string_fits b.difficulty
      then some (has_zeros b.difficulty b.hash)
      else none

  -- `prevblock.index() + 1` wraps.
  unfoldable pub valid_new_block : Block → Block → Option Bool
  unfolding valid_hash
  valid_new_block b prevblock = valid_hash b >>= λ v.
      some (v && (b.index == (prevblock.index + 1) % 2 ^ 64 && text_eq b.prev prevblock.hash))

  -- The constructor, at the time `now`.
  unfoldable pub new_block : ℤ → ℕ → Text → List Transaction → Block
  new_block now index prev_hash txs =
      let h : HashedData = record {
        index = index;
        nonce = 0;
        difficulty = 1;
        payload = [];
        time = now;
        prev = prev_hash;
        txs = txs;
      } in
      let b : Block = record { hashed = h; hash = []; miner = [] } in
      record b { hash = calculate_block_hash b }
