-- ===== src/CryptoUtils.antt =====
-- src/CryptoUtils.cpp: the hashes of hex texts, Base58, public keys and addresses. The primitives of
-- Crypto++ are the parameter `Crypto`, and what `GeneratePrivateKey` draws is an argument.
pub mod Base58
use ash_coin.Base.{
  ℕ, Bool, zero, suc, ◌+◌, ◌-◌, ◌/◌, ◌*◌, List, [], ◌∷◌, ◌++◌, Text, txt, ltb, if◌then◌else◌,
  get_or, replicate, length, take, drop_last,
}
use ash_coin.External.{Crypto}

abbrev pub base_count : ℕ
base_count = 58

abbrev pub base58_alphabet : Text
base58_alphabet = txt "123456789ABCDEFGHJKLMNPQRSTUVWXYZabcdefghijkmnopqrstuvwxyz"

-- The letter of a digit.
unfoldable pub letter : ℕ → ℕ
letter d = get_or base58_alphabet d 0

-- The loop of `Base58Encode`, which puts a letter in front of `encoded` in each round.
unfoldable pub base58_loop : ℕ → ℕ → Text → Text
base58_loop zero num encoded = letter num ∷ encoded
base58_loop (suc fuel) num encoded =
    let div = num / base_count in
    let rest = base58_loop fuel div (letter (num - base_count * div) ∷ encoded) in
    if ltb num base_count then letter num ∷ encoded else rest

-- A number falls in each round, so as many rounds as the number says are enough.
unfoldable pub base58_encode : ℕ → Text
unfolding base58_loop
base58_encode num = base58_loop num num []

module _ (c : Crypto) where
  open c use {
    sha256, ripemd160, hex_encode, hex_decode, decode_integer, public_point, show_hex, pad64,
    parse_hex,
  }

  unfoldable pub sha256_hex_string : Text → Text
  sha256_hex_string s = hex_encode (sha256 (hex_decode s))

  unfoldable pub ripemd160_hex_string : Text → Text
  ripemd160_hex_string s = hex_encode (ripemd160 (hex_decode s))

  unfoldable pub coordinate : ℕ → Text
  coordinate n = pad64 (drop_last (show_hex n))

  unfoldable pub get_public_key : Text → Text
  unfolding coordinate
  get_public_key private_key =
      let (qx, qy) = public_point (decode_integer private_key) in
      txt "04" ++ (coordinate qx ++ coordinate qy)

  unfoldable pub get_address_from_private_key : Text → Text
  unfolding get_public_key sha256_hex_string ripemd160_hex_string base58_encode
  get_address_from_private_key private_key =
      let public_key_hash = sha256_hex_string (get_public_key private_key) in
      let step4 = txt "00" ++ ripemd160_hex_string public_key_hash in
      let network_hash = sha256_hex_string (sha256_hex_string step4) in
      let step7 = take 8 network_hash in
      txt "1" ++ base58_encode (parse_hex (step4 ++ (step7 ++ txt "h")))

  -- `GeneratePrivateKey`, for an exponent that was drawn and what `Validate` says of it.
  unfoldable pub generate_private_key : (exponent : ℕ) (is_valid : Bool) → Text
  generate_private_key exponent is_valid = if is_valid then pad64 (show_hex exponent) else []
