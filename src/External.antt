-- ===== src/External.antt =====
-- What the program uses and does not implement, as parameters: `double` arithmetic, the Crypto++
-- primitives, Boost's hash mixing and case-insensitive comparison, and nlohmann's json values.
-- A `double` is its 64-bit pattern, a number below 2 ^ 64.
mod Json
pub use Json.{JsonOps, last_value, last_value_from, IsJson}
unfoldable pub use Json.{object, array}
use ash_coin.Base.{ℕ, Bool, Text}

-- `+`, `-`, `*`, `<=` and `<` of two doubles, and `stream << d`.
pub record Double : Type 0 where
  pub add : ℕ → ℕ → ℕ
  pub sub : ℕ → ℕ → ℕ
  pub mul : ℕ → ℕ → ℕ
  pub le : ℕ → ℕ → Bool
  pub lt : ℕ → ℕ → Bool
  pub show : ℕ → Text

-- `hex_encode` is `HexEncoder` with lower case letters. `public_point` is the point of secp256k1 for
-- a private exponent, `decode_integer` reads the hex digits of a key, and `show_hex` is
-- `stream << std::hex << n`, which ends in the letter `h`. `parse_hex` is the constructor of `Integer`
-- from such a text, and `pad64` is fmt's format `{:0>64}`.
pub record Crypto : Type 0 where
  pub sha256 : Text → Text
  pub ripemd160 : Text → Text
  pub hex_encode : Text → Text
  pub hex_decode : Text → Text
  pub decode_integer : Text → ℕ
  pub public_point : ℕ → ℕ × ℕ
  pub show_hex : ℕ → Text
  pub parse_hex : Text → ℕ
  pub pad64 : Text → Text

-- `boost::hash_combine` on a seed and a hash, and `boost::iequals`.
pub record Boost : Type 0 where
  pub hash_combine : ℕ → ℕ → ℕ
  pub iequals : Text → Text → Bool

-- `J` is the type of the json values. A `std::string` or a `std::vector` of blocks of a size can be made
-- where `string_fits` and `blocks_fit` say so; otherwise `std::length_error` or `std::bad_alloc` is thrown.
pub record External (J : Type 0) : Type 0 where
  pub double : Double
  pub crypto : Crypto
  pub boost : Boost
  pub json : JsonOps J
  pub string_fits : ℕ → Bool
  pub blocks_fit : ℕ → Bool
