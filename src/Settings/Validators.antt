-- ===== src/Settings/Validators.antt =====
-- The validators of src/Settings.h, and `isBoolean` and `convertToBool` of src/AshUtils.cpp.
use ash_coin.Base.{
  ℕ, Bool, true, false, not, ◌&&◌, Option, none, some, List, [], ◌∷◌, ◌++◌, Text, txt, text_eq, leb,
  length, if◌then◌else◌, ℤ, ltb_ℤ, is_some,
}

-- A json value as a setting: its type is what the code asks for.
pub data Value : Type 0 where
  unsigned : ℕ → Value
  integer : ℤ → Value
  boolean : Bool → Value
  string : Text → Value
  other : Text → Value

-- `lexical_cast` to a `std::uint32_t`, a `std::uint64_t` and a `std::int32_t`, with `none` for `bad_lexical_cast`, and
-- `json_to_string`, which leaves the quotes of a string away.
pub record Lexical : Type 0 where
  pub to_u32 : Text → Option ℕ
  pub to_u64 : Text → Option ℕ
  pub to_i32 : Text → Option ℤ
  pub iequals : Text → Text → Bool
  pub dump : Value → Text

-- The classes that derive from `Validator`. A number is unsigned where the flag says so.
pub data Validator : Type 0 where
  not_empty : Validator
  at_most : ℕ → Validator
  number : Bool → Validator
  range_u32 : (min max : ℕ) → Validator
  range_u64 : (min max : ℕ) → Validator
  range_i32 : (min max : ℤ) → Validator
  bool_text : Validator
  one_of : List Text → Validator

module _ (x : Lexical) where
  open x use {to_u32, to_u64, to_i32, iequals, dump}

  unfoldable pub any_equal : List Text → Text → Bool
  any_equal [] s = false
  any_equal (t ∷ ts) s = if iequals t s then true else any_equal ts s

  abbrev pub true_strings : List Text
  true_strings = txt "true" ∷ (txt "on" ∷ (txt "1" ∷ []))

  abbrev pub false_strings : List Text
  false_strings = txt "false" ∷ (txt "off" ∷ (txt "0" ∷ []))

  -- `utils::isBoolean`
  unfoldable pub is_boolean : Text → Bool
  unfolding any_equal
  is_boolean s = any_equal (true_strings ++ false_strings) s

  -- `utils::convertToBool`, with `none` for its exception.
  unfoldable pub convert_to_bool : Text → Option Bool
  unfolding any_equal
  convert_to_bool s =
      if any_equal true_strings s
      then some true
      else if any_equal false_strings s
      then some false
      else none

  -- `isValid` of each class.
  unfoldable pub is_valid : Validator → Text → Bool
  unfolding is_boolean any_equal
  is_valid not_empty s = not (text_eq s [])
  is_valid (at_most n) s = leb (length s) n
  is_valid (number true) s = is_some (to_u32 s)
  is_valid (number false) s = is_some (to_i32 s)
  is_valid (range_u32 min max) s = elim (to_u32 s) [
    | none ↦ false
    | some n ↦ leb min n && leb n max
  ]
  is_valid (range_u64 min max) s = elim (to_u64 s) [
    | none ↦ false
    | some n ↦ leb min n && leb n max
  ]
  is_valid (range_i32 min max) s = elim (to_i32 s) [
    | none ↦ false
    | some n ↦ not (ltb_ℤ n min) && not (ltb_ℤ max n)
  ]
  is_valid bool_text s = is_boolean s
  is_valid (one_of ts) s = any_equal ts s

  -- `validate`, which throws where it says no; that of `RangeValidator` asks for a number first.
  unfoldable pub validate : Validator → Text → Bool
  unfolding is_valid
  validate (range_u32 min max) s =
      if not (is_valid (number true) s) then false else is_valid (range_u32 min max) s
  validate (range_u64 min max) s =
      if not (is_some (to_u64 s)) then false else is_valid (range_u64 min max) s
  validate (range_i32 min max) s =
      if not (is_valid (number false) s) then false else is_valid (range_i32 min max) s
  validate not_empty s = is_valid not_empty s
  validate (at_most n) s = is_valid (at_most n) s
  validate (number u) s = is_valid (number u) s
  validate bool_text s = is_valid bool_text s
  validate (one_of ts) s = is_valid (one_of ts) s
