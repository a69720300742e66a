-- ===== src/Settings.antt =====
-- src/Settings.h and src/Settings.cpp: the settings, and the validators with the Boolean texts of
-- src/AshUtils.cpp. `boost::lexical_cast`, `boost::iequals` and the output of a json value are
-- parameters. The texts of the exceptions are not modelled, and `save` only writes a file. A file
-- of settings is the list of the items that it is parsed to.
mod Validators
pub mod Agree
pub mod Types
pub mod Values
pub mod Registered
pub use Validators.{
  Lexical, Value, unsigned, integer, boolean, string, other, Validator, not_empty, at_most, number,
  range_u32, range_u64, range_i32, bool_text, one_of,
}
unfoldable pub use Validators.{
  any_equal, true_strings, false_strings, is_boolean, convert_to_bool, is_valid, validate,
}
use ash_coin.Base.{
  lookup, assign, ℕ, ◌+◌, ◌-◌, ◌%◌, ◌^◌, negsuc, Bool, true, false, not, ◌&&◌, Option, none, some,
  List, [], ◌∷◌, ◌++◌, Text, txt, text_eq, leb, ltb, length, ◌>>=◌, if◌then◌else◌, ℤ, pos, ltb_ℤ,
  is_some,
}

-- How a call ends: `throws` is an exception, and `crashes` a call through a null pointer.
pub data Ended (A : Type 0) : Type 0 where
  returns : A → Ended A
  throws : Ended A
  crashes : Ended A

-- A validator that is `none` is a null pointer.
pub record Settings : Type 0 where
  pub settings : List (Text × Value)
  pub defaults : List (Text × Value)
  pub validators : List (Text × Option Validator)

-- `_validators[name]`: a key that is not there gets a null pointer.
abbrev pub validator_of : Text → Settings → Option Validator
validator_of name s = elim (lookup name s.validators) [ none ↦ none | some v ↦ v ]

abbrev pub put : Text → Value → Settings → Settings
put name v s = record s { settings = assign name v s.settings }

-- The three assignments at the end of every `register` function.
unfoldable pub register : Text → Value → Option Validator → Settings → Settings
register name v validator s = record {
  settings = assign name v s.settings;
  defaults = assign name v s.defaults;
  validators = assign name validator s.validators;
}

-- `Settings::exists`
unfoldable pub exists : Text → Settings → Bool
exists name s = is_some (lookup name s.settings)

-- `Settings::reset`, where the key of each default is assigned to.
unfoldable pub assign_all {ℓ} : {A : Type ℓ} → List (Text × A) → List (Text × A) → List (Text × A)
assign_all [] m = m
assign_all ((k, v) ∷ kvs) m = assign_all kvs (assign k v m)

unfoldable pub reset : Settings → Settings
unfolding assign_all
reset s = record s { settings = assign_all s.defaults [] }

abbrev pub assigned : Text → Option Value → Settings → Ended Settings
assigned name none s = throws
assigned name (some v) s = returns (put name v s)

abbrev pub is_other : Value → Bool
is_other (unsigned _) = false
is_other (integer _) = false
is_other (boolean _) = false
is_other (string _) = false
is_other (other _) = true

abbrev pub noted : Ended Settings → Ended (Bool × Settings)
noted (returns s) = returns (true, s)
noted throws = throws
noted crashes = crashes

module _ (x : Lexical) where
  open x use {to_u32, to_i32, iequals, dump}

  -- The new value for a setting of the type of the old one; `none` is an exception.
  unfoldable pub converted : Value → Text → Option Value
  unfolding convert_to_bool
  converted (unsigned _) v = to_u32 v >>= λ n. some (unsigned n)
  converted (integer _) v = to_i32 v >>= λ n. some (integer n)
  converted (boolean _) v = convert_to_bool x v >>= λ b. some (boolean b)
  converted (string _) v = some (string v)
  converted (other _) v = none

  -- `Settings::set`
  unfoldable pub set : Text → Text → Settings → Ended Settings
  unfolding validate converted lookup
  set name v s = elim (lookup name s.settings) [
    | none ↦ throws
    | some old ↦ elim (validator_of name s) [
      | none ↦ crashes
      | some validator ↦
          if validate x validator v then assigned name (converted old v) s else throws
    ]
  ]

  -- A loaded value is taken where there is no validator, or where the validator takes its text.
  abbrev pub is_accepted : Text → Value → Settings → Bool
  is_accepted name v s = elim (validator_of name s) [
    | none ↦ true
    | some validator ↦ is_valid x validator (dump v)
  ]

  -- The loop of `load` over the items of the file. It counts the settings, or throws, and the
  -- settings that it assigned before it throws stay.
  unfoldable pub load_items : List (Text × Value) → ℕ → Settings → Option ℕ × Settings
  unfolding is_valid exists
  load_items [] count s = (some count, s)
  load_items ((name, v) ∷ items) count s =
      let rest = load_items items (count + 1) (put name v s) in
      if exists name s && is_accepted name v s then rest else (none, s)

  -- `Settings::load`; nothing is loaded where there is no file.
  unfoldable pub load : Option (List (Text × Value)) → Settings → Option ℕ × Settings
  unfolding load_items
  load none s = (some 0, s)
  load (some items) s = load_items items 0 s

  -- `Settings::setNoThrow`, with what it returns.
  unfoldable pub set_no_throw : Text → Text → Settings → Ended (Bool × Settings)
  unfolding is_valid converted lookup
  set_no_throw name v s = elim (lookup name s.settings) [
    | none ↦ returns (false, s)
    | some old ↦ if is_other old then throws else (elim (validator_of name s) [
      | none ↦ crashes
      | some validator ↦
          if is_valid x validator v
          then noted (assigned name (converted old v) s)
          else returns (false, s)
    ])
  ]

  -- `registerString`, which asks the validator, if there is one.
  unfoldable pub register_string : Text → Text → Option Validator → Settings → Ended Settings
  unfolding register validate
  register_string name v none s = returns (register name (string v) none s)
  register_string name v (some validator) s =
      if validate x validator v
      then returns (register name (string v) (some validator) s)
      else throws

  -- `registerEnum`
  unfoldable pub register_enum : Text → Text → List Text → Settings → Ended Settings
  unfolding register validate
  register_enum name v possible s =
      if validate x (one_of possible) v
      then returns (register name (string v) (some (one_of possible)) s)
      else throws

-- `registerUInt` and `registerInt`, with or without a validator, and `registerBool`.
unfoldable pub register_u_int : Text → ℕ → Option Validator → Settings → Settings
unfolding register
register_u_int name n none s = register name (unsigned n) (some (number true)) s
register_u_int name n (some v) s = register name (unsigned n) (some v) s

unfoldable pub register_int : Text → ℤ → Option Validator → Settings → Settings
unfolding register
register_int name n none s = register name (integer n) (some (number false)) s
register_int name n (some v) s = register name (integer n) (some v) s

unfoldable pub register_bool : Text → Bool → Settings → Settings
unfolding register
register_bool name b s = register name (boolean b) (some bool_text) s

-- The `value` functions.
unfoldable pub value_bool : Text → Bool → Settings → Bool
unfolding lookup
value_bool name default s = elim (lookup name s.settings) [
  | some (boolean b) ↦ b
  | some (unsigned _) ↦ default
  | some (integer _) ↦ default
  | some (string _) ↦ default
  | some (other _) ↦ default
  | none ↦ default
]

unfoldable pub value_string : Text → Text → Settings → Text
unfolding lookup
value_string name default s = elim (lookup name s.settings) [
  | some (string v) ↦ v
  | some (boolean _) ↦ default
  | some (unsigned _) ↦ default
  | some (integer _) ↦ default
  | some (other _) ↦ default
  | none ↦ default
]

unfoldable pub value_u32 : Text → ℕ → Settings → ℕ
unfolding lookup
value_u32 name default s = elim (lookup name s.settings) [
  | some (unsigned n) ↦ n
  | some (boolean _) ↦ default
  | some (string _) ↦ default
  | some (integer _) ↦ default
  | some (other _) ↦ default
  | none ↦ default
]

-- `get<std::int32_t>()` of an unsigned number wraps.
abbrev pub as_i32 : ℕ → ℤ
as_i32 n = if ltb (n % 2 ^ 32) (2 ^ 31) then pos (n % 2 ^ 32) else negsuc (2 ^ 32 - 1 - n % 2 ^ 32)

unfoldable pub value_i32 : Text → ℤ → Settings → ℤ
unfolding lookup
value_i32 name default s = elim (lookup name s.settings) [
  | some (integer n) ↦ n
  | some (unsigned n) ↦ as_i32 n
  | some (boolean _) ↦ default
  | some (string _) ↦ default
  | some (other _) ↦ default
  | none ↦ default
]
