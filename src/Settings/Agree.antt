-- ===== src/Settings/Agree.antt =====
-- `set` and `setNoThrow` of src/Settings.cpp, and the texts that are Boolean.
use ash_coin.Base.{
  lookup, ◌≡◌, refl, ◌↔◌, Bool, true, false, Option, none, some, List, [], ◌∷◌, ◌++◌, Text,
  Bool-cases, Option-cases, inl, inr, if◌then◌else◌, is_some, arith,
}
use ash_coin.Settings.{
  Lexical, Value, unsigned, integer, boolean, string, other, Validator, not_empty, at_most, number,
  range_u32, range_u64, range_i32, bool_text, one_of, returns, throws, Settings, validator_of,
  any_equal, true_strings, false_strings, is_boolean, convert_to_bool, is_valid, validate,
  converted, assigned, set, is_other, noted, set_no_throw,
}

-- The ends of the two calls, by whether the type of the setting is unknown, whether the text is valid
-- and what it is converted to.
ends_agree :
    (name : Text) (s s' : Settings) (unknown valid : Bool) (c : Option Value)
    → (unknown ≡ true → c ≡ none)
    → ((if valid then assigned name c s else throws) ≡ returns s') ↔ (
        (if unknown
          then throws
          else if valid
          then noted (assigned name c s)
          else returns (false, s))
        ≡ returns (true, s'))
ends_agree name s s' true true (some w) h = absurd (ground (arith, h refl))
ends_agree name s s' true true none h = ground arith
ends_agree name s s' true false c h = ground arith
ends_agree name s s' false true none h = ground arith
ends_agree name s s' false true (some w) h = ground arith
ends_agree name s s' false false c h = ground arith

module _ (x : Lexical) where
  any_equal-append :
      (ts us : List Text) (s : Text)
      → any_equal x (ts ++ us) s ≡ (if any_equal x ts s then true else any_equal x us s)
  unfolding any_equal
  any_equal-append [] us s = refl
  any_equal-append (t ∷ ts) us s = elim (Bool-cases (x.iequals t s)) [
    | inl e ↦ rw e refl
    | inr e ↦ rw e (any_equal-append ts us s)
  ]

  -- `convertToBool` throws exactly for the texts that `isBoolean` says no to.
  pub convert_to_bool-is_boolean : (s : Text) → is_some (convert_to_bool x s) ≡ is_boolean x s
  unfolding convert_to_bool is_boolean
  convert_to_bool-is_boolean s =
      rw (any_equal-append (true_strings x) (false_strings x) s) (ground arith)

  -- `validate` of every class throws exactly where `isValid` says no.
  validate-eq-is_valid : (v : Validator) (s : Text) → validate x v s ≡ is_valid x v s
  unfolding validate is_valid
  validate-eq-is_valid not_empty s = refl
  validate-eq-is_valid (at_most n) s = refl
  validate-eq-is_valid (number u) s = refl
  validate-eq-is_valid (range_u32 a b) s = ground arith
  validate-eq-is_valid (range_u64 a b) s = ground arith
  validate-eq-is_valid (range_i32 a b) s = ground arith
  validate-eq-is_valid bool_text s = refl
  validate-eq-is_valid (one_of ts) s = refl

  other-converted : (old : Value) (v : Text) → is_other old ≡ true → converted x old v ≡ none
  unfolding converted
  other-converted (unsigned n) v e = ground arith
  other-converted (integer n) v e = ground arith
  other-converted (boolean b) v e = ground arith
  other-converted (string t) v e = ground arith
  other-converted (other t) v e = refl

  -- `set` returns exactly where `setNoThrow` says yes, and with the same settings.
  pub set_iff :
      (name v : Text) (s s' : Settings)
      → (set x name v s ≡ returns s') ↔ (set_no_throw x name v s ≡ returns (true, s'))
  unfolding set set_no_throw
  set_iff name v s s' = elim (Option-cases (lookup name s.settings)) [
    | inl e ↦ rw (set, set_no_throw, e) (ground arith)
    | inr (old, e) ↦ elim (Option-cases (validator_of name s)) [
      | inl q ↦
          rw (set, set_no_throw, e, q)
            (elim (Bool-cases (is_other old)) [
              | inl u ↦ rw u (ground arith)
              | inr u ↦ rw u (ground arith)
            ])
      | inr (w, q) ↦
          rw (set, set_no_throw, e, q, validate-eq-is_valid w v)
            (ends_agree name s s' (is_other old) (is_valid x w v) (converted x old v)
              (other-converted old v))
    ]
  ]
