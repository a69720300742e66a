-- ===== src/Settings/Types.antt =====
-- The types of the settings of src/Settings.cpp, which the `value` functions ask for.
use ash_coin.Base.{
  lookup, assign, lookup-assign, ℕ, ◌+◌, ◌&&◌, ◌≡◌, refl, sym, ap, ◌∙◌, Bool, true, false, Option,
  none, some, List, [], ◌∷◌, Text, text_eq, text_eq_iff, Bool-cases, Option-cases, inl, inr,
  if◌then◌else◌, arith, All,
}
use mathlib.Core.Bool.{false≢true}
use mathlib.Core.Option
use ash_coin.Settings.{
  Lexical, Value, unsigned, integer, boolean, string, other, Validator, returns, throws, crashes,
  Settings, Ended, validator_of, put, register, exists, reset, assigned, noted, is_other, is_valid,
  validate, converted, set, set_no_throw, load, load_items, is_accepted,
}
use ash_coin.Settings.Agree.{set_iff}
use ash_coin.Settings.Values.{IsMap, lookup-reset}

pub data ValueType : Type 0 where
  number_unsigned number_integer boolean_value string_value other_value : ValueType

-- What `type` of nlohmann says of a value.
unfoldable pub type_of : Value → ValueType
type_of (unsigned _) = number_unsigned
type_of (integer _) = number_integer
type_of (boolean _) = boolean_value
type_of (string _) = string_value
type_of (other _) = other_value

-- The type of the value that a map has for a name, if there is one.
unfoldable pub type_at : Text → List (Text × Value) → Option ValueType
unfolding type_of lookup
type_at name m = Option.map type_of (lookup name m)

-- The settings that calls make which return. A file is loaded whose items have the types of the
-- settings that they name.
pub data Made (x : Lexical) : Settings → Type 0 where
  starts : Made x (record { settings = []; defaults = []; validators = [] })
  registers :
      {s : Settings} (name : Text) (v : Value) (validator : Option Validator)
      → Made x s
      → Made x (register name v validator s)
  sets : {s s' : Settings} (name v : Text) → Made x s → set x name v s ≡ returns s' → Made x s'
  sets_no_throw :
      {s s' : Settings} {done : Bool} (name v : Text)
      → Made x s
      → set_no_throw x name v s ≡ returns (done, s')
      → Made x s'
  resets : {s : Settings} → Made x s → Made x (reset s)
  loads :
      {s : Settings} (items : List (Text × Value))
      → Made x s
      → All (λ (kv : Text × Value). some (type_of kv.1) ≡ type_at kv.0 s.defaults) items
      → Made x ((load x (some items) s).1)

-- Each setting has the type of its default, and what has a default is a setting.
abbrev pub IsTyped : Settings → Type 0
IsTyped s = (name : Text) → type_at name s.settings ≡ type_at name s.defaults

type_at-assign :
    (k name : Text) (v : Value) (m : List (Text × Value))
    → type_at k (assign name v m) ≡ (if text_eq name k then some (type_of v) else type_at k m)
unfolding type_at
type_at-assign k name v m =
    rw (lookup-assign k name v m)
      (elim (Bool-cases (text_eq name k)) [ inl e ↦ rw e refl | inr e ↦ rw e refl ])

put-IsTyped :
    (name : Text) (v : Value) (s : Settings)
    → some (type_of v) ≡ type_at name s.defaults
    → IsTyped s
    → IsTyped (put name v s)
put-IsTyped name v s p t k =
    rw (type_at-assign k name v s.settings) (elim (Bool-cases (text_eq name k)) [
      | inl e ↦ rw (e, ← (text_eq_iff name k).0 e) p
      | inr e ↦ rw e (t k)
    ])

text_eq-flip : (s t : Text) → text_eq s t ≡ false → text_eq t s ≡ false
text_eq-flip s t e = elim (Bool-cases (text_eq t s)) [
  | inl f ↦ absurd (false≢true (sym e ∙ (text_eq_iff s t).1 (sym ((text_eq_iff t s).0 f))))
  | inr f ↦ f
]

module _ {A : Type 0} where
  All-assign_other :
      (k k' : Text) (v : A) (m : List (Text × A))
      → text_eq k' k ≡ false
      → All (λ (kv : Text × A). text_eq kv.0 k ≡ false) m
      → All (λ (kv : Text × A). text_eq kv.0 k ≡ false) (assign k' v m)
  unfolding assign
  All-assign_other k k' v [] p _ = (p, tt)
  All-assign_other k k' v ((k'', w) ∷ m) p (q, qs) = elim (Bool-cases (text_eq k'' k')) [
    | inl e ↦ rw e (q, qs)
    | inr e ↦ rw e (q, All-assign_other k k' v m p qs)
  ]

  assign-IsMap : (k : Text) (v : A) (m : List (Text × A)) → IsMap m → IsMap (assign k v m)
  unfolding assign
  assign-IsMap k v [] _ = (tt, tt)
  assign-IsMap k v ((k', w) ∷ m) (fresh, d) = elim (Bool-cases (text_eq k' k)) [
    | inl e ↦ rw e (fresh, d)
    | inr e ↦ rw e (All-assign_other k' k v m (text_eq-flip k' k e) fresh, assign-IsMap k v m d)
  ]

assigned-put :
    (name : Text) (c : Option Value) (s s' : Settings)
    → assigned name c s ≡ returns s'
    → (w : Value) × (c ≡ some w) × (put name w s ≡ s')
assigned-put name none s s' e = absurd (ground (arith, e))
assigned-put name (some w) s s' e = (w, refl, ground (arith, e))

noted-done : (e : Ended Settings) (s : Settings) → noted e ≡ returns (false, s) → ⊥
noted-done (returns s) s' e = ground (arith, e)
noted-done throws s' e = ground (arith, e)
noted-done crashes s' e = ground (arith, e)

module _ (x : Lexical) where
  -- A text is converted to a value of the type of the old one.
  converted-type_of :
      (old w : Value) (v : Text) → converted x old v ≡ some w → type_of w ≡ type_of old
  unfolding converted type_of
  converted-type_of (unsigned n) w v e = ground (arith, e)
  converted-type_of (integer n) w v e = ground (arith, e)
  converted-type_of (boolean b) w v e = ground (arith, e)
  converted-type_of (string t) w v e = ground (arith, e)
  converted-type_of (other t) w v e = ground (arith, e)

  assigned-IsTyped :
      (name v : Text) (old : Value) (s s' : Settings)
      → lookup name s.settings ≡ some old
      → assigned name (converted x old v) s ≡ returns s'
      → IsTyped s
      → IsTyped s' × (s.defaults ≡ s'.defaults)
  unfolding type_at
  assigned-IsTyped name v old s s' l e t =
      let (w, c, p) = assigned-put name (converted x old v) s s' e in
      let old_type : type_at name s.settings ≡ some (type_of old) = rw (type_at, l) refl in
      rw (← p) (
        put-IsTyped name w s (ap some (converted-type_of old w v c) ∙ (sym old_type ∙ t name)) t,
        refl,
      )

  set-IsTyped :
      (name v : Text) (s s' : Settings)
      → set x name v s ≡ returns s'
      → IsTyped s
      → IsTyped s' × (s.defaults ≡ s'.defaults)
  unfolding set
  set-IsTyped name v s s' e t = elim (Option-cases (lookup name s.settings)) [
    | inl l ↦ absurd (ground (arith, rw (set, l) at e))
    | inr (old, l) ↦ elim (Option-cases (validator_of name s)) [
      | inl q ↦ absurd (ground (arith, rw (set, l, q) at e))
      | inr (w, q) ↦ elim (Bool-cases (validate x w v)) [
        | inl u ↦ assigned-IsTyped name v old s s' l (rw (set, l, q, u) at e) t
        | inr u ↦ absurd (ground (arith, rw (set, l, q, u) at e))
      ]
    ]
  ]

  set_no_throw-unchanged :
      (name v : Text) (s s' : Settings) → set_no_throw x name v s ≡ returns (false, s') → s ≡ s'
  unfolding set_no_throw
  set_no_throw-unchanged name v s s' e = elim (Option-cases (lookup name s.settings)) [
    | inl l ↦ ground (arith, rw (set_no_throw, l) at e)
    | inr (old, l) ↦ elim (Bool-cases (is_other old)) [
      | inl o ↦ absurd (ground (arith, rw (set_no_throw, l, o) at e))
      | inr o ↦ elim (Option-cases (validator_of name s)) [
        | inl q ↦ absurd (ground (arith, rw (set_no_throw, l, o, q) at e))
        | inr (w, q) ↦ elim (Bool-cases (is_valid x w v)) [
          | inl u ↦ absurd (
              noted-done (assigned name (converted x old v) s) s'
                (rw (set_no_throw, l, o, q, u) at e))
          | inr u ↦ ground (arith, rw (set_no_throw, l, o, q, u) at e)
        ]
      ]
    ]
  ]

  set_no_throw-IsTyped :
      (name v : Text) (s s' : Settings) (done : Bool)
      → set_no_throw x name v s ≡ returns (done, s')
      → IsTyped s
      → IsTyped s' × (s.defaults ≡ s'.defaults)
  set_no_throw-IsTyped name v s s' true e t =
      set-IsTyped name v s s' ((set_iff x name v s s').1 e) t
  set_no_throw-IsTyped name v s s' false e t = rw (← set_no_throw-unchanged name v s s' e) (t, refl)

  load_items-IsTyped :
      (items : List (Text × Value)) (count : ℕ) (s : Settings)
      → All (λ (kv : Text × Value). some (type_of kv.1) ≡ type_at kv.0 s.defaults) items
      → IsTyped s
      → IsTyped ((load_items x items count s).1)
        × (s.defaults ≡ ((load_items x items count s).1).defaults)
  unfolding load_items
  load_items-IsTyped [] count s _ t = (t, refl)
  load_items-IsTyped ((name, v) ∷ items) count s (p, ps) t =
      elim (Bool-cases (exists name s && is_accepted x name v s)) [
        | inl e ↦
            rw e (load_items-IsTyped items (count + 1) (put name v s) ps (put-IsTyped name v s p t))
        | inr e ↦ rw e (t, refl)
      ]

  -- What every call keeps.
  Made-holds : {s : Settings} → Made x s → IsTyped s × IsMap s.defaults
  unfolding register reset load type_at
  Made-holds starts = (λ k. refl, tt)
  Made-holds (registers {s} name v validator m) =
      let (t, d) = Made-holds m in
      (
        λ k.
            type_at-assign k name v s.settings
            ∙ (ap (λ old. if text_eq name k then some (type_of v) else old) (t k)
                ∙ sym (type_at-assign k name v s.defaults)),
        assign-IsMap name v s.defaults d,
      )
  Made-holds (sets {s} {s'} name v m e) =
      let (t, d) = Made-holds m in let (t', p) = set-IsTyped name v s s' e t in (t', rw p at d)
  Made-holds (sets_no_throw {s} {s'} {done} name v m e) =
      let (t, d) = Made-holds m in
      let (t', p) = set_no_throw-IsTyped name v s s' done e t in (t', rw p at d)
  Made-holds (resets {s} m) =
      let (t, d) = Made-holds m in (λ k. ap (Option.map type_of) (lookup-reset k s d), d)
  Made-holds (loads {s} items m ps) =
      let (t, d) = Made-holds m in
      let (t', p) = load_items-IsTyped items 0 s ps t in (t', rw p at d)

  -- Whatever calls of the `register` functions, `set`, `setNoThrow`, `reset` and `load` have made the
  -- settings, where each file that is loaded gives the settings that it names values of the types of
  -- their defaults: a setting has the type of its default, and there is a setting exactly where there
  -- is a default.
  pub Made-IsTyped :
      {s : Settings} → Made x s → (name : Text) → type_at name s.settings ≡ type_at name s.defaults
  Made-IsTyped m name = (Made-holds m).0 name
