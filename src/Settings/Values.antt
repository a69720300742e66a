-- ===== src/Settings/Values.antt =====
-- What is read of the settings after `register`, `set`, `load` and `reset`.
use ash_coin.Base.{
  lookup, assign, lookup-assign, lookup-assign_same, ℕ, ◌+◌, ◌≡◌, refl, sym, ap, ◌∙◌, Bool, true,
  false, ◌&&◌, none, some, List, [], ◌∷◌, Text, text_eq, text_eq_iff, Bool-cases, Option-cases, inl,
  inr, is_some, arith, All,
}
use ash_coin.Settings.{
  Lexical, Value, boolean, bool_text, returns, Settings, assign_all, put, register, register_bool,
  exists, reset, convert_to_bool, is_valid, validate, converted, set, value_bool, load_items,
  is_accepted,
}
use ash_coin.Settings.Agree.{convert_to_bool-is_boolean}

module _ (x : Lexical) where
  exists-put :
      (k name : Text) (v : Value) (s : Settings)
      → exists name s ≡ true
      → exists k (put name v s) ≡ exists k s
  unfolding exists
  exists-put k name v s e = elim (Bool-cases (text_eq name k)) [
    | inl f ↦
        let same : name ≡ k = (text_eq_iff name k).0 f in
        let there : is_some (lookup k s.settings) ≡ true = rw same at e in
        rw (exists, lookup-assign k name v s.settings, f, there) refl
    | inr f ↦ rw (exists, lookup-assign k name v s.settings, f) refl
  ]

  -- Whatever the file holds, `load` adds no setting and loses none, also where it throws.
  pub exists-load_items :
      (items : List (Text × Value)) (count : ℕ) (s : Settings) (k : Text)
      → exists k ((load_items x items count s).1) ≡ exists k s
  unfolding load_items
  exists-load_items [] count s k = refl
  exists-load_items ((name, v) ∷ items) count s k =
      elim (Bool-cases (exists name s && is_accepted x name v s)) [
        | inl e ↦ rw e (
            exists-load_items items (count + 1) (put name v s) k
            ∙ exists-put k name v s (ground arith))
        | inr e ↦ rw e refl
      ]

  -- A Boolean setting that is set to a text that stands for a Boolean value, has that value.
  pub value_bool-set :
      (name v : Text) (b default c : Bool) (s : Settings)
      → convert_to_bool x v ≡ some c
      → (s' : Settings) × (set x name v (register_bool name b s) ≡ returns s')
        × (value_bool name default s' ≡ c)
  unfolding set register_bool register value_bool validate is_valid converted
  value_bool-set name v b default c s e =
      let begun : Settings = register_bool name b s in
      let l : lookup name begun.settings ≡ some (boolean b) =
        lookup-assign_same name (boolean b) s.settings in
      let m : lookup name begun.validators ≡ some (some bool_text) =
        lookup-assign_same name (some bool_text) s.validators in
      let ok : validate x bool_text v ≡ true =
        sym (convert_to_bool-is_boolean x v) ∙ ap is_some e in
      let ended : Settings = put name (boolean c) begun in
      (
        ended,
        rw (set, l, m, ok, converted, e) refl,
        rw (value_bool, lookup-assign_same name (boolean c) begun.settings) refl,
      )

-- Each key of a map is there once.
abbrev pub IsMap : {A : Type 0} → List (Text × A) → Type 0
IsMap [] = Unit
IsMap {A} ((k, v) ∷ m) = All (λ (kv : Text × A). text_eq kv.0 k ≡ false) m × IsMap m

module _ {A : Type 0} where
  lookup_absent :
      (k : Text) (m : List (Text × A))
      → All (λ (kv : Text × A). text_eq kv.0 k ≡ false) m
      → lookup k m ≡ none
  unfolding lookup
  lookup_absent k [] _ = refl
  lookup_absent k ((k', v) ∷ m) (e, es) = rw e (lookup_absent k m es)

  lookup-assign_all :
      (k : Text) (kvs m : List (Text × A))
      → IsMap kvs
      → lookup k (assign_all kvs m) ≡ elim (lookup k kvs) [ some v ↦ some v | none ↦ lookup k m ]
  unfolding lookup assign_all
  lookup-assign_all k [] m _ = refl
  lookup-assign_all k ((k', v) ∷ kvs) m (fresh, d) = elim (Bool-cases (text_eq k' k)) [
    | inl e ↦
        let same : k' ≡ k = (text_eq_iff k' k).0 e in
        let gone : lookup k kvs ≡ none = lookup_absent k kvs (rw same at fresh) in
        rw (e, lookup-assign_all k kvs (assign k' v m) d, gone, lookup-assign k k' v m, e) refl
    | inr e ↦
        rw (e, lookup-assign_all k kvs (assign k' v m) d)
          (elim (Option-cases (lookup k kvs)) [
            | inl f ↦ rw (f, lookup-assign k k' v m, e) refl
            | inr (w, f) ↦ rw f refl
          ])
  ]

-- After `reset` a setting is what was registered as its default, and what has no default is gone.
pub lookup-reset :
    (name : Text) (s : Settings)
    → IsMap s.defaults
    → lookup name ((reset s).settings) ≡ lookup name s.defaults
unfolding reset lookup
lookup-reset name s d =
    lookup-assign_all name s.defaults [] d
    ∙ elim (Option-cases (lookup name s.defaults)) [ inl e ↦ rw e refl | inr (v, e) ↦ rw e refl ]
