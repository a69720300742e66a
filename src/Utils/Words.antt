-- ===== src/Utils/Words.antt =====
-- The words of a dictionary of src/AshUtils.cpp, and the numbers among its texts.
use ash_coin.Base.{
  ◌≡◌, refl, sym, ◌∙◌, Bool, true, false, Option, some, [], ◌∷◌, Text, text_eq, text_eq_iff, lookup,
  if◌then◌else◌, inl, inr, Bool-cases, All, All-map, arith,
}
use mathlib.Core.Bool.{false≢true}
use ash_coin.Utils.{Dictionary, text_lt, put_word}

text_lt_trans : (s t u : Text) → text_lt s t ≡ true → text_lt t u ≡ true → text_lt s u ≡ true
unfolding text_lt
text_lt_trans [] [] u e f = ground arith
text_lt_trans [] (d ∷ t) [] e f = ground arith
text_lt_trans [] (d ∷ t) (a ∷ u) e f = refl
text_lt_trans (c ∷ s) [] u e f = ground arith
text_lt_trans (c ∷ s) (d ∷ t) [] e f = ground arith
text_lt_trans (c ∷ s) (d ∷ t) (a ∷ u) e f = ground (arith, text_lt_trans s t u)

-- Of two different texts, one comes first.
text_lt_total : (s t : Text) → text_eq s t ≡ false → text_lt s t ≡ false → text_lt t s ≡ true
unfolding text_lt
text_lt_total [] [] e f = ground arith
text_lt_total [] (d ∷ t) e f = ground arith
text_lt_total (c ∷ s) [] e f = refl
text_lt_total (c ∷ s) (d ∷ t) e f = ground (arith, text_lt_total s t)

-- The words stand in their order, each once.
abbrev pub IsOrdered : Dictionary → Type 0
IsOrdered [] = Unit
IsOrdered ((k, v) ∷ d) = All (λ (kv : Text × Text). text_lt k kv.0 ≡ true) d × IsOrdered d

put_word-All :
    (j k v : Text) (d : Dictionary)
    → text_lt j k ≡ true
    → All (λ (kv : Text × Text). text_lt j kv.0 ≡ true) d
    → All (λ (kv : Text × Text). text_lt j kv.0 ≡ true) (put_word k v d)
unfolding put_word
put_word-All j k v [] e _ = (e, tt)
put_word-All j k v ((k', w) ∷ d) e (h, hs) = elim (Bool-cases (text_eq k k')) [
  | inl same ↦ rw same (e, hs)
  | inr other ↦ elim (Bool-cases (text_lt k k')) [
    | inl before ↦ rw (other, before) (e, (h, hs))
    | inr behind ↦ rw (other, behind) (h, put_word-All j k v d e hs)
  ]
]

agree :
    (b : Bool) (v w : Text) (o : Option Text)
    → (if b then some v else o) ≡ (if b then some v else (if b then some w else o))
agree true v w o = refl
agree false v w o = refl

-- What stands at two different words does not depend on their order.
swapped :
    (j k k' v w : Text) (o : Option Text)
    → text_eq k k' ≡ false
    → (if text_eq k' j then some w else (if text_eq k j then some v else o))
      ≡ (if text_eq k j then some v else (if text_eq k' j then some w else o))
swapped j k k' v w o other = elim (Bool-cases (text_eq k j)) [
  | inr e ↦ rw e refl
  | inl e ↦
      let at_j : k ≡ j = (text_eq_iff k j).0 e in
      let not_there : text_eq k' j ≡ false = elim (Bool-cases (text_eq k' j)) [
        | inr f ↦ f
        | inl f ↦
            absurd
              (false≢true (sym other ∙ (text_eq_iff k k').1 (at_j ∙ sym ((text_eq_iff k' j).0 f))))
      ] in
      rw (e, not_there) refl
]

-- An assignment keeps the words of a dictionary in their order, each once, and the dictionary then has
-- the new value at the word, and what it had at every other.
pub put_word-IsOrdered :
    (j k v : Text) (d : Dictionary)
    → IsOrdered d
    → IsOrdered (put_word k v d)
      × (lookup j (put_word k v d) ≡ (if text_eq k j then some v else lookup j d))
unfolding put_word lookup
put_word-IsOrdered j k v [] _ = ((tt, tt), refl)
put_word-IsOrdered j k v ((k', w) ∷ d) (h, hs) = elim (Bool-cases (text_eq k k')) [
  | inl same ↦
      let e : k ≡ k' = (text_eq_iff k k').0 same in
      rw same ((rw e h, hs), rw e (agree (text_eq k' j) v w (lookup j d)))
  | inr other ↦ elim (Bool-cases (text_lt k k')) [
    | inl before ↦
        rw (other, before)
          (((before, All-map (λ kv l. text_lt_trans k k' kv.0 before l) d h), (h, hs)), refl)
    | inr behind ↦
        let (o, l) = put_word-IsOrdered j k v d hs in
        rw (other, behind)
          (
            (put_word-All k' k v d (text_lt_total k k' other behind) h, o),
            rw l (swapped j k k' v w (lookup j d) other),
          )
  ]
]
