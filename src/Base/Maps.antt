-- ===== src/Base/Maps.antt =====
-- A `std::map` and a json object, as the list of their keys and values.
use mathlib.Core.Path.{◌≡◌, refl, sym, ◌∙◌}
use mathlib.Core.Logic.{inl, inr}
use mathlib.Core.Bool.{false≢true}
use mathlib.Core.List.{List, [], ◌∷◌}
use mathlib.Core.Option.{Option, none, some, none-ne-some, some-injective}
use ash_coin.Base.Tests.{if◌then◌else◌, Bool-cases}
use ash_coin.Base.Bytes.{Text, text_eq, text_eq_iff, text_eq_refl}
use ash_coin.Base.Lists.{All}

unfoldable pub lookup {ℓ} : {A : Type ℓ} → Text → List (Text × A) → Option A
lookup k [] = none
lookup k ((k', v) ∷ m) = if text_eq k' k then some v else lookup k m

unfoldable pub assign {ℓ} : {A : Type ℓ} → Text → A → List (Text × A) → List (Text × A)
assign k v [] = (k, v) ∷ []
assign k v ((k', w) ∷ m) = if text_eq k' k then (k', v) ∷ m else (k', w) ∷ assign k v m

module _ {ℓ} {A : Type ℓ} where
  -- What a map holds after an assignment.
  pub lookup-assign :
      (k k' : Text) (v : A) (m : List (Text × A))
      → lookup k (assign k' v m) ≡ (if text_eq k' k then some v else lookup k m)
  unfolding lookup assign
  lookup-assign k k' v [] = refl
  lookup-assign k k' v ((k'', w) ∷ m) = elim (Bool-cases (text_eq k'' k')) [
    | inl e ↦
        let same : k'' ≡ k' = (text_eq_iff k'' k').0 e in
        rw (e, same) (elim (Bool-cases (text_eq k' k)) [ inl f ↦ rw f refl | inr f ↦ rw f refl ])
    | inr e ↦
        rw (e, lookup-assign k k' v m)
          (elim (Bool-cases (text_eq k'' k)) [
            | inl f ↦ elim (Bool-cases (text_eq k' k)) [
              | inl g ↦ absurd (
                  false≢true (
                    sym e
                    ∙ (text_eq_iff k'' k').1
                        ((text_eq_iff k'' k).0 f ∙ sym ((text_eq_iff k' k).0 g))))
              | inr g ↦ rw (f, g) refl
            ]
            | inr f ↦ rw f refl
          ])
  ]

  pub lookup-assign_same :
      (k : Text) (v : A) (m : List (Text × A)) → lookup k (assign k v m) ≡ some v
  lookup-assign_same k v m = rw (lookup-assign k k v m, text_eq_refl k) refl

module _ {ℓ} {A : Type ℓ} (P : A → Type 0) where
  -- What holds of every value still holds after an assignment of a value that it holds of.
  pub All-assign :
      (k : Text) (v : A) (m : List (Text × A))
      → P v
      → All (λ (kv : Text × A). P kv.1) m
      → All (λ (kv : Text × A). P kv.1) (assign k v m)
  unfolding assign
  All-assign k v [] p _ = (p, tt)
  All-assign k v ((k', w) ∷ m) p (q, qs) = elim (Bool-cases (text_eq k' k)) [
    | inl e ↦ rw e (p, qs)
    | inr e ↦ rw e (q, All-assign k v m p qs)
  ]

  pub All-lookup :
      (k : Text) (m : List (Text × A)) {v : A}
      → All (λ (kv : Text × A). P kv.1) m
      → lookup k m ≡ some v
      → P v
  unfolding lookup
  All-lookup k [] _ e = absurd (none-ne-some _ e)
  All-lookup k ((k', w) ∷ m) (q, qs) e = elim (Bool-cases (text_eq k' k)) [
    | inl f ↦ rw (some-injective _ _ (rw f at e)) at q
    | inr f ↦ All-lookup k m qs (rw f at e)
  ]
