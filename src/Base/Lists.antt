-- ===== src/Base/Lists.antt =====
-- Lists measured and indexed by the native numbers, under the library's names.
use Prim.Native.Nat.{ℕ, zero, suc, ◌+◌, ◌<◌}
use mathlib.Core.Path.{◌≡◌, refl, ap}
use mathlib.Core.List.{List, [], ◌∷◌, ◌++◌}
use mathlib.Core.Option.{Option, none, some, none-ne-some, some-injective}
use native.Mathlib.Omega.{arith}

module _ {ℓ} {A : Type ℓ} where
  abbrev pub length : List A → ℕ
  length [] = 0
  length (x ∷ xs) = suc (length xs)

  abbrev pub get_elem? : List A → ℕ → Option A
  get_elem? [] i = none
  get_elem? (x ∷ xs) zero = some x
  get_elem? (x ∷ xs) (suc i) = get_elem? xs i

  abbrev pub take : ℕ → List A → List A
  take zero xs = []
  take (suc n) [] = []
  take (suc n) (x ∷ xs) = x ∷ take n xs

  abbrev pub drop : ℕ → List A → List A
  drop zero xs = xs
  drop (suc n) [] = []
  drop (suc n) (x ∷ xs) = drop n xs

  abbrev pub replicate : ℕ → A → List A
  replicate zero a = []
  replicate (suc n) a = a ∷ replicate n a

  abbrev pub last? : List A → Option A
  last? [] = none
  last? (x ∷ []) = some x
  last? (x ∷ y ∷ xs) = last? (y ∷ xs)

  abbrev pub head? : List A → Option A
  head? [] = none
  head? (x ∷ xs) = some x

  abbrev pub get_or : List A → ℕ → A → A
  get_or [] i d = d
  get_or (x ∷ xs) zero d = x
  get_or (x ∷ xs) (suc i) d = get_or xs i d

  -- `pop_back`
  abbrev pub drop_last : List A → List A
  drop_last [] = []
  drop_last (x ∷ []) = []
  drop_last (x ∷ y ∷ xs) = x ∷ drop_last (y ∷ xs)

  -- What a list holds from a place on.
  pub drop-cons :
      (k : ℕ) (xs : List A) {y : A} {ys : List A}
      → drop k xs ≡ y ∷ ys
      → (get_elem? xs k ≡ some y) × (drop (suc k) xs ≡ ys) × (k + length ys + 1 ≡ length xs)
  drop-cons zero [] e = ground arith
  drop-cons zero (x ∷ xs) e = ground arith
  drop-cons (suc k) [] e = ground arith
  drop-cons (suc k) (x ∷ xs) e = let (a, b, c) = drop-cons k xs e in (a, b, omega arith)

  pub drop-at :
      (k : ℕ) (xs : List A) {a : A} → get_elem? xs k ≡ some a → drop k xs ≡ a ∷ drop (suc k) xs
  drop-at k [] e = absurd (none-ne-some _ e)
  drop-at zero (x ∷ xs) e = ap (λ b. b ∷ xs) (some-injective _ _ e)
  drop-at (suc k) (x ∷ xs) e = drop-at k xs e

  pub drop-length : (xs : List A) → drop (length xs) xs ≡ []
  drop-length [] = refl
  drop-length (x ∷ xs) = drop-length xs

  abbrev pub IsNonEmpty : List A → Type 0
  IsNonEmpty [] = ⊥
  IsNonEmpty (x ∷ xs) = Unit

  pub IsNonEmpty-head? : (xs : List A) → IsNonEmpty xs → (a : A) × (head? xs ≡ some a)
  IsNonEmpty-head? [] n = absurd n
  IsNonEmpty-head? (x ∷ xs) _ = (x, refl)

  pub head?-IsNonEmpty : (xs : List A) {a : A} → head? xs ≡ some a → IsNonEmpty xs
  head?-IsNonEmpty [] e = absurd (none-ne-some _ e)
  head?-IsNonEmpty (x ∷ xs) e = tt

  pub IsNonEmpty-last? : (xs : List A) → IsNonEmpty xs → (a : A) × (last? xs ≡ some a)
  IsNonEmpty-last? [] n = absurd n
  IsNonEmpty-last? (x ∷ []) _ = (x, refl)
  IsNonEmpty-last? (x ∷ y ∷ xs) _ = IsNonEmpty-last? (y ∷ xs) tt

  pub IsNonEmpty-snoc : (xs : List A) (a : A) → IsNonEmpty (xs ++ (a ∷ []))
  IsNonEmpty-snoc [] a = tt
  IsNonEmpty-snoc (x ∷ xs) a = tt

  pub take-nil : (n : ℕ) → take n [] ≡ []
  take-nil zero = refl
  take-nil (suc n) = refl

  pub drop-nil : (n : ℕ) → drop n [] ≡ []
  drop-nil zero = refl
  drop-nil (suc n) = refl

  pub get_elem?_below : (xs : List A) (i : ℕ) → i < length xs → (a : A) × (get_elem? xs i ≡ some a)
  get_elem?_below [] i h = absurd (omega arith)
  get_elem?_below (x ∷ xs) zero h = (x, refl)
  get_elem?_below (x ∷ xs) (suc i) h = get_elem?_below xs i (omega arith)

  pub IsNonEmpty-drop : (i : ℕ) (xs : List A) → i < length xs → IsNonEmpty (drop i xs)
  IsNonEmpty-drop i [] h = absurd (omega arith)
  IsNonEmpty-drop zero (x ∷ xs) h = tt
  IsNonEmpty-drop (suc i) (x ∷ xs) h = IsNonEmpty-drop i xs (omega arith)

  pub drop-append : (xs ys : List A) → drop (length xs) (xs ++ ys) ≡ ys
  drop-append [] ys = refl
  drop-append (x ∷ xs) ys = drop-append xs ys

  pub take-length : (xs : List A) → take (length xs) xs ≡ xs
  take-length [] = refl
  take-length (x ∷ xs) = rw (take-length xs) refl

  -- The last element stands at the last place.
  pub get_elem?-last? :
      (xs : List A) (i : ℕ) {a : A}
      → last? xs ≡ some a
      → i + 1 ≡ length xs
      → get_elem? xs i ≡ some a
  get_elem?-last? [] i e h = absurd (none-ne-some _ e)
  get_elem?-last? (x ∷ []) zero e h = e
  get_elem?-last? (x ∷ []) (suc i) e h = absurd (omega arith)
  get_elem?-last? (x ∷ y ∷ xs) zero e h = absurd (omega arith)
  get_elem?-last? (x ∷ y ∷ xs) (suc i) e h = get_elem?-last? (y ∷ xs) i e (omega arith)

  pub length-append : (xs ys : List A) → length (xs ++ ys) ≡ length xs + length ys
  length-append [] ys = omega arith
  length-append (x ∷ xs) ys = omega (arith, length-append xs ys)

  abbrev pub All {κ} : (A → Type κ) → List A → Type κ
  All P [] = Unit
  All P (x ∷ xs) = P x × All P xs

  pub All-get_elem? {κ} :
      (P : A → Type κ) (xs : List A) (i : ℕ) {a : A} → All P xs → get_elem? xs i ≡ some a → P a
  All-get_elem? P [] i _ e = absurd (none-ne-some _ e)
  All-get_elem? P (x ∷ xs) zero (p, ps) e = rw (← some-injective _ _ e) p
  All-get_elem? P (x ∷ xs) (suc i) (p, ps) e = All-get_elem? P xs i ps e

  pub get_elem?-lt : (xs : List A) (i : ℕ) {a : A} → get_elem? xs i ≡ some a → i < length xs
  get_elem?-lt [] i e = absurd (none-ne-some _ e)
  get_elem?-lt (x ∷ xs) zero e = omega arith
  get_elem?-lt (x ∷ xs) (suc i) e = omega (arith, get_elem?-lt xs i e)

  pub All-append {κ} : (P : A → Type κ) (xs ys : List A) → All P xs → All P ys → All P (xs ++ ys)
  All-append P [] ys _ q = q
  All-append P (x ∷ xs) ys (p, ps) q = (p, All-append P xs ys ps q)

  pub get_elem?-append :
      (xs ys : List A) (i : ℕ) {a : A} → get_elem? xs i ≡ some a → get_elem? (xs ++ ys) i ≡ some a
  get_elem?-append [] ys i e = absurd (none-ne-some _ e)
  get_elem?-append (x ∷ xs) ys zero e = e
  get_elem?-append (x ∷ xs) ys (suc i) e = get_elem?-append xs ys i e

  pub last?-append : (xs : List A) (a : A) → last? (xs ++ (a ∷ [])) ≡ some a
  last?-append [] a = refl
  last?-append (x ∷ []) a = refl
  last?-append (x ∷ y ∷ xs) a = last?-append (y ∷ xs) a

module _ {ℓ κ} {A : Type ℓ} {P Q : A → Type κ} where
  pub All-map : ((a : A) → P a → Q a) → (xs : List A) → All P xs → All Q xs
  All-map f [] _ = tt
  All-map f (x ∷ xs) (p, ps) = (f x p, All-map f xs ps)
