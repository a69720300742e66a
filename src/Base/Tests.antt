-- ===== src/Base/Tests.antt =====
-- Boolean tests on the native numbers, and the conditional.
use Prim.Native.Nat.{ℕ, compare, Ordering}
use mathlib.Core.Path.{◌≡◌, refl}
use mathlib.Core.Logic.{◌↔◌, ◌⊎◌, inl, inr}
use mathlib.Core.Bool.{Bool, true, false, ◌&&◌, false≢true}
use mathlib.Core.Option.{Option, none, some}
use native.Mathlib.Omega.{arith}

abbrev pub ltb : ℕ → ℕ → Bool
ltb a b = elim (compare a b) [ Ordering.lt ↦ true | _ ↦ false ]

abbrev pub leb : ℕ → ℕ → Bool
leb a b = elim (compare a b) [ Ordering.gt ↦ false | _ ↦ true ]

infix 50 ◌==◌
abbrev pub ◌==◌ : ℕ → ℕ → Bool
a == b = elim (compare a b) [ Ordering.eq ↦ true | _ ↦ false ]

infix 1 if◌then◌else◌
abbrev pub if◌then◌else◌ {ℓ} : {A : Type ℓ} → Bool → A → A → A
if true then x else y = x
if false then x else y = y

pub ==_iff : (a b : ℕ) → ((a == b) ≡ true) ↔ (a ≡ b)
==_iff a b = ground arith

pub ==_refl : (a : ℕ) → (a == a) ≡ true
==_refl a = ground arith

pub &&_iff : (a b : Bool) → ((a && b) ≡ true) ↔ ((a ≡ true) × (b ≡ true))
&&_iff a b = ground arith

-- A split on a computed value that keeps the equation.
pub Bool-cases : (b : Bool) → (b ≡ true) ⊎ (b ≡ false)
Bool-cases true = inl refl
Bool-cases false = inr refl

pub Option-cases {ℓ} : {A : Type ℓ} (o : Option A) → (o ≡ none) ⊎ ((a : A) × (o ≡ some a))
Option-cases none = inl refl
Option-cases (some a) = inr (a, refl)

-- A chain of steps that may fail.
infixl 5 ◌>>=◌
abbrev pub ◌>>=◌ {ℓ κ} : {A : Type ℓ} {B : Type κ} → Option A → (A → Option B) → Option B
none >>= f = none
some a >>= f = f a

abbrev pub is_some {ℓ} : {A : Type ℓ} → Option A → Bool
is_some none = false
is_some (some a) = true

-- A computation returns, with a result that has the property.
abbrev pub Gives {ℓ} : {A : Type ℓ} → (A → Type 0) → Option A → Type 0
Gives P none = ⊥
Gives P (some a) = P a

-- Every result of a computation has the property, if it returns.
abbrev pub Holds {ℓ} : {A : Type ℓ} → (A → Type 0) → Option A → Type 0
Holds P none = Unit
Holds P (some a) = P a

pub Gives-some {ℓ} :
    {A : Type ℓ} (P : A → Type 0) (o : Option A) → Gives P o → (a : A) × (o ≡ some a) × P a
Gives-some P none p = absurd p
Gives-some P (some a) p = (a, refl, p)

pub Holds-Gives {ℓ} :
    {A : Type ℓ} (P : A → Type 0) (o : Option A) → Holds P o → is_some o ≡ true → Gives P o
Holds-Gives P none p e = absurd (false≢true e)
Holds-Gives P (some a) p e = p

pub Holds-bind {ℓ μ} :
    {A : Type ℓ} {B : Type μ} (P : A → Type 0) (Q : B → Type 0) (o : Option A) (f : A → Option B)
    → Holds P o
    → ((a : A) → P a → Holds Q (f a))
    → Holds Q (o >>= f)
Holds-bind P Q none f p q = tt
Holds-bind P Q (some a) f p q = q a p

pub Holds-then {ℓ μ} :
    {A : Type ℓ} {B : Type μ} (Q : B → Type 0) (o : Option A) (f : A → Option B)
    → ((a : A) → Holds Q (f a))
    → Holds Q (o >>= f)
Holds-then Q none f q = tt
Holds-then Q (some a) f q = q a

pub Holds-if {ℓ} :
    {A : Type ℓ} (Q : A → Type 0) (b : Bool) (o p : Option A)
    → Holds Q o
    → Holds Q p
    → Holds Q (if b then o else p)
Holds-if Q true o p q r = q
Holds-if Q false o p q r = r

pub Holds-map {ℓ} :
    {A : Type ℓ} (P Q : A → Type 0) (o : Option A) → ((a : A) → P a → Q a) → Holds P o → Holds Q o
Holds-map P Q none f h = tt
Holds-map P Q (some a) f h = f a h
