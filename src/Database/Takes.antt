-- ===== src/Database/Takes.antt =====
-- What the readers of src/ChainDatabase.cpp take off a stream of bytes: what is written of the value
-- that they return, of which zeros may be missing where the stream ends.
pub mod Blocks
use ash_coin.Base.{
  ℕ, zero, suc, ◌+◌, ◌*◌, ◌/◌, ◌%◌, ◌^◌, ◌<◌, ◌≤◌, ◌≡◌, ◌⊎◌, replicate, refl, sym, ap, ◌∙◌, some,
  List, [], ◌∷◌, ◌++◌, Text, length, take, take-length, arith, append_assoc, append-nil, All,
  Option-cases, Bool, true, ◌&&◌, ltb, &&_iff, inl, inr,
}
use mathlib.Core.Path.{subst}
use mathlib.Core.Option.{none-ne-some, some-injective}
use native.Mathlib.Nat.{pow-suc, le_refl, one-le-pow}
use ash_coin.Database.Load.Fuel.{read_nat-lt, read_chars-le, read_nat_from_zero-le}
use ash_coin.Database.Bytes.{
  Reader, ◌>>=◌, bind_parts, pure, write_nat, read_nat, write_u32, read_u32, write_text, read_chars,
  read_text, read_nat_from_zero, read_vector_from_zero, write_all, write_vector, read_times,
  read_vector,
}

abbrev pub IsByte : ℕ → Type 0
IsByte n = n < 256

unfoldable pub all_bytes : Text → Bool
all_bytes [] = true
all_bytes (c ∷ s) = ltb c 256 && all_bytes s

-- The test of a text for bytes.
pub all_bytes-IsByte : (s : Text) → all_bytes s ≡ true → All IsByte s
unfolding all_bytes
all_bytes-IsByte [] e = tt
all_bytes-IsByte (c ∷ s) e =
    let (byte, bytes) = (&&_iff (ltb c 256) (all_bytes s)).0 e in
    (ground arith, all_bytes-IsByte s bytes)

-- The bytes `s` are `v` and what is left of them, or are cut short by zeros where nothing is left.
abbrev pub Covers : Text → Text → Text → Type 0
Covers s v r = (k : ℕ) × (s ++ replicate k 0 ≡ v ++ r) × ((k ≡ 0) ⊎ (r ≡ []))

-- Behind the bytes `p`, a read takes the bytes up to those that `w` writes of its value, which has
-- the property `Q`.
pub record Takes {A : Type 0} (p : Text) (m : Reader A) (w : A → Text) (Q : A → Type 0)
    : Type 0 where
  pub taken :
      (s : Text) (a : A) (r : Text)
      → All IsByte s
      → m s ≡ some (a, r)
      → Covers (p ++ s) (w a) r × Q a × All IsByte r × (length r ≤ length s)

-- What holds of one result holds of the same one.
of_result : {A : Type 0} (P : A × Text → Type 0) {a b : A × Text} → some a ≡ some b → P a → P b
of_result P e v = subst P (some-injective _ _ e) v

whole : (s v r : Text) → s ≡ v ++ r → Covers s v r
whole s v r e = (0, append-nil s ∙ e, inl refl)

replicate-add : (j k : ℕ) → replicate {A = ℕ} (j + k) 0 ≡ replicate j 0 ++ replicate k 0
replicate-add zero k = ap (λ (n : ℕ). replicate n 0) (omega arith)
replicate-add (suc j) k =
    let moved : suc j + k ≡ suc (j + k) = omega arith in
    ap (λ (n : ℕ). replicate {A = ℕ} n 0) moved ∙ ap (◌∷◌ 0) (replicate-add j k)

empty-le : (r : Text) → length r ≤ 0 → r ≡ []
empty-le [] h = refl
empty-le (c ∷ r) h = absurd (omega arith)

pub pure-Takes :
    {A : Type 0} {p : Text} {a : A} {w : A → Text} {Q : A → Type 0}
    → p ≡ w a
    → Q a
    → Takes p (pure a) w Q
pure-Takes {p} {a} {w} {Q} e q = record {
  taken = λ s b r bytes h.
      of_result
        (λ (b', r'). Covers (p ++ s) (w b') r' × Q b' × All IsByte r' × (length r' ≤ length s)) h
        (whole (p ++ s) (w a) s (ap (λ (v : Text). v ++ s) e), q, bytes, le_refl _);
}

-- Two covers, one behind the other.
pub Covers-then :
    (p s u r v t : Text)
    → Covers s u r
    → Covers ((p ++ u) ++ r) v t
    → length t ≤ length r
    → Covers (p ++ s) v t
Covers-then p s u r v t (j, e, d) (k, e', d') less = (
  j + k,
  ap (λ (z : Text). (p ++ s) ++ z) (replicate-add j k) ∙ moved ∙ e',
  elim d [
    | inl none_missing ↦ elim d' [ inl n ↦ inl (omega arith) | inr n ↦ inr n ]
    | inr end ↦ inr (empty-le t (rw end at less))
  ],
)
  where
    moved : (p ++ s) ++ (replicate j 0 ++ replicate k 0) ≡ ((p ++ u) ++ r) ++ replicate k 0
    moved =
        append_assoc p s _
        ∙ ap (λ (z : Text). p ++ z)
            (sym (append_assoc s (replicate j 0) (replicate k 0))
              ∙ ap (λ (z : Text). z ++ replicate k 0) e)
        ∙ simp append_assoc

pub bind-Takes :
    {A B : Type 0} {p : Text} {m : Reader A} {f : A → Reader B} {u : A → Text} {w : B → Text}
    {R : A → Type 0} {Q : B → Type 0}
    → Takes [] m u R
    → ((a : A) → R a → Takes (p ++ u a) (f a) w Q)
    → Takes p (m >>= f) w Q
bind-Takes {p} {m} {f} {u} {w} h k = record {
  taken = λ s b t bytes e.
      let (a, r, go, rest) = bind_parts m f s e in
      let (took, q, left, le) = h.taken s a r bytes go in
      let (all, q', left', le') = (k a q).taken r b t left rest in
      (Covers-then p s (u a) r (w b) t took all le', q', left', omega arith);
}

read_nat-taken :
    (k : ℕ) (s : Text) (n : ℕ) (r : Text)
    → All IsByte s
    → read_nat k s ≡ some (n, r)
    → (s ≡ write_nat k n ++ r) × (n < 256 ^ k) × All IsByte r
unfolding read_nat write_nat
read_nat-taken zero s n r bytes e =
    of_result (λ (n', r'). (s ≡ write_nat 0 n' ++ r') × (n' < 256 ^ 0) × All IsByte r') e
      (refl, omega arith, bytes)
read_nat-taken (suc k) [] n r bytes e = absurd (none-ne-some _ e)
read_nat-taken (suc k) (b ∷ s) n r (byte, bytes) e = elim (Option-cases (read_nat k s)) [
  | inl stop ↦ ground arith
  | inr ((m, t), go) ↦
      let (took, small, left) = read_nat-taken k s m t bytes go in
      let low : (b + 256 * m) % 256 ≡ b = omega (arith, byte) in
      let high : (b + 256 * m) / 256 ≡ m = omega (arith, byte) in
      of_result
        (λ (n', r'). (b ∷ s ≡ write_nat (suc k) n' ++ r') × (n' < 256 ^ suc k) × All IsByte r')
        (rw go at e) (rw (low, high, ← took) refl, omega (arith, small, byte, pow-suc 256 k), left)
]

read_nat-Takes : (k : ℕ) → Takes [] (read_nat k) (write_nat k) (λ n. n < 256 ^ k)
read_nat-Takes k = record {
  taken = λ s n r bytes e.
      let (took, small, left) = read_nat-taken k s n r bytes e in
      (whole s (write_nat k n) r took, small, left, omega (arith, read_nat-lt k s n r e));
}

write_nat-0 : (k : ℕ) → write_nat k 0 ≡ replicate k 0
unfolding write_nat
write_nat-0 zero = refl
write_nat-0 (suc k) = ap (◌∷◌ 0) (write_nat-0 k)

read_nat_from_zero-taken :
    (k : ℕ) (s : Text) (n : ℕ) (r : Text)
    → All IsByte s
    → read_nat_from_zero k s ≡ some (n, r)
    → Covers s (write_nat k n) r × (n < 256 ^ k) × All IsByte r
unfolding read_nat_from_zero write_nat
read_nat_from_zero-taken zero s n r bytes e =
    of_result (λ (n', r'). Covers s (write_nat 0 n') r' × (n' < 256 ^ 0) × All IsByte r') e
      (whole s [] s refl, omega arith, bytes)
read_nat_from_zero-taken (suc k) [] n r bytes e =
    of_result (λ (n', r'). Covers [] (write_nat (suc k) n') r' × (n' < 256 ^ suc k) × All IsByte r')
      e
      (
        (suc k, sym (append-nil _ ∙ write_nat-0 (suc k)), inr refl),
        one-le-pow (suc k) 256 (omega arith),
        tt,
      )
read_nat_from_zero-taken (suc k) (b ∷ s) n r (byte, bytes) e =
    elim (Option-cases (read_nat_from_zero k s)) [
      | inl stop ↦ ground arith
      | inr ((m, t), go) ↦
          let ((j, took, d), small, left) = read_nat_from_zero-taken k s m t bytes go in
          let low : (b + 256 * m) % 256 ≡ b = omega (arith, byte) in
          let high : (b + 256 * m) / 256 ≡ m = omega (arith, byte) in
          of_result
            (λ (n', r').
              Covers (b ∷ s) (write_nat (suc k) n') r' × (n' < 256 ^ suc k) × All IsByte r')
            (rw go at e)
            ((j, rw (low, high, ← took) refl, d), omega (arith, small, byte, pow-suc 256 k), left)
    ]

read_chars-taken :
    (n : ℕ) (s t r : Text)
    → All IsByte s
    → read_chars n s ≡ some (t, r)
    → Covers s t r × (length t ≡ n) × All IsByte r
unfolding read_chars
read_chars-taken zero s t r bytes e =
    of_result (λ (t', r'). Covers s t' r' × (length t' ≡ 0) × All IsByte r') e
      (whole s [] s refl, refl, bytes)
read_chars-taken (suc n) [] t r bytes e = elim (Option-cases (read_chars n [])) [
  | inl stop ↦ ground arith
  | inr ((u, v), go) ↦
      let ((j, took, d), size, left) = read_chars-taken n [] u v tt go in
      of_result (λ (t', r'). Covers [] t' r' × (length t' ≡ suc n) × All IsByte r') (rw go at e)
        ((suc j, ap (◌∷◌ 0) took, inr (empty-le v (read_chars-le n [] u v go))), ap suc size, left)
]
read_chars-taken (suc n) (b ∷ s) t r (byte, bytes) e = elim (Option-cases (read_chars n s)) [
  | inl stop ↦ ground arith
  | inr ((u, v), go) ↦
      let ((j, took, d), size, left) = read_chars-taken n s u v bytes go in
      of_result (λ (t', r'). Covers (b ∷ s) t' r' × (length t' ≡ suc n) × All IsByte r')
        (rw go at e) ((j, ap (◌∷◌ b) took, d), ap suc size, left)
]

read_nat_from_zero-Takes :
    (k : ℕ) → Takes [] (read_nat_from_zero k) (write_nat k) (λ n. n < 256 ^ k)
read_nat_from_zero-Takes k = record {
  taken = λ s n r bytes e.
      let (took, small, left) = read_nat_from_zero-taken k s n r bytes e in
      (took, small, left, read_nat_from_zero-le k s n r e);
}

read_chars-Takes : (n : ℕ) → Takes [] (read_chars n) (λ t. t) (λ t. length t ≡ n)
read_chars-Takes n = record {
  taken = λ s t r bytes e.
      let (took, size, left) = read_chars-taken n s t r bytes e in
      (took, size, left, read_chars-le n s t r e);
}

-- A read that is seen as one of something longer.
pub within-Takes :
    {A : Type 0} {p : Text} {m : Reader A} {u w : A → Text} {R Q : A → Type 0}
    → Takes [] m u R
    → ((a : A) → R a → (p ++ u a ≡ w a) × Q a)
    → Takes p m w Q
within-Takes {p} {u} {w} h k = record {
  taken = λ s a r bytes e.
      let (took, q, left, le) = h.taken s a r bytes e in
      let (same, q') = k a q in
      (
        Covers-then p s (u a) r (w a) r took
            (whole ((p ++ u a) ++ r) (w a) r (ap (λ (v : Text). v ++ r) same)) (le_refl _),
        q',
        left,
        le,
      );
}

pub read_text-Takes : Takes [] read_text write_text (λ s. length s < 2 ^ 32)
unfolding read_text write_text
read_text-Takes = bind-Takes (read_nat-Takes 4) (λ n small.
    within-Takes (read_chars-Takes n) (λ t size.
      let short : length t % 2 ^ 32 ≡ n = omega (arith, size, small) in
      (rw (short, ← size, take-length t) refl, omega (arith, size, small))))

module _ {A : Type 0} {m : Reader A} {w : A → Text} {Q : A → Type 0} (h : Takes [] m w Q) where
  read_times-Takes :
      (n : ℕ) → Takes [] (read_times m n) (write_all w) (λ as'. (length as' ≡ n) × All Q as')
  unfolding read_times write_all
  read_times-Takes zero = pure-Takes refl (refl, tt)
  read_times-Takes (suc n) = bind-Takes h (λ a q.
      bind-Takes (read_times-Takes n) (λ as' (size, qs). pure-Takes refl (ap suc size, (q, qs))))

  pub read_vector-Takes :
      Takes [] (read_vector m) (write_vector w) (λ as'. (length as' < 2 ^ 32) × All Q as')
  unfolding read_vector write_vector
  read_vector-Takes = bind-Takes (read_nat-Takes 4) (λ n small.
      within-Takes (read_times-Takes n) (λ as' (size, qs).
        let short : length as' % 2 ^ 32 ≡ n = omega (arith, size, small) in
        (rw short refl, (omega (arith, size, small), qs))))

  pub read_vector_from_zero-Takes :
      Takes [] (read_vector_from_zero m) (write_vector w) (λ as'. (length as' < 2 ^ 32) × All Q as')
  unfolding read_vector_from_zero write_vector
  read_vector_from_zero-Takes = bind-Takes (read_nat_from_zero-Takes 4) (λ n small.
      within-Takes (read_times-Takes n) (λ as' (size, qs).
        let short : length as' % 2 ^ 32 ≡ n = omega (arith, size, small) in
        (rw short refl, (omega (arith, size, small), qs))))
