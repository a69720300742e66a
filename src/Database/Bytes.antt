-- ===== src/Database/Bytes.antt =====
-- The templates `write_data` and `read_data` of src/ChainDatabase.h, on a machine that stores the low
-- byte first. A number that meets the end of the stream stays indeterminate, which is `none`, unless it
-- has a value before; a text is as long as its size says, with zeros in place of what is missing.
use ash_coin.Base.{
  ℕ, zero, suc, ◌+◌, ◌*◌, ◌/◌, ◌%◌, ◌^◌, ◌<◌, ◌≡◌, refl, Option, none, some, List, [], ◌∷◌, ◌++◌,
  Text, length, take, take-length, arith, append_assoc, All, ap, map, Option-cases, inl, inr,
}
use native.Mathlib.Nat.{pow-suc}

-- A read takes its bytes off the front of the stream.
abbrev pub Reader : Type 0 → Type 0
Reader A = Text → Option (A × Text)

infixl 5 ◌>>=◌
abbrev pub ◌>>=◌ : {A B : Type 0} → Reader A → (A → Reader B) → Reader B
◌>>=◌ m f s = elim (m s) [ none ↦ none | some (a, rest) ↦ f a rest ]

abbrev pub pure : {A : Type 0} → A → Reader A
pure a s = some (a, s)

-- What a read that is followed by another one gave.
pub bind_parts :
    {A B : Type 0} (m : Reader A) (f : A → Reader B) (s : Text) {b : B} {t : Text}
    → (m >>= f) s ≡ some (b, t)
    → (a : A) × (r : Text) × (m s ≡ some (a, r)) × (f a r ≡ some (b, t))
bind_parts m f s e = elim (Option-cases (m s)) [
  | inl stop ↦ ground arith
  | inr ((a, r), go) ↦ (a, r, go, rw (go, ◌>>=◌) at e)
]

-- The low `k` bytes of a number.
unfoldable pub write_nat : ℕ → ℕ → Text
write_nat zero n = []
write_nat (suc k) n = (n % 256) ∷ write_nat k (n / 256)

unfoldable pub read_nat : ℕ → Reader ℕ
read_nat zero s = some (0, s)
read_nat (suc k) [] = none
read_nat (suc k) (b ∷ s) = elim (read_nat k s) [ none ↦ none | some (n, r) ↦ some (b + 256 * n, r) ]

abbrev pub write_u64 : ℕ → Text
write_u64 n = write_nat 8 n

abbrev pub read_u64 : Reader ℕ
read_u64 = read_nat 8

abbrev pub write_u32 : ℕ → Text
write_u32 n = write_nat 4 n

abbrev pub read_u32 : Reader ℕ
read_u32 = read_nat 4

-- A text is its size as a 32-bit number, and as many bytes.
unfoldable pub write_text : Text → Text
write_text s = let n = length s % 2 ^ 32 in write_u32 n ++ take n s

-- The bytes of a text that is resized first: where the stream ends, the rest of it stays zero.
unfoldable pub read_chars : ℕ → Reader Text
read_chars zero s = some ([], s)
read_chars (suc n) [] = elim (read_chars n []) [ none ↦ none | some (t, r) ↦ some (0 ∷ t, r) ]
read_chars (suc n) (b ∷ s) = elim (read_chars n s) [ none ↦ none | some (t, r) ↦ some (b ∷ t, r) ]

unfoldable pub read_text : Reader Text
unfolding read_chars
read_text = do n ← read_u32; read_chars n

-- A number that is 0 before: the bytes that are missing stay zero.
unfoldable pub read_nat_from_zero : ℕ → Reader ℕ
read_nat_from_zero zero s = some (0, s)
read_nat_from_zero (suc k) [] = some (0, [])
read_nat_from_zero (suc k) (b ∷ s) = elim (read_nat_from_zero k s) [
  | none ↦ none
  | some (n, r) ↦ some (b + 256 * n, r)
]

-- The loops over a vector: its size as a 32-bit number is written before them.
unfoldable pub write_all : {A : Type 0} → (A → Text) → List A → Text
write_all w [] = []
write_all w (a ∷ as') = w a ++ write_all w as'

unfoldable pub write_vector : {A : Type 0} → (A → Text) → List A → Text
unfolding write_all
write_vector w as' = write_u32 (length as' % 2 ^ 32) ++ write_all w as'

unfoldable pub read_times : {A : Type 0} → Reader A → ℕ → Reader (List A)
read_times r zero = pure []
read_times r (suc n) = do a ← r; as' ← read_times r n; pure (a ∷ as')

unfoldable pub read_vector : {A : Type 0} → Reader A → Reader (List A)
unfolding read_times
read_vector r = do n ← read_u32; read_times r n

-- The same with a size that is 0 before.
unfoldable pub read_vector_from_zero : {A : Type 0} → Reader A → Reader (List A)
unfolding read_times
read_vector_from_zero r = do n ← read_nat_from_zero 4; read_times r n

pub read_nat-write_nat :
    (k n : ℕ) (rest : Text) → n < 256 ^ k → read_nat k (write_nat k n ++ rest) ≡ some (n, rest)
unfolding read_nat write_nat
read_nat-write_nat zero n rest h = ap (λ (m : ℕ). some (m, rest)) (omega arith)
read_nat-write_nat (suc k) n rest h =
    rw (read_nat-write_nat k (n / 256) rest (omega (arith, pow-suc 256 k)))
      (ap (λ (m : ℕ). some (m, rest)) (omega arith))

read_nat_from_zero-write_nat :
    (k n : ℕ) (rest : Text)
    → n < 256 ^ k
    → read_nat_from_zero k (write_nat k n ++ rest) ≡ some (n, rest)
unfolding read_nat_from_zero write_nat
read_nat_from_zero-write_nat zero n rest h = ap (λ (m : ℕ). some (m, rest)) (omega arith)
read_nat_from_zero-write_nat (suc k) n rest h =
    rw (read_nat_from_zero-write_nat k (n / 256) rest (omega (arith, pow-suc 256 k)))
      (ap (λ (m : ℕ). some (m, rest)) (omega arith))

read_chars-append : (s rest : Text) → read_chars (length s) (s ++ rest) ≡ some (s, rest)
unfolding read_chars
read_chars-append [] rest = refl
read_chars-append (b ∷ s) rest = rw (read_chars-append s rest)

pub read_text-write_text :
    (s rest : Text) → length s < 2 ^ 32 → read_text (write_text s ++ rest) ≡ some (s, rest)
unfolding read_text write_text
read_text-write_text s rest h =
    let n : length s % 2 ^ 32 ≡ length s = omega arith in
    rw (
      n,
      take-length s,
      append_assoc,
      read_nat-write_nat 4 (length s) (s ++ rest) h,
      read_chars-append s rest,
      ◌>>=◌,
    )

-- What one read gives back of what one write wrote.
module _ {A : Type 0} (w : A → Text) (r : Reader A) (P : A → Type 0) (stored : A → A) where
  read_times-write_all :
      ((a : A) (rest : Text) → P a → r (w a ++ rest) ≡ some (stored a, rest))
      → (as' : List A) (rest : Text) → All P as'
      → read_times r (length as') (write_all w as' ++ rest) ≡ some (map stored as', rest)
  unfolding read_times write_all
  read_times-write_all h [] rest _ = refl
  read_times-write_all h (a ∷ as') rest (p, ps) =
      rw (append_assoc, h a (write_all w as' ++ rest) p, ◌>>=◌, read_times-write_all h as' rest ps)

  pub read_vector-write_vector :
      ((a : A) (rest : Text) → P a → r (w a ++ rest) ≡ some (stored a, rest))
      → (as' : List A) (rest : Text) → All P as'
      → length as' < 2 ^ 32
      → read_vector r (write_vector w as' ++ rest) ≡ some (map stored as', rest)
  unfolding read_vector write_vector
  read_vector-write_vector h as' rest ps l =
      let n : length as' % 2 ^ 32 ≡ length as' = omega arith in
      rw (
        n,
        append_assoc,
        read_nat-write_nat 4 (length as') (write_all w as' ++ rest) l,
        ◌>>=◌,
        read_times-write_all h as' rest ps,
      )

  pub read_vector_from_zero-write_vector :
      ((a : A) (rest : Text) → P a → r (w a ++ rest) ≡ some (stored a, rest))
      → (as' : List A) (rest : Text) → All P as'
      → length as' < 2 ^ 32
      → read_vector_from_zero r (write_vector w as' ++ rest) ≡ some (map stored as', rest)
  unfolding read_vector_from_zero write_vector
  read_vector_from_zero-write_vector h as' rest ps l =
      let n : length as' % 2 ^ 32 ≡ length as' = omega arith in
      rw (
        n,
        append_assoc,
        read_nat_from_zero-write_nat 4 (length as') (write_all w as' ++ rest) l,
        ◌>>=◌,
        read_times-write_all h as' rest ps,
      )
