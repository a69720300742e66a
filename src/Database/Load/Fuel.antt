-- ===== src/Database/Load/Fuel.antt =====
-- The bytes that reads take of the stream, and the fuel of `initialize`.
use ash_coin.Base.{
  ℕ, zero, suc, ◌+◌, ◌≤◌, ◌<◌, ◌≡◌, refl, some, [], ◌∷◌, Text, length, arith, Option-cases, inl,
  inr,
}
use ash_coin.Database.Bytes.{
  Reader, ◌>>=◌, bind_parts, pure, read_nat, read_chars, read_text, read_times, read_vector,
  read_nat_from_zero, read_vector_from_zero,
}
use ash_coin.Database.Codec.{read_point, read_tx_in, read_tx_out, read_transaction, read_block}
use ash_coin.Database.Load.{read_blocks}

-- A read leaves at most, or less than, what it began with.
pub record NoGrow {A : Type 0} (m : Reader A) : Type 0 where
  pub le : (s : Text) (a : A) (r : Text) → m s ≡ some (a, r) → length r ≤ length s

pub record Shrinks {A : Type 0} (m : Reader A) : Type 0 where
  pub lt : (s : Text) (a : A) (r : Text) → m s ≡ some (a, r) → length r < length s

pure-NoGrow : {A : Type 0} (a : A) → NoGrow (pure a)
pure-NoGrow a = record { le = λ s b r e. ground arith }

bind-NoGrow :
    {A B : Type 0} {m : Reader A} {f : A → Reader B}
    → NoGrow m
    → ((a : A) → NoGrow (f a))
    → NoGrow (m >>= f)
bind-NoGrow {m} {f} h k = record {
  le = λ s b t e.
      let (a, r, p, q) = bind_parts m f s e in omega (arith, h.le s a r p, (k a).le r b t q);
}

bind-Shrinks :
    {A B : Type 0} {m : Reader A} {f : A → Reader B}
    → Shrinks m
    → ((a : A) → NoGrow (f a))
    → Shrinks (m >>= f)
bind-Shrinks {m} {f} h k = record {
  lt = λ s b t e.
      let (a, r, p, q) = bind_parts m f s e in omega (arith, h.lt s a r p, (k a).le r b t q);
}

pub read_nat-lt :
    (k : ℕ) (s : Text) (n : ℕ) (r : Text) → read_nat k s ≡ some (n, r) → length r + k ≤ length s
unfolding read_nat
read_nat-lt zero s n r e = ground arith
read_nat-lt (suc k) [] n r e = ground arith
read_nat-lt (suc k) (b ∷ s) n r e = elim (Option-cases (read_nat k s)) [
  | inl stop ↦ ground arith
  | inr ((m, t), go) ↦ ground (arith, read_nat-lt k s m t go)
]

pub read_chars-le : (n : ℕ) (s t r : Text) → read_chars n s ≡ some (t, r) → length r ≤ length s
unfolding read_chars
read_chars-le zero s t r e = ground arith
read_chars-le (suc n) [] t r e = elim (Option-cases (read_chars n [])) [
  | inl stop ↦ ground arith
  | inr ((u, v), go) ↦ ground (arith, read_chars-le n [] u v go)
]
read_chars-le (suc n) (b ∷ s) t r e = elim (Option-cases (read_chars n s)) [
  | inl stop ↦ ground arith
  | inr ((u, v), go) ↦ ground (arith, read_chars-le n s u v go)
]

pub read_nat_from_zero-le :
    (k : ℕ) (s : Text) (n : ℕ) (r : Text)
    → read_nat_from_zero k s ≡ some (n, r)
    → length r ≤ length s
unfolding read_nat_from_zero
read_nat_from_zero-le zero s n r e = ground arith
read_nat_from_zero-le (suc k) [] n r e = ground arith
read_nat_from_zero-le (suc k) (b ∷ s) n r e = elim (Option-cases (read_nat_from_zero k s)) [
  | inl stop ↦ ground arith
  | inr ((m, t), go) ↦ ground (arith, read_nat_from_zero-le k s m t go)
]

read_nat-NoGrow : (k : ℕ) → NoGrow (read_nat k)
read_nat-NoGrow k = record { le = λ s n r e. omega (arith, read_nat-lt k s n r e) }

read_text-NoGrow : NoGrow read_text
unfolding read_text
read_text-NoGrow = bind-NoGrow (read_nat-NoGrow 4) (λ n. record { le = read_chars-le n })

read_times-NoGrow : {A : Type 0} (m : Reader A) (n : ℕ) → NoGrow m → NoGrow (read_times m n)
unfolding read_times
read_times-NoGrow m zero h = pure-NoGrow []
read_times-NoGrow m (suc n) h =
    bind-NoGrow h (λ a. bind-NoGrow (read_times-NoGrow m n h) (λ as'. pure-NoGrow (a ∷ as')))

read_vector-NoGrow : {A : Type 0} (m : Reader A) → NoGrow m → NoGrow (read_vector m)
unfolding read_vector
read_vector-NoGrow m h = bind-NoGrow (read_nat-NoGrow 4) (λ n. read_times-NoGrow m n h)

read_vector_from_zero-NoGrow :
    {A : Type 0} (m : Reader A) → NoGrow m → NoGrow (read_vector_from_zero m)
unfolding read_vector_from_zero
read_vector_from_zero-NoGrow m h =
    bind-NoGrow (record { le = read_nat_from_zero-le 4 }) (λ n. read_times-NoGrow m n h)

read_tx_in-NoGrow : NoGrow read_tx_in
unfolding read_tx_in read_point
read_tx_in-NoGrow =
    bind-NoGrow
      (bind-NoGrow (read_nat-NoGrow 8) (λ b.
        bind-NoGrow (read_nat-NoGrow 8)
          (λ t. bind-NoGrow (read_nat-NoGrow 8) (λ i. pure-NoGrow _))))
      (λ p. bind-NoGrow read_text-NoGrow (λ s. pure-NoGrow _))

read_tx_out-NoGrow : NoGrow read_tx_out
unfolding read_tx_out
read_tx_out-NoGrow =
    bind-NoGrow read_text-NoGrow (λ a. bind-NoGrow (read_nat-NoGrow 8) (λ d. pure-NoGrow _))

read_transaction-NoGrow : NoGrow read_transaction
unfolding read_transaction
read_transaction-NoGrow = bind-NoGrow read_text-NoGrow (λ i.
    bind-NoGrow (read_vector-NoGrow read_tx_in read_tx_in-NoGrow) (λ ins.
      bind-NoGrow (read_vector-NoGrow read_tx_out read_tx_out-NoGrow) (λ outs. pure-NoGrow _)))

read_u64-Shrinks : Shrinks (read_nat 8)
read_u64-Shrinks = record { lt = λ s n r e. omega (arith, read_nat-lt 8 s n r e) }

pub read_block-Shrinks : Shrinks read_block
unfolding read_block
read_block-Shrinks = bind-Shrinks read_u64-Shrinks (λ i. bind-NoGrow (read_nat-NoGrow 8) (λ n.
    bind-NoGrow (read_nat-NoGrow 8) (λ d. bind-NoGrow read_text-NoGrow (λ s.
      bind-NoGrow (read_nat-NoGrow 8) (λ t. bind-NoGrow read_text-NoGrow (λ h.
        bind-NoGrow read_text-NoGrow (λ p. bind-NoGrow read_text-NoGrow (λ m.
          bind-NoGrow (read_vector_from_zero-NoGrow read_transaction read_transaction-NoGrow)
            (λ ts. pure-NoGrow _)))))))))

-- Any fuel of at least the size of the file reads the same from it, also where the file breaks off:
-- the loop of `initialize` ends by the file, and never by the fuel.
pub read_blocks_fuel :
    (fuel fuel' : ℕ) (s : Text)
    → length s ≤ fuel
    → length s ≤ fuel'
    → read_blocks fuel s ≡ read_blocks fuel' s
unfolding read_blocks
read_blocks_fuel fuel fuel' [] h h' = refl
read_blocks_fuel zero fuel' (a ∷ s) h h' = absurd (omega arith)
read_blocks_fuel (suc fuel) zero (a ∷ s) h h' = absurd (omega arith)
read_blocks_fuel (suc fuel) (suc fuel') (a ∷ s) h h' = elim (Option-cases (read_block (a ∷ s))) [
  | inl stop ↦ rw stop
  | inr ((b, r), go) ↦
      let less = read_block-Shrinks.lt (a ∷ s) b r go in
      rw (go, read_blocks_fuel fuel fuel' r (omega arith) (omega arith))
]
