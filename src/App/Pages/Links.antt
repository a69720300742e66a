-- ===== src/App/Pages/Links.antt =====
-- The links on the pages of blocks of src/MinerApp.cpp.
use ash_coin.Base.{
  ℕ, ◌+◌, ◌-◌, ◌%◌, ◌^◌, ◌<◌, ◌≡◌, refl, sym, ◌∙◌, arith, ◌==◌, false, inl, inr, Bool-cases,
}
use native.Mathlib.Nat.{mod_self, mod-eq_of_lt}
use ash_coin.App.Pages.{prev_id, next_id}

prev_first : (n i : ℕ) → i ≡ 0 → prev_id n i ≡ n - 1
unfolding prev_id
prev_first n i h = ground arith

positive : (i : ℕ) → (i == 0) ≡ false → 0 < i
positive i e = ground arith

next_below : (n i : ℕ) → i + 1 < n → n < 2 ^ 64 → next_id n i ≡ i + 1
unfolding next_id
next_below n i h w =
    let same : (i + 1) % 2 ^ 64 ≡ i + 1 = omega arith in rw (same, mod-eq_of_lt h) refl

next_at_end : (n i : ℕ) → i + 1 ≡ n → n < 2 ^ 64 → next_id n i ≡ 0
unfolding next_id
next_at_end n i h w = let same : (i + 1) % 2 ^ 64 ≡ n = omega arith in rw (same, mod_self n) refl

prev_above : (n i : ℕ) → 0 < i → prev_id n i ≡ i - 1
unfolding prev_id
prev_above n i h = ground arith

prev_lt : (n i : ℕ) → i < n → prev_id n i < n
unfolding prev_id
prev_lt n i h = ground arith

next-prev : (n i : ℕ) → i < n → n < 2 ^ 64 → next_id n (prev_id n i) ≡ i
next-prev n i h w = elim (Bool-cases (i == 0)) [
  | inl e ↦
      let first : i ≡ 0 = ground arith in
      let last : prev_id n i ≡ n - 1 = prev_first n i first in
      rw last (next_at_end n (n - 1) (omega arith) w ∙ sym first)
  | inr e ↦
      rw (prev_above n i (ground arith))
        (next_below n (i - 1) (ground arith) w ∙ omega (arith, positive i e))
]

-- On a chain of less than 2 ^ 64 blocks the pages of the blocks link to blocks of the chain, and they
-- form a circle: the link forward and then the link back lead to the same block, and so do the link
-- back and then the link forward.
pub prev_id-next_id :
    (n i : ℕ)
    → i < n
    → n < 2 ^ 64
    → (next_id n i < n)
      × (prev_id n i < n)
      × (prev_id n (next_id n i) ≡ i)
      × (next_id n (prev_id n i) ≡ i)
prev_id-next_id n i h w = elim (Bool-cases (i + 1 == n)) [
  | inl e ↦
      let at_end = next_at_end n i (ground arith) w in
      (
        rw at_end (omega arith),
        prev_lt n i h,
        rw (at_end, prev_first n 0 refl) (ground arith),
        next-prev n i h w,
      )
  | inr e ↦
      let next = next_below n i (ground arith) w in
      let back : i + 1 - 1 ≡ i = omega arith in
      (
        rw next (ground arith),
        prev_lt n i h,
        rw (next, prev_above n (i + 1) (omega arith)) back,
        next-prev n i h w,
      )
]
