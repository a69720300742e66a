-- ===== src/Block/Collide.antt =====
-- What the text that is hashed does not tell apart.
use ash_coin.Base.{
  ℕ, zero, suc, ◌+◌, ◌*◌, ◌/◌, ◌%◌, ◌^◌, ◌<◌, ◌≡◌, [], ◌∷◌, ◌++◌, Text, ltb, false, arith, decimal,
  decimal_from, ℤ, append_assoc,
}
use native.Mathlib.Nat.{pow-suc}
use ash_coin.External.{External}
use ash_coin.Block.{hash_of}

-- More fuel than digits changes nothing.
decimal_from-suc :
    (fuel n : ℕ) → n < 10 ^ suc fuel → decimal_from (suc fuel) n ≡ decimal_from fuel n
unfolding decimal_from
decimal_from-suc zero n h = ground arith
decimal_from-suc (suc fuel) n h =
    ground (arith, decimal_from-suc fuel (n / 10), pow-suc 10 fuel, pow-suc 10 (suc fuel))

decimal_from-digit :
    (fuel i d : ℕ)
    → 0 < i
    → d < 10
    → decimal_from (suc fuel) (10 * i + d) ≡ decimal_from fuel i ++ ((48 + d) ∷ [])
unfolding decimal_from
decimal_from-digit fuel i d hi hd =
    let q : (10 * i + d) / 10 ≡ i = omega arith in
    let r : (10 * i + d) % 10 ≡ d = omega arith in
    let t : ltb (10 * i + d) 10 ≡ false = ground arith in rw (t, q, r)

-- A digit behind a number of at most twenty digits.
decimal-digit :
    (i d : ℕ) → 0 < i → i < 10 ^ 20 → d < 10 → decimal (10 * i + d) ≡ decimal i ++ ((48 + d) ∷ [])
unfolding decimal
decimal-digit i d hi h hd = rw (decimal_from-digit 19 i d hi hd, decimal_from-suc 19 i h)

decimal_small : (n : ℕ) → n < 10 → decimal n ≡ (48 + n) ∷ []
unfolding decimal decimal_from
decimal_small n h = ground arith

module _ {J : Type 0} (x : External J) where
  -- The digits of the index and of the nonce are hashed with nothing between them, so a digit that
  -- moves from the end of the index to the front of a one-digit nonce leaves the hash as it was.
  pub hash_of_collide :
      (i d n difficulty : ℕ) (time : ℤ) (payload prev extra : Text)
      → 0 < i
      → i < 10 ^ 20
      → 0 < d
      → d < 10
      → n < 10
      → hash_of x (10 * i + d) n difficulty time payload prev extra
        ≡ hash_of x i (10 * d + n) difficulty time payload prev extra
  unfolding hash_of
  hash_of_collide i d n difficulty time payload prev extra hi h hd hd' hn = simp (
    decimal-digit i d hi h hd',
    decimal-digit d n hd (omega arith) hn,
    decimal_small d hd',
    decimal_small n hn,
    append_assoc,
  )
