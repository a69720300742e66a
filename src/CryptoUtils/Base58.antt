-- ===== src/CryptoUtils/Base58.antt =====
-- `Base58Encode`: its letters, and a decoder.
use ash_coin.Base.{
  length, get_or, ℕ, zero, suc, ◌+◌, ◌-◌, ◌/◌, ◌*◌, ◌≤◌, ◌<◌, ◌≡◌, refl, ap, Bool, true, ◌&&◌, [],
  ◌∷◌, Text, ltb, if◌then◌else◌, arith, ◌==◌, Bool-cases, inl, inr,
}
use ash_coin.CryptoUtils.{base_count, base58_alphabet, letter, base58_loop, base58_encode}

-- The place of a letter in the alphabet.
index_in : Text → ℕ → ℕ
index_in [] c = 0
index_in (a ∷ as') c = if c == a then 0 else suc (index_in as' c)

pub digit : ℕ → ℕ
unfolding index_in
digit c = index_in base58_alphabet c

-- The number that a text of letters stands for, most significant first.
pub decode_from : ℕ → Text → ℕ
decode_from acc [] = acc
decode_from acc (c ∷ cs) = decode_from (58 * acc + digit c) cs

pub base58_decode : Text → ℕ
unfolding decode_from
base58_decode s = decode_from 0 s

-- The letters of a text are the digits from `k` on.
counts_from : ℕ → Text → Bool
counts_from k [] = true
counts_from k (c ∷ cs) = counts_from (suc k) cs && (digit c == k)

counts_from-digit :
    (cs : Text) (k i : ℕ) → counts_from k cs ≡ true → i < length cs → digit (get_or cs i 0) ≡ k + i
unfolding counts_from
counts_from-digit [] k i e h = absurd (omega arith)
counts_from-digit (c ∷ cs) k zero e h = ground arith
counts_from-digit (c ∷ cs) k (suc i) e h =
    let rest = counts_from-digit cs (suc k) i (ground arith) (omega arith) in omega (arith, rest)

alphabet-counts : counts_from 0 base58_alphabet ≡ true
unfolding counts_from digit
alphabet-counts = refl

digit-letter : (d : ℕ) → d < 58 → digit (letter d) ≡ d
unfolding letter
digit-letter d h = omega (arith, counts_from-digit base58_alphabet 0 d alphabet-counts h)

-- The loop adds the letters of `num` in front of what is there.
decode_from-base58_loop :
    (fuel num : ℕ) (encoded : Text)
    → num ≤ fuel
    → decode_from 0 (base58_loop fuel num encoded) ≡ decode_from num encoded
unfolding base58_loop decode_from
decode_from-base58_loop zero num encoded h =
    let e : 0 + digit (letter num) ≡ num = omega (arith, digit-letter num (omega arith)) in
    ap (λ (t : ℕ). decode_from t encoded) e
decode_from-base58_loop (suc fuel) num encoded h = elim (Bool-cases (ltb num base_count)) [
  | inl small ↦
      let e : 0 + digit (letter num) ≡ num = omega (arith, digit-letter num (ground arith)) in
      rw small (ap (λ (t : ℕ). decode_from t encoded) e)
  | inr large ↦
      let d = num - base_count * (num / base_count) in
      let e : 58 * (num / base_count) + digit (letter d) ≡ num =
        omega (arith, digit-letter d (omega arith)) in
      rw
        (large, decode_from-base58_loop fuel (num / base_count) (letter d ∷ encoded) (ground arith))
        (ap (λ (t : ℕ). decode_from t encoded) e)
]

-- What is encoded is read back, whatever the number; so the rounds are enough, and no two numbers
-- share a text.
pub base58_decode-base58_encode : (num : ℕ) → base58_decode (base58_encode num) ≡ num
unfolding base58_decode base58_encode
base58_decode-base58_encode num = decode_from-base58_loop num num [] (omega arith)
