-- ===== src/Miner/Mined.antt =====
-- What `mineBlock` makes of a block.
use ash_coin.Base.{
  ℕ, zero, suc, ◌+◌, ◌%◌, ◌^◌, ◌<◌, ◌≡◌, refl, ◌⊎◌, inl, inr, true, false, not, ◌&&◌, Option, none,
  some, Text, text_eq, text_eq_refl, Bool-cases, ◌==◌, ℤ, if◌then◌else◌, arith, [], ltb, ◌-◌, ◌||◌,
  ◌≢◌, sym, ◌∙◌, text_eq_iff,
}
use mathlib.Core.Bool.{false≢true}
use ash_coin.External.{External}
use ash_coin.Block.{Block, valid_hash, calculate_block_hash, has_zeros, set_mined_data}
use ash_coin.Miner.{
  ResultType, success, timeout, abort, Schedule, LoopEnd, stopped, bailed, Outcome, ended,
  failed_assertion, threw, still_mining, hash_at, mine_loop, finish, mine_block,
}

module _ {J : Type 0} (x : External J) (s : Schedule) (difficulty : ℕ) (b : Block) where
  -- The hash that the loop ends with is that of its nonce and its time, and has the zeros unless
  -- the flag was taken down.
  abbrev IsRight : Option LoopEnd → Type 0
  IsRight none = Unit
  IsRight (some bailed) = Unit
  IsRight (some (stopped nonce time hash)) =
      (hash ≡ hash_at x difficulty b nonce time)
      × ((s.keep_trying nonce ≡ false) ⊎ (has_zeros difficulty hash ≡ true))

  mine_loop-IsRight :
      (fuel nonce : ℕ) (time : ℤ) (hash : Text)
      → hash ≡ hash_at x difficulty b nonce time
      → IsRight (mine_loop x fuel s difficulty b nonce time hash)
  unfolding mine_loop
  mine_loop-IsRight zero nonce time hash e = tt
  mine_loop-IsRight (suc fuel) nonce time hash e =
      let news = nonce % 2 ^ 18 == 0 in
      let time' = if news then s.clock nonce else time in
      let nonce' = (nonce + 1) % 2 ^ 64 in
      elim (Bool-cases (s.keep_trying nonce && not (has_zeros difficulty hash))) [
        | inl more ↦ elim (Bool-cases (news && not (s.keep_going nonce b.index))) [
          | inl bail ↦ rw (more, bail) tt
          | inr going ↦
              rw (more, going)
                (mine_loop-IsRight fuel nonce' time' (hash_at x difficulty b nonce' time') refl)
        ]
        | inr done ↦ rw done (e, ground arith)
      ]

  -- What a call of `mineBlock` may end with.
  abbrev pub IsOutcome : Outcome → Type 0
  IsOutcome (ended success m) =
      (valid_hash x m ≡ some true)
      × (m.difficulty ≡ difficulty)
      × (m.index ≡ b.index)
      × (m.prev ≡ b.prev)
      × (m.payload ≡ b.payload)
      × (m.txs ≡ b.txs)
      × (m.miner ≡ b.miner)
  IsOutcome (ended timeout m) = ⊥
  IsOutcome (ended abort m) = m ≡ b
  IsOutcome failed_assertion = (b.index ≡ 0) ⊎ ((b.prev ≡ []) × (b.index ≢ 1))
  IsOutcome threw = x.string_fits difficulty ≡ false
  IsOutcome still_mining = Unit

  -- A flag that was down in a round is down behind the loop: only `mineBlock` itself puts it up.
  abbrev pub StaysDown : Type 0
  StaysDown = (n : ℕ) → s.keep_trying n ≡ false → s.keep_trying_after ≡ false

  mined-valid :
      (nonce : ℕ) (time : ℤ) (hash : Text)
      → hash ≡ hash_at x difficulty b nonce time
      → has_zeros difficulty hash ≡ true
      → x.string_fits difficulty ≡ true
      → valid_hash x (set_mined_data nonce difficulty time hash b) ≡ some true
  unfolding valid_hash set_mined_data calculate_block_hash
  mined-valid nonce time hash e z fits = rw (← e, text_eq_refl hash, fits, z)

  finish-IsOutcome :
      (e : Option LoopEnd)
      → x.string_fits difficulty ≡ true
      → StaysDown
      → IsRight e
      → IsOutcome (finish s difficulty b e)
  unfolding finish set_mined_data
  finish-IsOutcome none fits down r = tt
  finish-IsOutcome (some bailed) fits down r = refl
  finish-IsOutcome (some (stopped nonce time hash)) fits down (e, why) =
      elim (Bool-cases s.keep_trying_after) [
        | inr off ↦ rw off refl
        | inl on ↦ rw on (elim why [
          | inl flag ↦ absurd (false≢true (sym (down nonce flag) ∙ on))
          | inr zeros ↦
              (mined-valid nonce time hash e zeros fits, refl, refl, refl, refl, refl, refl)
        ])
      ]

  -- If no other thread puts the flag up again, `mineBlock` ends well only with a block whose hash is
  -- valid at the miner's difficulty, and that differs from the block it was given in the nonce, the
  -- difficulty, the time and the hash alone; if it aborts, the block is as it was; it never says
  -- `TIMEOUT`; its assertion fails only for a block of index 0, or one that has no previous hash and
  -- is not of index 1; and it throws only where no string can have the difficulty as its size.
  pub mine_block-IsOutcome : (fuel : ℕ) → StaysDown → IsOutcome (mine_block x fuel s difficulty b)
  unfolding mine_block
  mine_block-IsOutcome fuel down =
      elim (Bool-cases (ltb 0 b.index && (not (text_eq b.prev []) || (b.index - 1 == 0)))) [
        | inr bad ↦ rw bad (ground (arith, text_eq_iff b.prev []))
        | inl ok ↦ rw ok (elim (Bool-cases (x.string_fits difficulty)) [
          | inr huge ↦ rw huge huge
          | inl fits ↦ rw fits (
              finish-IsOutcome
                (mine_loop x fuel s difficulty b 0 s.start (hash_at x difficulty b 0 s.start)) fits
                down (mine_loop-IsRight fuel 0 s.start (hash_at x difficulty b 0 s.start) refl))
        ])
      ]

  mine_loop_ends :
      (k fuel nonce : ℕ) (time : ℤ) (hash : Text)
      → nonce + k < 2 ^ 64
      → s.keep_trying (nonce + k) ≡ false
      → k < fuel
      → (e : LoopEnd) × (mine_loop x fuel s difficulty b nonce time hash ≡ some e)
  unfolding mine_loop
  mine_loop_ends k zero nonce time hash w f h = absurd (omega arith)
  mine_loop_ends zero (suc fuel) nonce time hash w f h =
      let same : nonce + 0 ≡ nonce = omega arith in
      let off : s.keep_trying nonce ≡ false = rw same at f in (stopped nonce time hash, rw off)
  mine_loop_ends (suc k) (suc fuel) nonce time hash w f h =
      let news = nonce % 2 ^ 18 == 0 in
      let time' = if news then s.clock nonce else time in
      let nonce' = (nonce + 1) % 2 ^ 64 in
      let same : nonce + suc k ≡ nonce' + k = omega arith in
      elim (Bool-cases (s.keep_trying nonce && not (has_zeros difficulty hash))) [
        | inl more ↦ elim (Bool-cases (news && not (s.keep_going nonce b.index))) [
          | inl bail ↦ (bailed, rw (more, bail))
          | inr going ↦
              rw (more, going)
                (mine_loop_ends k fuel nonce' time' (hash_at x difficulty b nonce' time')
                  (omega arith) (rw same at f) (omega arith))
        ]
        | inr done ↦ (stopped nonce time hash, rw done)
      ]

  finish_ends :
      (e : LoopEnd) → (r : ResultType) × (m : Block) × (finish s difficulty b (some e) ≡ ended r m)
  unfolding finish
  finish_ends bailed = (abort, b, refl)
  finish_ends (stopped nonce time hash) = elim (Bool-cases s.keep_trying_after) [
    | inl on ↦ (success, set_mined_data nonce difficulty time hash b, rw on)
    | inr off ↦ (abort, b, rw off)
  ]

  -- If another thread takes the flag down by some round, fuel for one round more is enough for
  -- `mineBlock` to end with a result, on a block of positive index that has a previous hash, at a
  -- difficulty that a string can have as its size; before 2 ^ 64 rounds the nonce does not wrap.
  pub mine_block_ends :
      (fuel k : ℕ)
      → x.string_fits difficulty ≡ true
      → 0 < b.index
      → b.prev ≢ []
      → k < 2 ^ 64
      → s.keep_trying k ≡ false
      → k < fuel
      → (r : ResultType) × (m : Block) × (mine_block x fuel s difficulty b ≡ ended r m)
  unfolding mine_block
  mine_block_ends fuel k fits i p w f h =
      let ok : (ltb 0 b.index && (not (text_eq b.prev []) || (b.index - 1 == 0))) ≡ true =
        ground (arith, text_eq_iff b.prev []) in
      let zero_add : k ≡ 0 + k = omega arith in
      let (e, q) =
        mine_loop_ends k fuel 0 s.start (hash_at x difficulty b 0 s.start) (omega arith)
          (rw zero_add at f) h in
      rw (ok, fits, q) (finish_ends e)
