-- ===== src/Peers/Reconnect.antt =====
-- `ReconnectWorker` of src/PeerManager.h: the timer that calls back from time to time. Times are in
-- nanoseconds, and a wait is in milliseconds.
use ash_coin.Base.{
  ℕ, zero, suc, ◌+◌, ◌*◌, ◌≤◌, ◌≡◌, Bool, not, ◌&&◌, Option, none, some, List, [], ◌∷◌, get_elem?,
  if◌then◌else◌, ℤ, pos, ◌-ℤ◌, quot_ℤ, pos_part, All, Option-cases, inl, inr, arith,
}
use mathlib.Core.Option.{some-injective, none-ne-some}

abbrev pub millisecond : ℕ
millisecond = 1000000

-- A firing of the timer: how long after it was due it comes and the callback is called, its error code,
-- whether `shutdown` was called, how long the callback takes, and how much later the timer is set.
pub record Firing : Type 0 where
  pub late : ℕ
  pub has_error : Bool
  pub is_shut_down : Bool
  pub elapsed : ℕ
  pub overhead : ℕ

-- `privateRun`, with the wait that it sets the timer to; `none` ends the worker.
unfoldable pub private_run : ℕ → Firing → Option ℤ
unfolding ◌-ℤ◌
private_run timeout f =
    if not f.has_error && not f.is_shut_down
    then some (quot_ℤ (pos (timeout * millisecond) -ℤ pos f.elapsed) millisecond)
    else none

-- When the callback is called, from a firing that is due at `clock` on. A wait that is not positive is
-- none.
unfoldable pub run_from : (timeout clock : ℕ) → List Firing → List ℕ
unfolding private_run
run_from timeout clock [] = []
run_from timeout clock (f ∷ fs) = elim (private_run timeout f) [
  | none ↦ []
  | some wait ↦
      let called = clock + f.late in
      called ∷ run_from timeout (called + f.elapsed + f.overhead + pos_part wait * millisecond) fs
]

-- `run`, which waits first.
unfoldable pub run_worker : (timeout : ℕ) → List Firing → List ℕ
unfolding run_from
run_worker timeout fs = run_from timeout (timeout * millisecond) fs

-- What the timer and the calls around it add in the first `n` firings and at the next one.
abbrev pub delays : ℕ → List Firing → ℕ
delays n [] = 0
delays zero (f ∷ fs) = f.late
delays (suc n) (f ∷ fs) = f.late + f.overhead + delays n fs

private_run-period :
    (timeout : ℕ) (f : Firing) (wait : ℤ)
    → private_run timeout f ≡ some wait
    → f.elapsed ≤ timeout * millisecond
    → (f.elapsed + pos_part wait * millisecond ≤ timeout * millisecond)
      × (timeout * millisecond ≤ f.elapsed + pos_part wait * millisecond + millisecond)
unfolding private_run ◌-ℤ◌
private_run-period timeout f wait e h = ground arith

run_from-period :
    (timeout clock : ℕ) (fs : List Firing) (i : ℕ) {at_clock : ℕ}
    → All (λ (f : Firing). f.elapsed ≤ timeout * millisecond) fs
    → get_elem? (run_from timeout clock fs) i ≡ some at_clock
    → (at_clock ≤ clock + i * (timeout * millisecond) + delays i fs)
      × (clock + i * (timeout * millisecond) + delays i fs ≤ at_clock + i * millisecond)
unfolding run_from
run_from-period timeout clock [] i _ e = absurd (none-ne-some _ e)
run_from-period timeout clock (f ∷ fs) zero (h, hs) e =
    elim (Option-cases (private_run timeout f)) [
      | inl q ↦ absurd (none-ne-some _ (rw (run_from, q) at e))
      | inr (wait, q) ↦ let same = some-injective _ _ (rw (run_from, q) at e) in omega (arith, same)
    ]
run_from-period timeout clock (f ∷ fs) (suc i) (h, hs) e =
    elim (Option-cases (private_run timeout f)) [
      | inl q ↦ absurd (none-ne-some _ (rw (run_from, q) at e))
      | inr (wait, q) ↦ omega (
        arith,
        private_run-period timeout f wait q h,
        run_from-period timeout
            (clock + f.late + f.elapsed + f.overhead + pos_part wait * millisecond) fs i hs
            (rw (run_from, q) at e),
      )
    ]

-- While no callback takes longer than the timeout, the callback of place `i` is called `i + 1` timeouts
-- and the delays of the timer and of the calls around it after the start, or less than that by `i`
-- milliseconds at most.
pub run_worker-period :
    (timeout : ℕ) (fs : List Firing) (i : ℕ) {at_clock : ℕ}
    → All (λ (f : Firing). f.elapsed ≤ timeout * millisecond) fs
    → get_elem? (run_worker timeout fs) i ≡ some at_clock
    → (at_clock ≤ (i + 1) * (timeout * millisecond) + delays i fs)
      × ((i + 1) * (timeout * millisecond) + delays i fs ≤ at_clock + i * millisecond)
unfolding run_worker
run_worker-period timeout fs i h e =
    omega (arith, run_from-period timeout (timeout * millisecond) fs i h e)
