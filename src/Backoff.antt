-- ===== src/Backoff.antt =====
-- main.c: how long `fail_remote` waits before it tries a remote again.
mod Tests
use native.Mathlib.Nat.{pow-le-pow_right}
use enthrall.Prelude.{
  ℕ, suc, ◌+◌, ◌-◌, ◌*◌, ◌/◌, ◌%◌, ◌^◌, ◌≤◌, ◌<◌, ◌≡◌, ltb, ltb→lt, Bool-cases, inl, inr, min,
  if◌then◌else◌, arith,
}

-- Half a second, in microseconds.
abbrev pub reconnect_interval_unit : ℕ
reconnect_interval_unit = 500 * 1000

-- The shift is kept below the width of a `uint64_t`.
unfoldable pub backoff_shift : ℕ → ℕ
backoff_shift failcount = if ltb 63 (failcount - 1) then 63 else failcount - 1

-- `tmp` and its cap; the product is one of `uint64_t`.
unfoldable pub capped_delay : ℕ → ℕ → ℕ
capped_delay tmp max_interval =
    (if ltb (max_interval / reconnect_interval_unit) tmp
      then max_interval / reconnect_interval_unit
      else tmp)
    * reconnect_interval_unit
    % 2 ^ 64

-- `failcount` is counted up before. The bit that is shifted is a `uint64_t`.
unfoldable pub next_reconnect_delay : ℕ → ℕ → ℕ
next_reconnect_delay failcount max_interval =
    capped_delay (2 ^ backoff_shift failcount % 2 ^ 64) max_interval

capped-min :
    (tmp max_interval : ℕ)
    → max_interval < 2 ^ 64
    → capped_delay tmp max_interval
      ≡ min
          (tmp * reconnect_interval_unit)
          (max_interval / reconnect_interval_unit * reconnect_interval_unit)
unfolding capped_delay
capped-min tmp max_interval h = ground arith

shift_small : (k : ℕ) → k < 64 → backoff_shift (suc k) ≡ k
unfolding backoff_shift
shift_small k h = ground arith

shift_mono : (j k : ℕ) → j ≤ k → backoff_shift j ≤ backoff_shift k
unfolding backoff_shift
shift_mono j k h = ground arith

shift_large : (k : ℕ) → 63 ≤ k → backoff_shift (suc k) ≡ 63
unfolding backoff_shift
shift_large k h = ground arith

shift_bound : (k : ℕ) → backoff_shift k ≤ 63
unfolding backoff_shift
shift_bound k = ground arith

-- Nothing is shifted out.
shifted : (k : ℕ) → 2 ^ backoff_shift k % 2 ^ 64 ≡ 2 ^ backoff_shift k
shifted k =
    let p : 2 ^ backoff_shift k ≤ 2 ^ 63 = pow-le-pow_right (omega arith) (shift_bound k) in
    omega arith

-- After the failure number k + 1, however large k is, the wait is half a second times 2 to the k, or
-- the maximum in whole half seconds if that is less; the maximum is a `uint64_t`.
pub delay_doubles :
    (k max_interval : ℕ)
    → max_interval < 2 ^ 64
    → next_reconnect_delay (suc k) max_interval
      ≡ min
          (2 ^ k * reconnect_interval_unit)
          (max_interval / reconnect_interval_unit * reconnect_interval_unit)
unfolding next_reconnect_delay
delay_doubles k max_interval b = elim (Bool-cases (ltb k 64)) [
  | inl t ↦ rw (shifted (suc k), shift_small k (ltb→lt _ _ t)) (capped-min (2 ^ k) max_interval b)
  | inr f ↦
      let large : 63 ≤ k = ground arith in
      let p : 2 ^ 63 ≤ 2 ^ k = pow-le-pow_right (omega arith) large in
      rw (shifted (suc k), shift_large k large) (omega (arith, capped-min (2 ^ 63) max_interval b))
]

-- However often a remote has failed, it waits no longer than the configured maximum, and no less than
-- after fewer failures.
pub delay_bounds :
    (j k max_interval : ℕ)
    → j ≤ k
    → max_interval < 2 ^ 64
    → (next_reconnect_delay k max_interval ≤ max_interval)
      × (next_reconnect_delay j max_interval ≤ next_reconnect_delay k max_interval)
unfolding next_reconnect_delay
delay_bounds j k max_interval h b =
    let p : 2 ^ backoff_shift j ≤ 2 ^ backoff_shift k =
      pow-le-pow_right (omega arith) (shift_mono j k h) in
    rw (shifted j, shifted k)
      (omega (
        arith,
        capped-min (2 ^ backoff_shift j) max_interval b,
        capped-min (2 ^ backoff_shift k) max_interval b,
      ))
