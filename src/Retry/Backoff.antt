-- ===== src/Retry/Backoff.antt =====
-- What the exponential backoff promises, for any platform's float conversion.
use ework_runner.Prelude.{
  ℕ, suc, ◌*◌, ◌^◌, ◌%◌, ◌≤◌, ◌<◌, ltb, ℤ, pos, negsuc, ◌-ℤ◌, ◌*ℤ◌, ◌≤ℤ◌, ◌<ℤ◌, int32, int64, true,
  false, ◌≡◌, arith, if◌then◌else◌,
}
use native.Mathlib.Nat.{mul-pos, one-le-pow}
use ework_runner.Retry.{ExponentialBackoff, may_retry, power_of_two, interval_at, next_with_retries}

-- int32 and int64 keep the numbers that they hold.
pub int32-small : (n : ℤ) → pos 0 ≤ℤ n → n <ℤ pos 0x80000000 → int32 n ≡ n
unfolding int32
int32-small (pos n) h k = ground arith
int32-small (negsuc n) h k = absurd (omega arith)

pub int64-small : (n : ℤ) → pos 0 ≤ℤ n → n <ℤ pos 0x8000000000000000 → int64 n ≡ n
unfolding int64
int64-small (pos n) h k = ground arith
int64-small (negsuc n) h k = absurd (omega arith)

int64-wraps :
    (n : ℕ)
    → n % 0x10000000000000000 < 0x8000000000000000
    → int64 (pos n) ≡ pos (n % 0x10000000000000000)
unfolding int64
int64-wraps n h = ground arith

pos-* : (a b : ℕ) → pos a *ℤ pos b ≡ pos (a * b)
unfolding ◌*ℤ◌
pos-* a b = ground arith

pred_int32 : (k : ℕ) → k < 63 → int32 (pos (suc k) -ℤ pos 1) ≡ pos k
unfolding int32 ◌-ℤ◌
pred_int32 k h = ground arith

module _ (out_of_range : ℤ → ℤ) where
  -- There is a next try exactly if the limit is not positive or not passed.
  pub next_with_retries-may :
      (s : ExponentialBackoff) (retries : ℤ)
      → (next_with_retries out_of_range s retries).0.1 ≡ may_retry s.max_retries retries
  unfolding next_with_retries
  next_with_retries-may s retries = ground arith

  -- If the maximal interval is positive, every wait that the strategy grants is positive and at
  -- most the maximal interval.
  pub wait_bounds :
      (s : ExponentialBackoff) (retries : ℤ)
      → pos 0 <ℤ s.max_interval
      → (next_with_retries out_of_range s retries).0.1 ≡ true
      → let wait = (next_with_retries out_of_range s retries).0.0 in
        (pos 0 <ℤ wait) × (wait ≤ℤ s.max_interval)
  unfolding next_with_retries
  wait_bounds s retries h granted = ground arith

  power-small : (k : ℕ) → k < 63 → power_of_two out_of_range (pos k) ≡ pos (2 ^ k)
  unfolding power_of_two
  power-small k h = ground arith

  interval-small :
      (s : ExponentialBackoff) (k i : ℕ)
      → s.initial_interval ≡ pos i
      → k < 63
      → i * 2 ^ k < 0x8000000000000000
      → interval_at out_of_range s (pos (suc k)) ≡ pos (i * 2 ^ k)
  unfolding interval_at
  interval-small s k i e h fits =
      rw (e, pred_int32 k h, power-small k h, pos-* i (2 ^ k))
        (int64-small (pos (i * 2 ^ k)) (omega arith) (omega arith))

  -- If the k-th try is granted, the initial interval is positive and the maximal one not yet
  -- reached, the wait is the initial interval, doubled k - 1 times and cut off at the maximal
  -- interval, as long as k - 1 < 63 and the doubled interval fits an int64.
  pub wait_doubles :
      (s : ExponentialBackoff) (k i m : ℕ)
      → s.max_interval_reached ≡ false
      → s.initial_interval ≡ pos i
      → s.max_interval ≡ pos m
      → 0 < i
      → k < 63
      → i * 2 ^ k < 0x8000000000000000
      → may_retry s.max_retries (pos (suc k)) ≡ true
      → (next_with_retries out_of_range s (pos (suc k))).0
        ≡ (pos (if ltb m (i * 2 ^ k) then m else i * 2 ^ k), true)
  unfolding next_with_retries
  wait_doubles s k i m fresh ei em positive h fits granted =
      let grows : 0 < i * 2 ^ k = mul-pos positive (one-le-pow k 2 (omega arith)) in
      ground (arith, interval-small s k i ei h fits)

  -- If the k-th try is granted, the maximal interval is not yet reached, k - 1 < 63, and the
  -- doubled interval is past the maximal one, but lies between 1 and it modulo 2^64, then the wait
  -- is that remainder and not the maximal interval.
  pub wait_wraps :
      (s : ExponentialBackoff) (k i m : ℕ)
      → s.max_interval_reached ≡ false
      → s.initial_interval ≡ pos i
      → s.max_interval ≡ pos m
      → k < 63
      → m < 0x8000000000000000
      → m < i * 2 ^ k
      → 0 < i * 2 ^ k % 0x10000000000000000
      → i * 2 ^ k % 0x10000000000000000 ≤ m
      → may_retry s.max_retries (pos (suc k)) ≡ true
      → (next_with_retries out_of_range s (pos (suc k))).0
        ≡ (pos (i * 2 ^ k % 0x10000000000000000), true)
  unfolding next_with_retries interval_at
  wait_wraps s k i m fresh ei em h room past positive small granted =
      let wrapped : interval_at out_of_range s (pos (suc k))
          ≡ pos (i * 2 ^ k % 0x10000000000000000) =
        rw (ei, pred_int32 k h, power-small k h, pos-* i (2 ^ k))
          (int64-wraps (i * 2 ^ k) (omega arith)) in
      ground arith
