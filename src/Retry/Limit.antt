-- ===== src/Retry/Limit.antt =====
-- The number of tries that a strategy grants when it is asked again and again.
use ework_runner.Prelude.{
  ℕ, zero, suc, ◌<◌, leb, ℤ, pos, ◌+ℤ◌, int32, true, false, ◌≡◌, refl, arith, if◌then◌else◌,
}
use ework_runner.Domain.Task.{ExponentialBackoffConfig}
use ework_runner.Retry.{
  ExponentialBackoff, FixedInterval, FixedIntervalConfig, Next, may_retry, exponential, next,
}
use ework_runner.Retry.Fixed as fixed
use ework_runner.Retry.Backoff.{next_with_retries-may}

-- The strategy after `k` calls of its Next.
abbrev pub after_calls : {S : Type 0} → (S → Next × S) → ℕ → S → S
after_calls step zero s = s
after_calls step (suc k) s = (step (after_calls step k s)).1

next_int32 : (k : ℕ) → suc k < 0x80000000 → int32 (pos k +ℤ pos 1) ≡ pos (suc k)
unfolding int32 ◌+ℤ◌
next_int32 k h = ground arith

may_retry-pos : (n k : ℕ) → 0 < n → may_retry (pos n) (pos k) ≡ leb k n
may_retry-pos n k h = ground arith

module _ (out_of_range : ℤ → ℤ) where
  next-may :
      (s : ExponentialBackoff)
      → (next out_of_range s).0.1 ≡ may_retry s.max_retries (int32 (s.retries +ℤ pos 1))
  unfolding next
  next-may s =
      let retries = int32 (s.retries +ℤ pos 1) in
      next_with_retries-may out_of_range (record s { retries = retries }) retries

  exponential-count :
      (s : ExponentialBackoff) (k : ℕ)
      → s.retries ≡ pos 0
      → k < 0x80000000
      → ((after_calls (next out_of_range) k s).retries ≡ pos k)
        × ((after_calls (next out_of_range) k s).max_retries ≡ s.max_retries)
  unfolding next
  exponential-count s zero e h = (e, refl)
  exponential-count s (suc k) e h =
      let (count, limit) = exponential-count s k e (omega arith) in ground (arith, next_int32 k h)

  -- A new backoff strategy with the positive limit `n` grants the call number k + 1 of Next
  -- exactly if k + 1 ≤ n, for k + 1 < 2^31.
  pub exponential_limit :
      (c : ExponentialBackoffConfig) (n k : ℕ)
      → c.max_retries ≡ pos n
      → 0 < n
      → suc k < 0x80000000
      → (next out_of_range (after_calls (next out_of_range) k (exponential c))).0.1 ≡ leb (suc k) n
  unfolding exponential
  exponential_limit c n k e positive h =
      let s = after_calls (next out_of_range) k (exponential c) in
      let (count, limit) = exponential-count (exponential c) k refl (omega arith) in
      rw (next-may s, count, limit, e, next_int32 k h) (may_retry-pos n (suc k) positive)

fixed-count :
    (s : FixedInterval) (k : ℕ)
    → s.retries ≡ pos 0
    → k < 0x80000000
    → after_calls fixed.next k s ≡ record s { retries = pos k }
unfolding fixed.next
fixed-count s zero e h = ground arith
fixed-count s (suc k) e h = rw (fixed-count s k e (omega arith)) (ground (arith, next_int32 k h))

-- A new fixed strategy with the positive limit `n` grants the call number k + 1 of Next exactly if
-- k + 1 ≤ n, for k + 1 < 2^31, and then with the fixed interval as the wait.
pub fixed_limit :
    (c : FixedIntervalConfig) (n k : ℕ)
    → c.max_retries ≡ pos n
    → 0 < n
    → suc k < 0x80000000
    → (fixed.next (after_calls fixed.next k (fixed.new c))).0
      ≡ (if leb (suc k) n then (c.interval, true) else (pos 0, false))
unfolding fixed.new fixed.next
fixed_limit c n k e positive h =
    rw (fixed-count (fixed.new c) k refl (omega arith)) (ground (arith, next_int32 k h))
