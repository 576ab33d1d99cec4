-- ===== src/Retry.antt =====
-- pkg/retry/retry.go and pkg/retry/strategy: when to try again.
pub mod Fixed
pub mod Backoff
pub mod Limit
use ework_runner.Prelude.{
  ℕ, ◌^◌, ◌<◌, ltb, ℤ, pos, negsuc, ◌+ℤ◌, ◌-ℤ◌, ◌*ℤ◌, leb_ℤ, ltb_ℤ, int32, int64, Bool, true, false,
  ◌||◌, if◌then◌else◌, Option, none, some, String,
}
use ework_runner.Domain.Task.{ExponentialBackoffConfig}

pub record FixedIntervalConfig : Type 0 where
  pub max_retries : ℤ  -- int32
  pub interval : ℤ

-- The wait before the next try, and whether there is one: (time.Duration, bool).
abbrev pub Next : Type 0
Next = ℤ × Bool

pub record FixedInterval : Type 0 where
  pub max_retries : ℤ  -- int32
  pub interval : ℤ
  pub retries : ℤ  -- int32

pub record ExponentialBackoff : Type 0 where
  pub initial_interval : ℤ
  pub max_interval : ℤ
  pub max_retries : ℤ  -- int32
  pub retries : ℤ  -- int32
  pub max_interval_reached : Bool

-- maxRetries <= 0 || retries <= maxRetries
abbrev pub may_retry : ℤ → ℤ → Bool
may_retry max_retries retries = leb_ℤ max_retries (pos 0) || leb_ℤ retries max_retries

-- time.Duration(math.Pow(2, float64(k))): exact as long as an int64 holds it, 0 for a negative `k`,
-- and otherwise what the platform makes of the conversion.
unfoldable pub power_of_two : (ℤ → ℤ) → ℤ → ℤ
power_of_two out_of_range (pos k) = if ltb k 63 then pos (2 ^ k) else out_of_range (pos k)
power_of_two out_of_range (negsuc k) = pos 0

unfoldable pub exponential : ExponentialBackoffConfig → ExponentialBackoff
exponential c = record {
  initial_interval = c.initial_interval;
  max_interval = c.max_interval;
  max_retries = c.max_retries;
  retries = pos 0;
  max_interval_reached = false;
}

module _ (out_of_range : ℤ → ℤ) where
  unfoldable pub interval_at : ExponentialBackoff → ℤ → ℤ
  interval_at s retries =
      int64 (s.initial_interval *ℤ power_of_two out_of_range (int32 (retries -ℤ pos 1)))

  unfoldable pub next_with_retries : ExponentialBackoff → ℤ → Next × ExponentialBackoff
  next_with_retries s retries =
      if may_retry s.max_retries retries
      then if s.max_interval_reached
        then ((s.max_interval, true), s)
        else if leb_ℤ (interval_at s retries) (pos 0)
            || ltb_ℤ s.max_interval (interval_at s retries)
        then ((s.max_interval, true), record s { max_interval_reached = true })
        else ((interval_at s retries, true), s)
      else ((pos 0, false), s)

  unfoldable pub next : ExponentialBackoff → Next × ExponentialBackoff
  unfolding next_with_retries
  next s =
      let retries = int32 (s.retries +ℤ pos 1) in
      next_with_retries (record s { retries = retries }) retries
