-- ===== src/Retry/Fixed.antt =====
-- pkg/retry/strategy/fixed_internal.go
use ework_runner.Prelude.{ℤ, pos, ◌+ℤ◌, int32, true, false, if◌then◌else◌}
use ework_runner.Retry.{FixedInterval, FixedIntervalConfig, Next, may_retry}

unfoldable pub new : FixedIntervalConfig → FixedInterval
new c = record { max_retries = c.max_retries; interval = c.interval; retries = pos 0 }

unfoldable pub next_with_retries : FixedInterval → ℤ → Next
next_with_retries s retries =
    if may_retry s.max_retries retries then (s.interval, true) else (pos 0, false)

unfoldable pub next : FixedInterval → Next × FixedInterval
unfolding next_with_retries
next s =
    let retries = int32 (s.retries +ℤ pos 1) in
    (next_with_retries s retries, record s { retries = retries })
