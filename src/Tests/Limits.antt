-- ===== src/Tests/Limits.antt =====
-- A token bucket of a thousand bytes at a thousand bytes a second.
use epoch_io.Common.{◌+◌, ◌-◌, ◌*◌, ◌≤◌, ◌≡◌, refl, arith}
use epoch_io.Store.Qos.{RateLimiter, new_limiter, refill, spend, reserve}
use epoch_io.Store.Qos.Metering.{begin, reserved, Run-metered, reserve_after_wait}

abbrev full_bucket : RateLimiter
full_bucket = record { rate_per_sec = 1000; capacity = 1000; tokens = 1000; last = 5 }

abbrev drained : RateLimiter
drained = record { rate_per_sec = 1000; capacity = 1000; tokens = 0; last = 5 }

full_bucket-new : new_limiter 1000 1000 5 ≡ full_bucket
unfolding new_limiter
full_bucket-new = refl

drained_at_once : reserve 1000 5 full_bucket ≡ (drained, 0)
unfolding reserve refill spend
drained_at_once = refl

-- An empty bucket lets a full burst through after one second and the next one right behind it.
waits_a_second : reserve 1000 5 drained ≡ (drained, 1000000000)
unfolding reserve refill spend
waits_a_second = refl

reserve_after_wait_example : (reserve 1000 1000000005 (reserve 1000 5 drained).0).1 ≡ 0
reserve_after_wait_example =
    reserve_after_wait 1000 1000 5 1000000005 drained (omega arith) (omega arith) (omega arith)
      (omega arith) (omega arith)

abbrev one_wait : RateLimiter
one_wait = (reserve 1500 5 full_bucket).0

short_wait : (reserve 1500 5 full_bucket).1 ≡ 500000000
unfolding reserve refill spend
short_wait = refl

Run-metered_example :
    ((1500 + one_wait.tokens) * 1000000000
      ≤ 1000 * 1000000000 + 1000 * (one_wait.last - 5 + (0 + ((reserve 1500 5 full_bucket).1 + 1))))
    × (5 ≤ one_wait.last)
    × (one_wait.rate_per_sec ≡ 1000)
Run-metered_example =
    Run-metered full_bucket one_wait 1500 (0 + ((reserve 1500 5 full_bucket).1 + 1))
      (reserved 1500 5 full_bucket 0 0 (omega arith) (omega (arith, short_wait)) begin)
      (omega arith)
