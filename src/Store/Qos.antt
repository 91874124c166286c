-- ===== src/Store/Qos.antt =====
-- crates/epoch-store/src/qos.rs: the token buckets of a disk. An instant is a count of nanoseconds of
-- the monotonic clock, a duration likewise; widths of 64 and 128 bits are those of the source.
pub mod Metering
use epoch_io.Common.{ℕ, ◌+◌, ◌-◌, ◌*◌, ◌/◌, ◌%◌, ◌^◌, min, Bool, ltb, leb, ◌==◌, if◌then◌else◌}

pub data IoClass : Type 0 where
  foreground background repair : IoClass

pub record QosConfig : Type 0 where
  pub foreground_rate : ℕ
  pub background_rate : ℕ
  pub repair_rate : ℕ
  pub burst : ℕ

pub record RateLimiter : Type 0 where
  pub rate_per_sec : ℕ
  pub capacity : ℕ
  pub tokens : ℕ
  pub last : ℕ

-- `RateLimiter::new`, the clock's reading passed in.
unfoldable pub new_limiter : ℕ → ℕ → ℕ → RateLimiter
new_limiter rate capacity now = record {
  rate_per_sec = rate;
  capacity = capacity;
  tokens = capacity;
  last = now;
}

-- `u64::try_from(x).unwrap_or(u64::MAX)`.
abbrev pub saturated : ℕ → ℕ
saturated x = min x (2 ^ 64 - 1)

-- What accrues in `elapsed` nanoseconds.
unfoldable pub accrued : ℕ → ℕ → ℕ
accrued rate elapsed = saturated (rate * elapsed % 2 ^ 128 / 1000000000)

unfoldable pub refill : ℕ → RateLimiter → RateLimiter
refill now l = if now - l.last == 0 then l else record l {
  tokens = min (saturated (l.tokens + accrued l.rate_per_sec (now - l.last))) l.capacity;
  last = now;
}

-- The end of `reserve`, on the bucket that was refilled.
unfoldable pub spend : ℕ → RateLimiter → RateLimiter × ℕ
spend cost l =
    if leb cost l.tokens
    then (record l { tokens = l.tokens - cost }, 0)
    else (record l { tokens = 0 }, saturated ((cost - l.tokens) * 1000000000 / l.rate_per_sec))

-- The limiter afterwards and how long the caller waits.
unfoldable pub reserve : ℕ → ℕ → RateLimiter → RateLimiter × ℕ
unfolding refill spend
reserve cost now l = if l.rate_per_sec == 0 then (l, 0) else spend cost (refill now l)

pub record Qos : Type 0 where
  pub foreground : RateLimiter
  pub background : RateLimiter
  pub repair : RateLimiter

unfoldable pub new_qos : QosConfig → ℕ → Qos
new_qos config now = record {
  foreground = new_limiter config.foreground_rate config.burst now;
  background = new_limiter config.background_rate config.burst now;
  repair = new_limiter config.repair_rate config.burst now;
}

unfoldable pub limiter : IoClass → Qos → RateLimiter
limiter IoClass.foreground q = q.foreground
limiter IoClass.background q = q.background
limiter IoClass.repair q = q.repair
