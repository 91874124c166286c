-- ===== src/Store/Qos/Metering.antt =====
-- What the token bucket of crates/epoch-store/src/qos.rs lets through.
use epoch_io.Common.{
  ℕ, ◌+◌, ◌-◌, ◌*◌, ◌/◌, ◌^◌, ◌≤◌, ◌<◌, ◌≡◌, refl, sym, ap, ap₂, ◌∙◌, arith, ◌==◌, Bool-cases, inl,
  inr,
}
use native.Mathlib.Nat.{div-add-mod', mod-lt, mul-add}
use epoch_io.Store.Qos.{RateLimiter, accrued, refill, spend, reserve}

accrued-le : (rate elapsed : ℕ) → accrued rate elapsed * 1000000000 ≤ rate * elapsed
unfolding accrued
accrued-le rate elapsed = omega arith

-- The bytes of a refill were earned by the time that passed.
refill-earned :
    (now : ℕ) (l : RateLimiter)
    → l.last ≤ now
    → ((refill now l).tokens * 1000000000 ≤ l.tokens * 1000000000 + l.rate_per_sec * (now - l.last))
      × ((refill now l).last ≡ now)
      × ((refill now l).rate_per_sec ≡ l.rate_per_sec)
unfolding refill
refill-earned now l le = ground (arith, accrued-le l.rate_per_sec (now - l.last))

quotient-lt : (d r : ℕ) → 0 < r → d < r * (d / r + 1)
quotient-lt d r h = omega (arith, div-add-mod' d r, mod-lt d h)

spend-paid :
    (cost : ℕ) (l : RateLimiter)
    → 0 < l.rate_per_sec
    → (spend cost l).1 < 2 ^ 64 - 1
    → ((cost + (spend cost l).0.tokens) * 1000000000
        ≤ l.tokens * 1000000000 + l.rate_per_sec * ((spend cost l).1 + 1))
      × ((spend cost l).0.last ≡ l.last)
      × ((spend cost l).0.rate_per_sec ≡ l.rate_per_sec)
unfolding spend
spend-paid cost l pos fits =
    let q = quotient-lt ((cost - l.tokens) * 1000000000) l.rate_per_sec pos in ground (arith, q)

reserve-paid :
    (cost now : ℕ) (l : RateLimiter)
    → 0 < l.rate_per_sec
    → l.last ≤ now
    → (reserve cost now l).1 < 2 ^ 64 - 1
    → ((cost + (reserve cost now l).0.tokens) * 1000000000
        ≤ l.tokens * 1000000000 + l.rate_per_sec * (now - l.last + (reserve cost now l).1 + 1))
      × ((reserve cost now l).0.last ≡ now)
      × ((reserve cost now l).0.rate_per_sec ≡ l.rate_per_sec)
reserve-paid cost now l pos le fits =
    let (earned, last, rate) = refill-earned now l le in
    let e : reserve cost now l ≡ spend cost (refill now l) = unfold reserve in ground arith in
    let (paid, last', rate') =
      spend-paid cost (refill now l) (omega (arith, rate)) (rw (sym e) fits) in
    let w : ℕ = (spend cost (refill now l)).1 + 1 in
    let rate_w : (refill now l).rate_per_sec * w ≡ l.rate_per_sec * w = ap (λ r. r * w) rate in
    rw e (omega (arith, earned, paid, rate_w), last' ∙ last, rate' ∙ rate)

-- Reservations one after the other, on a clock that does not go back: the bytes asked for, and the
-- waits, each rounded up by a nanosecond. No wait is as long as the widest duration.
pub data Run (start : RateLimiter) : RateLimiter → ℕ → ℕ → Type 0 where
  begin : Run start start 0 0
  reserved :
      (cost now : ℕ) (l : RateLimiter) (bytes waited : ℕ)
      → l.last ≤ now
      → (reserve cost now l).1 < 2 ^ 64 - 1
      → Run start l bytes waited
      → Run start (reserve cost now l).0 (bytes + cost) (waited + ((reserve cost now l).1 + 1))

-- A metered bucket lets no more bytes through than it held at the start and than its rate yields in
-- the time between the first and the last reservation and in the waits that it imposed.
pub Run-metered :
    (start l : RateLimiter) (bytes waited : ℕ)
    → Run start l bytes waited
    → 0 < start.rate_per_sec
    → ((bytes + l.tokens) * 1000000000
        ≤ start.tokens * 1000000000 + start.rate_per_sec * (l.last - start.last + waited))
      × (start.last ≤ l.last)
      × (l.rate_per_sec ≡ start.rate_per_sec)
Run-metered start _ _ _ begin pos = (omega arith, omega arith, refl)
Run-metered start _ _ _ (reserved cost now l bytes waited le fits run) pos =
    let (bound, since, rate) = Run-metered start l bytes waited run pos in
    let (paid, last, rate') = reserve-paid cost now l (omega (arith, rate)) le fits in
    let t : ℕ = now - l.last + (reserve cost now l).1 + 1 in
    let rate_t : l.rate_per_sec * t ≡ start.rate_per_sec * t = ap (λ r. r * t) rate in
    let sums : start.rate_per_sec * (l.last - start.last + waited) + start.rate_per_sec * t
        ≡ start.rate_per_sec
          * ((reserve cost now l).0.last - start.last + (waited + ((reserve cost now l).1 + 1))) =
      sym (mul-add start.rate_per_sec (l.last - start.last + waited) t)
      ∙ ap (λ x. start.rate_per_sec * x) (omega (arith, last)) in
    (omega (arith, bound, paid, rate_t, sums), omega (arith, last), rate' ∙ rate)

accrued-ge :
    (rate elapsed cost : ℕ)
    → cost < 2 ^ 64
    → cost * 1000000000 ≤ rate * elapsed
    → rate * elapsed < 2 ^ 128
    → cost ≤ accrued rate elapsed
unfolding accrued
accrued-ge rate elapsed cost fits earned wide = omega arith

refill-enough :
    (cost now : ℕ) (l : RateLimiter)
    → cost ≤ l.capacity
    → l.capacity < 2 ^ 64
    → cost * 1000000000 ≤ l.rate_per_sec * (now - l.last)
    → l.rate_per_sec * (now - l.last) < 2 ^ 128
    → cost ≤ (refill now l).tokens
unfolding refill
refill-enough cost now l cap fits earned wide = elim (Bool-cases (now - l.last == 0)) [
  | inl e ↦
      let z : now - l.last ≡ 0 = ground arith in
      let none_earned = ap (λ t. l.rate_per_sec * t) z in rw e (omega (arith, none_earned))
  | inr e ↦
      let got = accrued-ge l.rate_per_sec (now - l.last) cost (omega arith) earned wide in
      rw e (omega arith)
]

reserve-same :
    (cost now : ℕ) (l : RateLimiter)
    → l.last ≤ now
    → ((reserve cost now l).0.capacity ≡ l.capacity)
      × ((reserve cost now l).0.rate_per_sec ≡ l.rate_per_sec)
      × (0 < l.rate_per_sec → (reserve cost now l).0.last ≡ now)
unfolding reserve refill spend
reserve-same cost now l le = ground arith

reserve-granted :
    (cost now : ℕ) (l : RateLimiter) → cost ≤ (refill now l).tokens → (reserve cost now l).1 ≡ 0
unfolding reserve spend
reserve-granted cost now l enough = ground arith

reserve-unlimited :
    (cost now : ℕ) (l : RateLimiter) → l.rate_per_sec ≡ 0 → (reserve cost now l).1 ≡ 0
unfolding reserve
reserve-unlimited cost now l z = ground arith

-- A request within the capacity is granted at once when its bytes were earned since the reservation
-- before it, however long that one waited.
pub reserve_after_wait :
    (cost cost' now now' : ℕ) (l : RateLimiter)
    → l.last ≤ now
    → cost' ≤ l.capacity
    → l.capacity < 2 ^ 64
    → cost' * 1000000000 ≤ l.rate_per_sec * (now' - now)
    → l.rate_per_sec * (now' - now) < 2 ^ 128
    → (reserve cost' now' (reserve cost now l).0).1 ≡ 0
reserve_after_wait cost cost' now now' l le cap fits earned wide =
    elim (Bool-cases (l.rate_per_sec == 0)) [
      | inl e ↦
          let (_, same_rate, _) = reserve-same cost now l le in
          reserve-unlimited cost' now' (reserve cost now l).0 (same_rate ∙ ground arith)
      | inr e ↦
          let (same_cap, same_rate, last) = reserve-same cost now l le in
          let at_now = last (ground arith) in
          let r = ap₂ (λ r t. r * (now' - t)) same_rate at_now in
          reserve-granted cost' now' (reserve cost now l).0 (
            refill-enough cost' now' (reserve cost now l).0 (omega (arith, same_cap))
              (omega (arith, same_cap)) (omega (arith, r)) (omega (arith, r)))
    ]
