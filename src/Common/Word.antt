-- ===== src/Common/Word.antt =====
-- Machine arithmetic of the language: saturating signed addition on `u64`, and the cast of a `u64` to
-- `f64`, whose values on these arguments are natural numbers.
use epoch_io.Common.Tests.{ltb, ◌==◌, if◌then◌else◌}
use Prim.Native.Nat.{ℕ, zero, suc, ◌+◌, ◌-◌, ◌*◌, ◌/◌, ◌%◌, ◌^◌, ◌<◌, min}
use mathlib.Core.Path.{◌≡◌}
use native.Mathlib.Omega.{arith}

-- The integers, over the native numbers: `negsuc n` is `-(n + 1)`.
pub data ℤ : Type 0 where
  pos : ℕ → ℤ
  negsuc : ℕ → ℤ

abbrev pub neg : ℕ → ℤ
neg zero = pos zero
neg (suc n) = negsuc n

-- `u64::saturating_add_signed`.
unfoldable pub saturating_add_signed : ℕ → ℤ → ℕ
saturating_add_signed x (pos n) = min (x + n) (2 ^ 64 - 1)
saturating_add_signed x (negsuc n) = x - (n + 1)

-- Rounding to a multiple of `unit`, ties to the even one.
abbrev pub round_at : ℕ → ℕ → ℕ
round_at unit n =
    if ltb (n % unit * 2) unit
    then n / unit * unit
    else if ltb unit (n % unit * 2)
    then (n / unit + 1) * unit
    else if n / unit % 2 == 0
    then n / unit * unit
    else (n / unit + 1) * unit

-- The unit doubles until 53 bits hold the quotient; twelve rounds do for 64 bits.
unfoldable pub round_loop : ℕ → ℕ → ℕ → ℕ
round_loop zero unit n = n
round_loop (suc fuel) unit n =
    let wider = round_loop fuel (unit * 2) n in
    if ltb n (2 ^ 53 * unit) then round_at unit n else wider

unfoldable pub as_f64 : ℕ → ℕ
unfolding round_loop
as_f64 n = round_loop 12 1 n

pub as_f64-exact : (n : ℕ) → n < 2 ^ 53 → as_f64 n ≡ n
unfolding as_f64 round_loop
as_f64-exact n h = ground arith

pub saturating_back :
    (x d : ℕ)
    → x + d < 2 ^ 64
    → (saturating_add_signed x (pos d) ≡ x + d)
      × (saturating_add_signed (saturating_add_signed x (pos d)) (neg d) ≡ x)
unfolding saturating_add_signed
saturating_back x zero h = ground arith
saturating_back x (suc d) h = ground arith
