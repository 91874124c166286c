-- ===== src/Common/Bits.antt =====
-- `|` and `&` of unsigned words at disjoint fields and at masks, as arithmetic.
use Prim.Native.Nat.{ℕ, zero, suc, ◌+◌, ◌-◌, ◌*◌, ◌/◌, ◌%◌, ◌^◌, ◌≤◌, ◌<◌, min, max}
use Prim.Native.Nat.{digits, bit_and, bit_or, bit_and-bitwise, bit_or-bitwise}
use mathlib.Core.Path.{◌≡◌, refl, ap, ◌∙◌}
use native.Mathlib.Omega.{arith}

-- Two counts of digits that both reach the number give the same result.
module _ (rest : ℕ → ℕ) (op : ℕ → ℕ → ℕ) where
  enough_digits : (k l a b : ℕ) → a ≤ k → a ≤ l → digits rest op k a b ≡ digits rest op l a b
  enough_digits zero zero a b hk hl = refl
  enough_digits zero (suc l) zero b hk hl = refl
  enough_digits (suc k) zero zero b hk hl = refl
  enough_digits (suc k) (suc l) zero b hk hl = refl
  enough_digits zero l (suc a) b hk hl = absurd (omega arith)
  enough_digits (suc k) zero (suc a) b hk hl = absurd (omega arith)
  enough_digits (suc k) (suc l) (suc a) b hk hl =
      ap (λ t. t * 2 + op (suc a % 2) (b % 2))
        (enough_digits k l (suc a / 2) (b / 2) (omega arith) (omega arith))

-- The lowest digit.
or_lowest : (a b : ℕ) → bit_or a b ≡ bit_or (a / 2) (b / 2) * 2 + max (a % 2) (b % 2)
or_lowest zero b = omega (arith, bit_or-bitwise 0 b, bit_or-bitwise 0 (b / 2))
or_lowest (suc a) b = omega (
  arith,
  bit_or-bitwise (suc a) b,
  bit_or-bitwise (suc a / 2) (b / 2),
  enough_digits (λ y. y) max a (suc a / 2) (suc a / 2) (b / 2) (omega arith) (omega arith),
)

and_lowest : (a b : ℕ) → bit_and a b ≡ bit_and (a / 2) (b / 2) * 2 + min (a % 2) (b % 2)
and_lowest zero b = omega (arith, bit_and-bitwise 0 b, bit_and-bitwise 0 (b / 2))
and_lowest (suc a) b = omega (
  arith,
  bit_and-bitwise (suc a) b,
  bit_and-bitwise (suc a / 2) (b / 2),
  enough_digits (λ y. 0) min a (suc a / 2) (suc a / 2) (b / 2) (omega arith) (omega arith),
)

bit_or-zero_below : (n a : ℕ) → a ≤ n → bit_or a 0 ≡ a
bit_or-zero_below n zero h = refl
bit_or-zero_below zero (suc a) h = absurd (omega arith)
bit_or-zero_below (suc n) (suc a) h =
    omega (arith, or_lowest (suc a) 0, bit_or-zero_below n (suc a / 2) (omega arith))

bit_and-zero_below : (n a : ℕ) → a ≤ n → bit_and a 0 ≡ 0
bit_and-zero_below n zero h = refl
bit_and-zero_below zero (suc a) h = absurd (omega arith)
bit_and-zero_below (suc n) (suc a) h =
    omega (arith, and_lowest (suc a) 0, bit_and-zero_below n (suc a / 2) (omega arith))

pow_two : (k : ℕ) → (2 ^ suc k ≡ 2 * 2 ^ k) × (1 ≤ 2 ^ k)
pow_two zero = omega arith
pow_two (suc k) = let (e, h) = pow_two k in omega arith

-- A field below `2 ^ k` joined to a multiple of `2 ^ k`.
pub bit_or_disjoint : (k q r : ℕ) → r < 2 ^ k → bit_or (q * 2 ^ k) r ≡ q * 2 ^ k + r
bit_or_disjoint zero q r h =
    let e : r ≡ 0 = omega arith in
    rw e (ap (λ t. bit_or t 0) (omega arith) ∙ bit_or-zero_below q q (omega arith) ∙ omega arith)
bit_or_disjoint (suc k) q r h =
    let p : q * 2 ^ suc k ≡ q * 2 ^ k * 2 = omega (arith, ap (λ t. q * t) (pow_two k).0) in
    let half : q * 2 ^ suc k / 2 ≡ q * 2 ^ k = omega arith in
    or_lowest (q * 2 ^ suc k) r
    ∙ rw half (omega (arith, bit_or_disjoint k q (r / 2) (omega (arith, (pow_two k).0))))

-- The mask of the low `k` bits.
pub bit_and_low : (k q r : ℕ) → r < 2 ^ k → bit_and (q * 2 ^ k + r) (2 ^ k - 1) ≡ r
bit_and_low zero q r h =
    bit_and-zero_below (q * 2 ^ 0 + r) (q * 2 ^ 0 + r) (omega arith) ∙ omega arith
bit_and_low (suc k) q r h =
    let (e, pos) = pow_two k in
    let p : q * 2 ^ suc k ≡ q * 2 ^ k * 2 = omega (arith, ap (λ t. q * t) e) in
    let half : (q * 2 ^ suc k + r) / 2 ≡ q * 2 ^ k + r / 2 = omega arith in
    let mask : (2 ^ suc k - 1) / 2 ≡ 2 ^ k - 1 = omega arith in
    and_lowest (q * 2 ^ suc k + r) (2 ^ suc k - 1)
    ∙ rw (half, mask) (omega (arith, bit_and_low k q (r / 2) (omega arith)))

-- A mask that keeps no bit below `2 ^ k`.
pub bit_and_high :
    (k q m r : ℕ) → r < 2 ^ k → bit_and (q * 2 ^ k + r) (m * 2 ^ k) ≡ bit_and q m * 2 ^ k
bit_and_high zero q m r h =
    let e : q * 2 ^ 0 + r ≡ q = omega arith in
    let e' : m * 2 ^ 0 ≡ m = omega arith in rw (e, e') (omega arith)
bit_and_high (suc k) q m r h =
    let (e, pos) = pow_two k in
    let p : q * 2 ^ suc k ≡ q * 2 ^ k * 2 = omega (arith, ap (λ t. q * t) e) in
    let p' : m * 2 ^ suc k ≡ m * 2 ^ k * 2 = omega (arith, ap (λ t. m * t) e) in
    let half : (q * 2 ^ suc k + r) / 2 ≡ q * 2 ^ k + r / 2 = omega arith in
    let half' : m * 2 ^ suc k / 2 ≡ m * 2 ^ k = omega arith in
    and_lowest (q * 2 ^ suc k + r) (m * 2 ^ suc k)
    ∙ rw (half, half')
        (omega (arith, bit_and_high k q m (r / 2) (omega arith), ap (λ t. bit_and q m * t) e))
