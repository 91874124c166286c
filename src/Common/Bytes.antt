-- ===== src/Common/Bytes.antt =====
-- Bytes are numbers below 256 and a byte slice is a list of them. `to_le_bytes`, `to_be_bytes`,
-- their inverses and `copy_from_slice` are the standard library's; `n` is the width in bytes.
use epoch_io.Common.Lists.{length, take, drop, All, length-append}
use Prim.Native.Nat.{ℕ, zero, suc, ◌+◌, ◌*◌, ◌/◌, ◌%◌, ◌^◌, ◌<◌}
use mathlib.Core.Path.{◌≡◌, refl, sym, ap, ◌∙◌}
use mathlib.Core.Logic.{inl, inr}
use mathlib.Core.List.{List, [], ◌∷◌, ◌++◌}
use epoch_io.Common.Tests.{Bool-cases, ◌==◌, if◌then◌else◌}
use mathlib.Core.Bool.{Bool, true, false}
use native.Mathlib.Omega.{arith}

abbrev pub IsByte : ℕ → Type 0
IsByte b = b < 256

abbrev pub to_le_bytes : ℕ → ℕ → List ℕ
to_le_bytes zero v = []
to_le_bytes (suc n) v = (v % 256) ∷ to_le_bytes n (v / 256)

abbrev pub from_le_bytes : List ℕ → ℕ
from_le_bytes [] = 0
from_le_bytes (b ∷ bs) = b + 256 * from_le_bytes bs

abbrev pub to_be_bytes : ℕ → ℕ → List ℕ
to_be_bytes zero v = []
to_be_bytes (suc n) v = to_be_bytes n (v / 256) ++ ((v % 256) ∷ [])

abbrev pub from_be_bytes_acc : ℕ → List ℕ → ℕ
from_be_bytes_acc acc [] = acc
from_be_bytes_acc acc (b ∷ bs) = from_be_bytes_acc (acc * 256 + b) bs

abbrev pub from_be_bytes : List ℕ → ℕ
from_be_bytes bs = from_be_bytes_acc 0 bs

-- `buf[off..off + src.len()].copy_from_slice(src)`.
abbrev pub copy_at : ℕ → List ℕ → List ℕ → List ℕ
copy_at off src buf = take off buf ++ (src ++ drop (off + length src) buf)

-- `buf[off..off + n]`.
abbrev pub read_at : ℕ → ℕ → List ℕ → List ℕ
read_at off n buf = take n (drop off buf)

pub length-to_le_bytes : (n v : ℕ) → length (to_le_bytes n v) ≡ n
length-to_le_bytes zero v = refl
length-to_le_bytes (suc n) v = ap suc (length-to_le_bytes n (v / 256))

pub length-to_be_bytes : (n v : ℕ) → length (to_be_bytes n v) ≡ n
length-to_be_bytes zero v = refl
length-to_be_bytes (suc n) v =
    length-append (to_be_bytes n (v / 256)) ((v % 256) ∷ [])
    ∙ omega (arith, length-to_be_bytes n (v / 256))

from_be_bytes_acc-append :
    (acc : ℕ) (xs ys : List ℕ)
    → from_be_bytes_acc acc (xs ++ ys) ≡ from_be_bytes_acc (from_be_bytes_acc acc xs) ys
from_be_bytes_acc-append acc [] ys = refl
from_be_bytes_acc-append acc (x ∷ xs) ys = from_be_bytes_acc-append (acc * 256 + x) xs ys

pub from_be_bytes-to_be_bytes : (n v : ℕ) → v < 256 ^ n → from_be_bytes (to_be_bytes n v) ≡ v
from_be_bytes-to_be_bytes zero v h = omega arith
from_be_bytes-to_be_bytes (suc n) v h =
    from_be_bytes_acc-append 0 (to_be_bytes n (v / 256)) ((v % 256) ∷ [])
    ∙ omega (arith, from_be_bytes-to_be_bytes n (v / 256) (omega arith))

pub to_le_bytes-IsByte : (n v : ℕ) → All IsByte (to_le_bytes n v)
to_le_bytes-IsByte zero v = tt
to_le_bytes-IsByte (suc n) v = (omega arith, to_le_bytes-IsByte n (v / 256))

pub from_le_bytes-to_le_bytes : (n v : ℕ) → v < 256 ^ n → from_le_bytes (to_le_bytes n v) ≡ v
from_le_bytes-to_le_bytes zero v h = omega arith
from_le_bytes-to_le_bytes (suc n) v h =
    omega (arith, from_le_bytes-to_le_bytes n (v / 256) (omega arith))

pow_256 : (n : ℕ) → 256 ^ suc n ≡ 256 * 256 ^ n
pow_256 n = omega arith

pub from_le_bytes-lt : (bs : List ℕ) → All IsByte bs → from_le_bytes bs < 256 ^ length bs
from_le_bytes-lt [] h = omega arith
from_le_bytes-lt (b ∷ bs) (hb, hbs) = omega (arith, from_le_bytes-lt bs hbs, pow_256 (length bs))

pub to_le_bytes-from_le_bytes :
    (bs : List ℕ) → All IsByte bs → to_le_bytes (length bs) (from_le_bytes bs) ≡ bs
to_le_bytes-from_le_bytes [] h = refl
to_le_bytes-from_le_bytes (b ∷ bs) (hb, hbs) =
    let q : (b + 256 * from_le_bytes bs) / 256 ≡ from_le_bytes bs = omega arith in
    let r : (b + 256 * from_le_bytes bs) % 256 ≡ b = omega arith in
    rw (q, r) (ap (◌∷◌ b) (to_le_bytes-from_le_bytes bs hbs))

-- `==` on byte slices.
unfoldable pub bytes_eq : List ℕ → List ℕ → Bool
bytes_eq [] [] = true
bytes_eq [] (y ∷ ys) = false
bytes_eq (x ∷ xs) [] = false
bytes_eq (x ∷ xs) (y ∷ ys) = if x == y then bytes_eq xs ys else false

pub bytes_eq_refl : (xs : List ℕ) → bytes_eq xs xs ≡ true
unfolding bytes_eq
bytes_eq_refl [] = refl
bytes_eq_refl (x ∷ xs) = ground (arith, bytes_eq_refl xs)

pub bytes_eq→eq : (xs ys : List ℕ) → bytes_eq xs ys ≡ true → xs ≡ ys
unfolding bytes_eq
bytes_eq→eq [] [] h = refl
bytes_eq→eq [] (y ∷ ys) h = ground arith
bytes_eq→eq (x ∷ xs) [] h = ground arith
bytes_eq→eq (x ∷ xs) (y ∷ ys) h = ground (arith, bytes_eq→eq xs ys)

-- Equal keys are found alike.
pub bytes_eq_at : (k i j : List ℕ) → bytes_eq k j ≡ true → bytes_eq i k ≡ bytes_eq i j
bytes_eq_at k i j e = ap (bytes_eq i) (bytes_eq→eq k j e)

pub bytes_eq_other :
    (k i j : List ℕ) → bytes_eq k j ≡ false → bytes_eq i j ≡ true → bytes_eq i k ≡ false
bytes_eq_other k i j ne e = elim (Bool-cases (bytes_eq i k)) [
  | inl p ↦ cc (ne, sym (ap (λ t. bytes_eq t j) (bytes_eq→eq i k p)) ∙ e)
  | inr p ↦ p
]
