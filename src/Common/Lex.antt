-- ===== src/Common/Lex.antt =====
-- The lexicographic order of byte slices (`Ord` for `[u8]`), and what it is on encoded numbers.
use epoch_io.Common.Lists.{length}
use epoch_io.Common.Tests.{ltb, ◌==◌, if◌then◌else◌}
use epoch_io.Common.Bytes.{to_be_bytes, length-to_be_bytes}
use Prim.Native.Nat.{ℕ, zero, suc, ◌/◌, ◌%◌, ◌^◌, ◌<◌}
use mathlib.Core.Path.{◌≡◌, refl, sym, ◌∙◌}
use mathlib.Core.Bool.{Bool, true, false}
use mathlib.Core.List.{List, [], ◌∷◌, ◌++◌}
use native.Mathlib.Omega.{arith}

-- `xs < ys`.
unfoldable pub lex_ltb : List ℕ → List ℕ → Bool
lex_ltb [] [] = false
lex_ltb [] (y ∷ ys) = true
lex_ltb (x ∷ xs) [] = false
lex_ltb (x ∷ xs) (y ∷ ys) = if ltb x y then true else if x == y then lex_ltb xs ys else false

-- Behind prefixes of one length the order is decided by the prefixes first.
abbrev pub first_by : Bool → Bool → Bool → Bool
first_by less greater rest = if less then true else if greater then false else rest

pub lex_ltb-append :
    (ps qs xs ys : List ℕ)
    → length ps ≡ length qs
    → lex_ltb (ps ++ xs) (qs ++ ys) ≡ first_by (lex_ltb ps qs) (lex_ltb qs ps) (lex_ltb xs ys)
unfolding lex_ltb
lex_ltb-append [] [] xs ys h = refl
lex_ltb-append [] (q ∷ qs) xs ys h = absurd (omega arith)
lex_ltb-append (p ∷ ps) [] xs ys h = absurd (omega arith)
lex_ltb-append (p ∷ ps) (q ∷ qs) xs ys h = ground (arith, lex_ltb-append ps qs xs ys (omega arith))

lex_ltb-single : (x y : ℕ) → lex_ltb (x ∷ []) (y ∷ []) ≡ ltb x y
unfolding lex_ltb
lex_ltb-single x y = ground arith

lex_ltb-nil : lex_ltb [] [] ≡ false
unfolding lex_ltb
lex_ltb-nil = refl

pub lex_ltb-to_be_bytes :
    (n a b : ℕ) → a < 256 ^ n → b < 256 ^ n → lex_ltb (to_be_bytes n a) (to_be_bytes n b) ≡ ltb a b
lex_ltb-to_be_bytes zero a b ha hb = lex_ltb-nil ∙ ground arith
lex_ltb-to_be_bytes (suc n) a b ha hb =
    lex_ltb-append (to_be_bytes n (a / 256)) (to_be_bytes n (b / 256)) _ _
      (length-to_be_bytes n (a / 256) ∙ sym (length-to_be_bytes n (b / 256)))
    ∙ ground (
      arith,
      lex_ltb-single (a % 256) (b % 256),
      lex_ltb-to_be_bytes n (a / 256) (b / 256) (omega arith) (omega arith),
      lex_ltb-to_be_bytes n (b / 256) (a / 256) (omega arith) (omega arith),
    )

pub lex_ltb_irrefl : (xs : List ℕ) → lex_ltb xs xs ≡ false
unfolding lex_ltb
lex_ltb_irrefl [] = refl
lex_ltb_irrefl (x ∷ xs) = ground (arith, lex_ltb_irrefl xs)

-- Of two slices neither of which is smaller, both are the same.
pub lex_ltb_connex : (xs ys : List ℕ) → lex_ltb xs ys ≡ false → lex_ltb ys xs ≡ false → xs ≡ ys
unfolding lex_ltb
lex_ltb_connex [] [] h k = refl
lex_ltb_connex [] (y ∷ ys) h k = ground arith
lex_ltb_connex (x ∷ xs) [] h k = ground arith
lex_ltb_connex (x ∷ xs) (y ∷ ys) h k = ground (arith, lex_ltb_connex xs ys)

pub lex_ltb_trans :
    (xs ys zs : List ℕ) → lex_ltb xs ys ≡ true → lex_ltb ys zs ≡ true → lex_ltb xs zs ≡ true
unfolding lex_ltb
lex_ltb_trans [] [] zs h k = ground arith
lex_ltb_trans [] (y ∷ ys) [] h k = ground arith
lex_ltb_trans [] (y ∷ ys) (z ∷ zs) h k = refl
lex_ltb_trans (x ∷ xs) [] zs h k = ground arith
lex_ltb_trans (x ∷ xs) (y ∷ ys) [] h k = ground arith
lex_ltb_trans (x ∷ xs) (y ∷ ys) (z ∷ zs) h k = ground (arith, lex_ltb_trans xs ys zs)

pub lex_ltb_asym : (xs ys : List ℕ) → lex_ltb xs ys ≡ true → lex_ltb ys xs ≡ false
unfolding lex_ltb
lex_ltb_asym [] [] h = refl
lex_ltb_asym [] (y ∷ ys) h = refl
lex_ltb_asym (x ∷ xs) [] h = ground arith
lex_ltb_asym (x ∷ xs) (y ∷ ys) h = ground (arith, lex_ltb_asym xs ys)
