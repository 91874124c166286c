-- ===== src/Meta/Partition/Coord.antt =====
-- The order on the coordinates of crates/epoch-meta/src/partition/mod.rs, and on the keys that embed
-- them.
use epoch_io.Common.{
  ℕ, ◌^◌, ◌<◌, ◌≡◌, refl, ap, ap₂, ◌∙◌, arith, Bool, true, false, List, ◌∷◌, ◌++◌, Bool-cases, inl,
  inr, ltb, ◌==◌, if◌then◌else◌,
}
use epoch_io.Common.Bytes.{to_be_bytes, bytes_eq, bytes_eq→eq, bytes_eq_refl}
use epoch_io.Common.Lex.{
  lex_ltb, first_by, lex_ltb-append, lex_ltb-to_be_bytes, lex_ltb_irrefl, lex_ltb_trans,
  lex_ltb_asym, lex_ltb_connex,
}
use epoch_io.Meta.Keys.{MetaCf, tag}
use epoch_io.Meta.Partition.{Coord, coord_ltb, coord_eq, cf_bound}

pub coord_ltb_irrefl : (c : Coord) → coord_ltb c c ≡ false
unfolding coord_ltb
coord_ltb_irrefl (a, x) = ground (arith, lex_ltb_irrefl x)

pub coord_ltb_asym : (c d : Coord) → coord_ltb c d ≡ true → coord_ltb d c ≡ false
unfolding coord_ltb
coord_ltb_asym (a, x) (b, y) h = ground (arith, lex_ltb_asym x y)

pub coord_ltb_trans :
    (c d e : Coord) → coord_ltb c d ≡ true → coord_ltb d e ≡ true → coord_ltb c e ≡ true
unfolding coord_ltb
coord_ltb_trans (a, x) (b, y) (c, z) h k = ground (arith, lex_ltb_trans x y z)

lex_ltb_total : (x y : List ℕ) → bytes_eq y x ≡ false → lex_ltb x y ≡ false → lex_ltb y x ≡ true
lex_ltb_total x y ne h = elim (Bool-cases (lex_ltb y x)) [
  | inl e ↦ e
  | inr e ↦ cc (ne, ap (λ t. bytes_eq t x) (lex_ltb_connex y x e h), bytes_eq_refl x)
]

pub coord_ltb_connex :
    (c d : Coord) → coord_ltb c d ≡ false → coord_eq d c ≡ false → coord_ltb d c ≡ true
unfolding coord_ltb coord_eq
coord_ltb_connex (a, x) (b, y) h k = ground (arith, lex_ltb_total x y)

coord_eq-eq : (c d : Coord) → coord_eq c d ≡ true → c ≡ d
unfolding coord_eq
coord_eq-eq (a, x) (b, y) h = ap₂ (λ n k. (n, k)) (ground arith) (bytes_eq→eq x y (ground arith))

-- What is below `x` is below all that is not.
pub coord_ltb_before :
    (c a x : Coord) → coord_ltb c x ≡ true → coord_ltb a x ≡ false → coord_ltb c a ≡ true
coord_ltb_before c a x h k = elim (Bool-cases (coord_ltb c a)) [
  | inl e ↦ e
  | inr e ↦ elim (Bool-cases (coord_eq a c)) [
    | inl q ↦ cc (h, k, ap (λ t. coord_ltb t x) (coord_eq-eq a c q))
    | inr q ↦ cc (k, coord_ltb_trans a c x (coord_ltb_connex c a e q) h)
  ]
]

same_head : (p : ℕ) (xs ys : List ℕ) → lex_ltb (p ∷ xs) (p ∷ ys) ≡ lex_ltb xs ys
unfolding lex_ltb
same_head p xs ys = ground arith

by_bucket : (a b : ℕ) (t : Bool) → first_by (ltb a b) (ltb b a) t ≡ (if a == b then t else ltb a b)
by_bucket a b t = ground arith

-- Keys of one family sort by their coordinates.
pub cf_bound-order :
    (cf : MetaCf) (c d : Coord)
    → c.0 < 2 ^ 64
    → d.0 < 2 ^ 64
    → lex_ltb (cf_bound cf c) (cf_bound cf d) ≡ coord_ltb c d
unfolding cf_bound coord_ltb
cf_bound-order cf (a, x) (b, y) ha hb =
    same_head (tag cf) (to_be_bytes 8 a ++ x) (to_be_bytes 8 b ++ y)
    ∙ lex_ltb-append (to_be_bytes 8 a) (to_be_bytes 8 b) x y refl
    ∙ ap₂ (λ l g. first_by l g (lex_ltb x y)) (lex_ltb-to_be_bytes 8 a b ha hb)
        (lex_ltb-to_be_bytes 8 b a hb ha)
    ∙ by_bucket a b (lex_ltb x y)
