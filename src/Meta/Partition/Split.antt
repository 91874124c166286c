-- ===== src/Meta/Partition/Split.antt =====
-- What a split of crates/epoch-meta/src/partition/mod.rs leaves in the two children.
use epoch_io.Common.{
  ◌≡◌, refl, sym, ap, ◌∙◌, arith, true, false, not, ◌&&◌, some, Bool-cases, Option-cases, inl, inr,
}
use epoch_io.Meta.Partition.{
  Coord, PartitionRange, contains_coord, after_start, before_end, is_start, split, coord_ltb,
  coord_eq,
}
use epoch_io.Meta.Partition.Coord.{
  coord_ltb_irrefl, coord_ltb_trans, coord_ltb_connex, coord_ltb_before,
}

-- The two children.
abbrev pub left_of : PartitionRange → Coord → PartitionRange
left_of p c = record { ns = p.ns; start = p.start; end = some c }

abbrev pub right_of : PartitionRange → Coord → PartitionRange
right_of p c = record { ns = p.ns; start = some c; end = p.end }

pub split-cases :
    (p : PartitionRange) (c : Coord) (l r : PartitionRange)
    → split p c ≡ some (l, r)
    → (contains_coord p c ≡ true)
      × (is_start p.start c ≡ false)
      × (l ≡ left_of p c)
      × (r ≡ right_of p c)
unfolding split
split-cases p c l r h = elim (Bool-cases (contains_coord p c)) [
  | inr e ↦ cc (rw e at h)
  | inl e ↦ elim (Bool-cases (is_start p.start c)) [
    | inl s ↦ cc (rw (e, s) at h)
    | inr s ↦ let q = rw (e, s) at h in (e, s, cc q, cc q)
  ]
]

-- Below a boundary inside the interval there is no end to check, at or above it no start.
left_contains :
    (p : PartitionRange) (at_coord c : Coord)
    → before_end p.end at_coord ≡ true
    → contains_coord (left_of p at_coord) c ≡ (contains_coord p c && coord_ltb c at_coord)
unfolding contains_coord before_end after_start
left_contains p a c h = elim (Option-cases p.end) [
  | inl e ↦ rw e (ground arith)
  | inr (x, e) ↦ let q = rw e at h in rw e (ground (arith, coord_ltb_trans c a x))
]

right_contains :
    (p : PartitionRange) (at_coord c : Coord)
    → after_start p.start at_coord ≡ true
    → contains_coord (right_of p at_coord) c ≡ (contains_coord p c && not (coord_ltb c at_coord))
unfolding contains_coord after_start before_end
right_contains p a c h = elim (Option-cases p.start) [
  | inl e ↦ rw e (ground arith)
  | inr (x, e) ↦ let q = rw e at h in rw e (ground (arith, coord_ltb_before c a x))
]

-- A coordinate of the interval belongs to exactly one child: the left one below the boundary, the
-- right one from it on; other coordinates belong to neither.
pub split-partitions :
    (p l r : PartitionRange) (at_coord c : Coord)
    → split p at_coord ≡ some (l, r)
    → (contains_coord l c ≡ (contains_coord p c && coord_ltb c at_coord))
      × (contains_coord r c ≡ (contains_coord p c && not (coord_ltb c at_coord)))
split-partitions p l r a c h =
    let (inside, _, el, er) = split-cases p a l r h in
    let (lo, hi) = bounds p a inside in
    (
      ap (λ q. contains_coord q c) el ∙ left_contains p a c hi,
      ap (λ q. contains_coord q c) er ∙ right_contains p a c lo,
    )
  where
    bounds :
        (p : PartitionRange) (a : Coord)
        → contains_coord p a ≡ true
        → (after_start p.start a ≡ true) × (before_end p.end a ≡ true)
    bounds p a e = unfold contains_coord in ground arith

-- Neither child is empty: the boundary is the right one's, the old start the left one's.
split-occupied :
    (p l r : PartitionRange) (at_coord s : Coord)
    → split p at_coord ≡ some (l, r)
    → p.start ≡ some s
    → (contains_coord l s ≡ true) × (contains_coord r at_coord ≡ true)
split-occupied p l r a s h e =
    let (inside, off, el, er) = split-cases p a l r h in
    let (le, ri) = split-partitions p l r a a h in
    (
      ap (λ q. contains_coord q s) el ∙ start_left p a s e inside off,
      ri ∙ (rw (inside, coord_ltb_irrefl a) refl),
    )
  where
    start_left :
        (p : PartitionRange) (a s : Coord)
        → p.start ≡ some s
        → contains_coord p a ≡ true
        → is_start p.start a ≡ false
        → contains_coord (left_of p a) s ≡ true
    start_left p a s e inside off =
        let off' : coord_eq s a ≡ false = ap (λ o. is_start o a) (sym e) ∙ off in
        unfold contains_coord after_start before_end in
        rw e (ground (arith, coord_ltb_connex a s, coord_ltb_irrefl s))
