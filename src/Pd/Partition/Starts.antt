-- ===== src/Pd/Partition/Starts.antt =====
-- The starts of the partitions of crates/epoch-pd/src/meta_mgr.rs as coordinates and as route keys.
use epoch_io.Common.{
  ℕ, ◌<◌, ◌≡◌, refl, sym, ap, ap₂, ◌∙◌, arith, Bool, true, false, not, ◌&&◌, List, [], ◌∷◌,
  Bool-cases, inl, inr, if◌then◌else◌,
}
use epoch_io.Common.Lex.{lex_ltb}
use epoch_io.Pd.Bucket.{NsMode}
use epoch_io.Pd.Partition.{
  MetaPartition, ns_tag, after_start, before_end, interval_contains, start_key,
}

-- The least coordinate of the partition, if it has one.
abbrev pub start_coord : MetaPartition → List ℕ
start_coord p =
    (if p.start.unbounded then 0 else p.start.bucket)
    ∷ (if p.start.unbounded then [] else p.start.routing_key)

-- It has one: its start is before its end.
abbrev pub IsProper : MetaPartition → Type 0
IsProper p = before_end p (start_coord p) ≡ true

pub start_key-start_coord : (p : MetaPartition) → start_key p ≡ ns_tag p.ns ∷ start_coord p
unfolding start_key
start_key-start_coord p = refl

nothing_below : (b : ℕ) (k : List ℕ) → lex_ltb (b ∷ k) (0 ∷ []) ≡ false
unfolding lex_ltb
nothing_below b [] = ground arith
nothing_below b (x ∷ k) = ground arith

pub after_start-start_coord :
    (p : MetaPartition) (b : ℕ) (k : List ℕ)
    → after_start p (b ∷ k) ≡ not (lex_ltb (b ∷ k) (start_coord p))
unfolding after_start
after_start-start_coord p b k = elim (Bool-cases p.start.unbounded) [
  | inl e ↦ rw e (sym (ap not (nothing_below b k)))
  | inr e ↦ rw e refl
]

pub from_not : (a : Bool) → not a ≡ true → a ≡ false
from_not true h = cc
from_not false h = refl

pub both : (a b : Bool) → (a && b) ≡ true → (a ≡ true) × (b ≡ true)
both true b h = (refl, h)
both false b h = cc

-- A coordinate is in the interval when it is not before the start, and before the end.
pub interval_contains_parts :
    (p : MetaPartition) (b : ℕ) (k : List ℕ)
    → interval_contains p b k ≡ true
    → (lex_ltb (b ∷ k) (start_coord p) ≡ false) × (before_end p (b ∷ k) ≡ true)
unfolding interval_contains
interval_contains_parts p b k h =
    let (after, before) = both (after_start p (b ∷ k)) (before_end p (b ∷ k)) h in
    (from_not _ (sym (after_start-start_coord p b k) ∙ after), before)

pub interval_contains_intro :
    (p : MetaPartition) (b : ℕ) (k : List ℕ)
    → lex_ltb (b ∷ k) (start_coord p) ≡ false
    → before_end p (b ∷ k) ≡ true
    → interval_contains p b k ≡ true
unfolding interval_contains
interval_contains_intro p b k after before =
    ap₂ (λ x y. x && y) (after_start-start_coord p b k ∙ ap not after) before

pub lex_ltb-tail : (x : ℕ) (xs ys : List ℕ) → lex_ltb (x ∷ xs) (x ∷ ys) ≡ lex_ltb xs ys
unfolding lex_ltb
lex_ltb-tail x xs ys = ground arith

pub lex_ltb-head_ge : (x y : ℕ) (xs ys : List ℕ) → y < x → lex_ltb (x ∷ xs) (y ∷ ys) ≡ false
unfolding lex_ltb
lex_ltb-head_ge x y xs ys h = ground arith

pub ns_tag-injective : (a b : NsMode) → ns_tag a ≡ ns_tag b → a ≡ b
unfolding ns_tag
ns_tag-injective NsMode.flat NsMode.flat h = refl
ns_tag-injective NsMode.flat NsMode.hier h = absurd (omega arith)
ns_tag-injective NsMode.hier NsMode.flat h = absurd (omega arith)
ns_tag-injective NsMode.hier NsMode.hier h = refl
