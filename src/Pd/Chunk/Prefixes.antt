-- ===== src/Pd/Chunk/Prefixes.antt =====
-- The secondary index of crates/epoch-pd/src/chunk/manager.rs, a disk's shard prefixes, as a Boolean
-- relation, and the prefixes that the slots of a chunk have.
use epoch_io.Common.{
  ℕ, suc, ◌+◌, ◌^◌, ◌<◌, ◌≤◌, ◌≡◌, refl, sym, ap, ◌∙◌, arith, Bool, true, false, not, ◌&&◌, ◌||◌,
  Option, none, some, List, [], ◌∷◌, length, any, ◌==◌, ==_iff, Bool-cases, Option-cases, inl, inr,
  ◌⊎◌,
}
use epoch_io.Common.Map.{Map, lookup, insert, remove, lookup-insert, lookup-remove}
use epoch_io.Pd.Chunk.{ShardSlot, slot_index, find_slot, replace_slot}
use epoch_io.Pd.Chunk.Manager.{Prefixes, or_default, add_prefix, drop_prefix, index_shards}
use epoch_io.Pd.Chunk.Slots.{IsSlot, IsShards, slot_index-IsSlot}
use epoch_io.Proto.Id.Fields.{packed}

abbrev pub is_some : {A : Type 0} → Option A → Bool
is_some none = false
is_some (some a) = true

-- Whether the index has the prefix under the disk.
unfoldable pub holds : ℕ → ℕ → Prefixes → Bool
holds disk prefix m = is_some (lookup prefix (or_default (lookup disk m)))

-- Whether a slot has the prefix and is on the disk.
abbrev pub is_at : ℕ → ℕ → ShardSlot → Bool
is_at disk prefix s = s.disk_id == disk && s.shard_prefix == prefix

unfoldable pub has_slot : ℕ → ℕ → List ShardSlot → Bool
has_slot disk prefix ss = any (is_at disk prefix) ss

abbrev same : ℕ → ℕ → ℕ → ℕ → Bool
same disk prefix d p = disk == d && prefix == p

set_insert :
    (p q : ℕ) (set : Map (Unit {0}))
    → is_some (lookup p (insert q tt set)) ≡ (q == p || is_some (lookup p set))
set_insert p q set = ground (arith, lookup-insert q p tt set)

set_remove :
    (p q : ℕ) (set : Map (Unit {0}))
    → is_some (lookup p (remove q set)) ≡ (not (q == p) && is_some (lookup p set))
set_remove p q set = ground (arith, lookup-remove q p set)

put_here :
    (disk d : ℕ) (set : Map (Unit {0})) (m : Prefixes)
    → (d == disk) ≡ true
    → lookup d (insert disk set m) ≡ some set
put_here disk d set m e = ground (arith, lookup-insert disk d set m)

put_there :
    (disk d : ℕ) (set : Map (Unit {0})) (m : Prefixes)
    → (d == disk) ≡ false
    → lookup d (insert disk set m) ≡ lookup d m
put_there disk d set m e = ground (arith, lookup-insert disk d set m)

pub holds-add_prefix :
    (d p disk prefix : ℕ) (m : Prefixes)
    → holds d p (add_prefix disk prefix m) ≡ (same disk prefix d p || holds d p m)
unfolding holds add_prefix
holds-add_prefix d p disk prefix m = elim (Bool-cases (d == disk)) [
  | inl e ↦
      let q : d ≡ disk = ground arith in
      let back : (disk == d) ≡ true = ground arith in
      ap (λ o. is_some (lookup p (or_default o))) (put_here disk d _ m e)
      ∙ set_insert p prefix (or_default (lookup disk m))
      ∙ ap (λ k. prefix == p || is_some (lookup p (or_default (lookup k m)))) (sym q)
      ∙ ap (λ b. (b && prefix == p) || is_some (lookup p (or_default (lookup d m)))) (sym back)
  | inr e ↦
      let back : (disk == d) ≡ false = ground arith in
      ap (λ o. is_some (lookup p (or_default o))) (put_there disk d _ m e)
      ∙ ap (λ b. (b && prefix == p) || is_some (lookup p (or_default (lookup d m)))) (sym back)
]

pub holds-drop_prefix :
    (d p disk prefix : ℕ) (m : Prefixes)
    → holds d p (drop_prefix disk prefix m) ≡ (holds d p m && not (same disk prefix d p))
unfolding holds drop_prefix
holds-drop_prefix d p disk prefix m = elim (Option-cases (lookup disk m)) [
  | inl e ↦ rw e (absent e (Bool-cases (disk == d)))
  | inr (set, e) ↦ rw e (present set e (Bool-cases (disk == d)))
]
  where
    absent :
        lookup disk m ≡ none
        → ((disk == d) ≡ true) ⊎ ((disk == d) ≡ false)
        → is_some (lookup p (or_default (lookup d m)))
          ≡ (is_some (lookup p (or_default (lookup d m))) && not (same disk prefix d p))
    absent e (inl q) =
        let gone : lookup d m ≡ none = ap (λ k. lookup k m) (sym ((==_iff disk d).0 q)) ∙ e in
        rw gone (unfold lookup in refl)
    absent e (inr q) = rw q (ground arith)

    present :
        (set : Map (Unit {0}))
        → lookup disk m ≡ some set
        → ((disk == d) ≡ true) ⊎ ((disk == d) ≡ false)
        → is_some (lookup p (or_default (lookup d (insert disk (remove prefix set) m))))
          ≡ (is_some (lookup p (or_default (lookup d m))) && not (same disk prefix d p))
    present set e (inl q) =
        let at_d : lookup d m ≡ some set = ap (λ k. lookup k m) (sym ((==_iff disk d).0 q)) ∙ e in
        let back : (d == disk) ≡ true = ground arith in
        ap (λ o. is_some (lookup p (or_default o))) (put_here disk d (remove prefix set) m back)
        ∙ set_remove p prefix set
        ∙ rw (at_d, q) (ground arith)
    present set e (inr q) =
        let back : (d == disk) ≡ false = ground arith in
        ap (λ o. is_some (lookup p (or_default o))) (put_there disk d (remove prefix set) m back)
        ∙ rw q (ground arith)

pub holds-index_shards :
    (d p : ℕ) (ss : List ShardSlot) (m : Prefixes)
    → holds d p (index_shards ss m) ≡ (has_slot d p ss || holds d p m)
unfolding index_shards has_slot
holds-index_shards d p [] m = refl
holds-index_shards d p (s ∷ ss) m =
    holds-index_shards d p ss (add_prefix s.disk_id s.shard_prefix m)
    ∙ ground (arith, holds-add_prefix d p s.disk_id s.shard_prefix m)

-- The prefix of a slot is that of one of the chunk's shards.
pub has_slot-packed :
    (chunk i d p : ℕ) (ss : List ShardSlot)
    → IsShards chunk i ss
    → has_slot d p ss ≡ true
    → (j : ℕ) × (i ≤ j) × (j < i + length ss) × (p ≡ packed chunk j 0)
unfolding has_slot
has_slot-packed chunk i d p [] h e = cc
has_slot-packed chunk i d p (s ∷ ss) ((q, _, _), hs) e = elim (Bool-cases (is_at d p s)) [
  | inl here ↦ (i, omega arith, omega arith, sym (ground arith) ∙ q)
  | inr off ↦
      let (j, lo, hi, r) = has_slot-packed chunk (suc i) d p ss hs (rw off at e) in
      (j, omega arith, omega arith, r)
]

later_off :
    (chunk i n d p : ℕ) (ss : List ShardSlot)
    → IsShards chunk i ss
    → n < i
    → p ≡ packed chunk n 0
    → has_slot d p ss ≡ false
later_off chunk i n d p ss hs lt q = elim (Bool-cases (has_slot d p ss)) [
  | inr e ↦ e
  | inl e ↦
      let (j, lo, hi, r) = has_slot-packed chunk i d p ss hs e in
      let clash : packed chunk n 0 ≡ packed chunk j 0 = sym q ∙ r in absurd (omega arith)
]

pub prefix_at : (d p : ℕ) (s : ShardSlot) → is_at d p s ≡ true → s.shard_prefix ≡ p
prefix_at d p s h = ground arith

-- Putting a rebuilt slot in its shard's place takes the old slot out and puts the new one in.
pub has_slot-replace_slot :
    (chunk i j d p : ℕ) (t old : ShardSlot) (ss : List ShardSlot)
    → chunk < 2 ^ 32
    → i + length ss ≤ 2 ^ 8
    → IsShards chunk i ss
    → find_slot j ss ≡ some old
    → IsSlot chunk j old
    → has_slot d p (replace_slot j t ss) ≡ (is_at d p t || (has_slot d p ss && not (is_at d p old)))
unfolding has_slot find_slot replace_slot
has_slot-replace_slot chunk i j d p t old [] hc hl hs h ho = cc
has_slot-replace_slot chunk i j d p t old (s ∷ ss) hc hl (hi, hs) h ho =
    elim (Bool-cases (slot_index s == j)) [
      | inl e ↦
          let found : s ≡ old = cc (rw e at h) in
          let alike : is_at d p s ≡ is_at d p old = ap (is_at d p) found in
          rw e (elim (Bool-cases (is_at d p old)) [
            | inl o ↦
                let at_p : p ≡ packed chunk i 0 =
                  sym (prefix_at d p old o) ∙ ap (λ x. x.shard_prefix) (sym found) ∙ hi.0 in
                let off = later_off chunk (suc i) i d p ss hs (omega arith) at_p in
                ground (arith, alike, off, o)
            | inr o ↦ ground (arith, alike, o)
          ])
      | inr e ↦
          let rest =
            has_slot-replace_slot chunk (suc i) j d p t old ss hc (omega arith) hs (rw e at h) ho in
          rw e (elim (Bool-cases (is_at d p s)) [
            | inr q ↦ ground (arith, rest, q)
            | inl q ↦ elim (Bool-cases (is_at d p old)) [
              | inr o ↦ ground (arith, rest, q, o)
              | inl o ↦
                  let clash : packed chunk i 0 ≡ packed chunk j 0 =
                    sym hi.0 ∙ prefix_at d p s q ∙ sym (prefix_at d p old o) ∙ ho.0 in
                  let own = slot_index-IsSlot chunk i s hc (omega arith) hi in
                  absurd (clash_of own clash e)
            ]
          ])
    ]
  where
    clash_of :
        slot_index s ≡ i → packed chunk i 0 ≡ packed chunk j 0 → (slot_index s == j) ≡ false → ⊥
    clash_of own clash e =
        let same_index : i ≡ j = omega arith in
        cc (e, (==_iff (slot_index s) j).1 (own ∙ same_index))
