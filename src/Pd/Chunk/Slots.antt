-- ===== src/Pd/Chunk/Slots.antt =====
-- The shard slots that crates/epoch-pd/src/chunk/manager.rs composes, bumps and rebinds.
use epoch_io.Common.{
  ℕ, suc, ◌+◌, ◌*◌, ◌^◌, ◌<◌, ◌≤◌, ◌≡◌, refl, sym, ap, subst, ◌∙◌, arith, true, some, List, [], ◌∷◌,
  Result, ok, err, ◌>>=◌, ltb, leb, ◌==◌, length, Bool-cases, inl, inr,
}
use epoch_io.Common.Bits.{bit_or_disjoint}
use epoch_io.Pd.Records.{SmError, epoch_overflow}
use epoch_io.Pd.Chunk.{
  ShardSlot, shard_id, slot_index, compose_slot, rebump_slot, rebump_loop, epoch_jump, find_slot,
  replace_slot,
}
use epoch_io.Proto.Id as PackedId
use epoch_io.Proto.Id.Fields.{
  packed, try_new-packed, try_new-internal, shard_prefix-high, index-mid, extent_id_fields,
}
use Prim.Native.Nat.{bit_or}

-- The slot of shard `i` of a chunk: the prefix is the shard's id without its epoch, and the extent
-- is named after the whole id.
abbrev pub IsSlot : ℕ → ℕ → ShardSlot → Type 0
IsSlot chunk i s =
    (s.shard_prefix ≡ packed chunk i 0)
    × (s.epoch ≤ PackedId.max_shard_epoch)
    × ((ts : ℕ) × (ts < 2 ^ 64) × (s.extent_id ≡ PackedId.extent_id (packed chunk i s.epoch) ts))

-- Slots of the shards from `i` on, in order.
abbrev pub IsShards : ℕ → ℕ → List ShardSlot → Type 0
IsShards chunk i [] = Unit {0}
IsShards chunk i (s ∷ ss) = IsSlot chunk i s × IsShards chunk (suc i) ss

prefix_of :
    (chunk i e : ℕ)
    → chunk < 2 ^ 32
    → i < 2 ^ 8
    → e ≤ PackedId.max_shard_epoch
    → PackedId.shard_prefix (packed chunk i e) ≡ packed chunk i 0
prefix_of chunk i e hc hi he = omega (arith, shard_prefix-high (packed chunk i e) (omega arith))

pub compose_slot-IsSlot :
    (chunk i e disk ts : ℕ) (s : ShardSlot)
    → chunk < 2 ^ 32
    → i < 2 ^ 8
    → ts < 2 ^ 64
    → compose_slot chunk i e disk ts ≡ ok s
    → IsSlot chunk i s × (s.epoch ≡ e) × (s.disk_id ≡ disk)
compose_slot-IsSlot chunk i e disk ts s hc hi ht h =
    elim (Bool-cases (leb e PackedId.max_shard_epoch)) [
      | inr q ↦ overflow (try_new-internal chunk i e (ground arith))
      | inl q ↦
          let le : e ≤ PackedId.max_shard_epoch = ground arith in
          fits le (composed (try_new-packed chunk i e hc hi le))
    ]
  where
    overflow :
        PackedId.try_new chunk i e ≡ err PackedId.internal
        → IsSlot chunk i s × (s.epoch ≡ e) × (s.disk_id ≡ disk)
    overflow f = cc (sym (refused f) ∙ h)
      where
        refused :
            PackedId.try_new chunk i e ≡ err PackedId.internal
            → compose_slot chunk i e disk ts ≡ err epoch_overflow
        refused f = unfold compose_slot in rw (f, compose_slot)

    built : ShardSlot
    built = record {
      shard_prefix = PackedId.shard_prefix (packed chunk i e);
      epoch = e;
      disk_id = disk;
      extent_id = PackedId.extent_id (packed chunk i e) ts;
    }

    composed :
        PackedId.try_new chunk i e ≡ ok (packed chunk i e)
        → compose_slot chunk i e disk ts ≡ ok built
    composed f = unfold compose_slot in rw (f, compose_slot)

    fits :
        e ≤ PackedId.max_shard_epoch
        → compose_slot chunk i e disk ts ≡ ok built
        → IsSlot chunk i s × (s.epoch ≡ e) × (s.disk_id ≡ disk)
    fits le p =
        let q : built ≡ s = cc (h, p) in
        subst (λ x. IsSlot chunk i x × (x.epoch ≡ e) × (x.disk_id ≡ disk)) q
          ((prefix_of chunk i e hc hi le, le, (ts, ht, refl)), refl, refl)

-- A slot knows its own index.
pub slot_index-IsSlot :
    (chunk i : ℕ) (s : ShardSlot) → chunk < 2 ^ 32 → i < 2 ^ 8 → IsSlot chunk i s → slot_index s ≡ i
slot_index-IsSlot chunk i s hc hi (p, le, _) =
    let c : chunk * 2 ^ 32 + i * 2 ^ 24 ≡ (chunk * 2 ^ 8 + i) * 2 ^ 24 = omega arith in
    let o : bit_or s.shard_prefix s.epoch ≡ packed chunk i s.epoch =
      ap (λ x. bit_or x s.epoch) (p ∙ omega arith ∙ c)
      ∙ bit_or_disjoint 24 (chunk * 2 ^ 8 + i) s.epoch (omega arith)
      ∙ omega arith in
    opened ∙ ap PackedId.index o ∙ index-mid (packed chunk i s.epoch) ∙ omega arith
  where
    opened : slot_index s ≡ PackedId.index (bit_or s.shard_prefix s.epoch)
    opened = unfold slot_index shard_id in refl

extent_ts-lt :
    (shard ts : ℕ)
    → shard < 2 ^ 64
    → ts < 2 ^ 64
    → PackedId.extent_create_ts (PackedId.extent_id shard ts) < 2 ^ 64
extent_ts-lt shard ts hs ht =
    let (_, _, e) = extent_id_fields shard ts hs ht in subst (λ n. n < 2 ^ 64) (sym e) ht

-- A slot bumped after a crash: the same shard on the same disk, three epochs on.
abbrev pub IsBumped : ℕ → ℕ → ShardSlot → ShardSlot → Type 0
IsBumped chunk i s t = IsSlot chunk i t × (t.epoch ≡ s.epoch + epoch_jump) × (t.disk_id ≡ s.disk_id)

rebump_slot-IsBumped :
    (chunk i : ℕ) (s t : ShardSlot)
    → chunk < 2 ^ 32
    → i < 2 ^ 8
    → IsSlot chunk i s
    → rebump_slot chunk s ≡ ok t
    → IsBumped chunk i s t
rebump_slot-IsBumped chunk i s t hc hi h e =
    let (p, le, (ts, ht, x)) = h in
    let small : packed chunk i s.epoch < 2 ^ 64 = omega arith in
    let stamp : PackedId.extent_create_ts s.extent_id < 2 ^ 64 =
      subst (λ b. PackedId.extent_create_ts b < 2 ^ 64) (sym x)
        (extent_ts-lt (packed chunk i s.epoch) ts small ht) in
    compose_slot-IsSlot chunk i (s.epoch + epoch_jump) s.disk_id
      (PackedId.extent_create_ts s.extent_id) t hc hi stamp (sym (opened (ground arith)) ∙ e)
  where
    opened :
        ltb (s.epoch + epoch_jump) (2 ^ 32) ≡ true
        → rebump_slot chunk s
          ≡ compose_slot chunk i
              (s.epoch + epoch_jump)
              s.disk_id
              (PackedId.extent_create_ts s.extent_id)
    opened q =
        unfold rebump_slot in
        rw q (
          ap
            (λ n.
              compose_slot chunk n (s.epoch + epoch_jump) s.disk_id
                (PackedId.extent_create_ts s.extent_id))
            (slot_index-IsSlot chunk i s hc hi h))

-- Of each slot its bumped one.
abbrev pub AllBumped : ℕ → ℕ → List ShardSlot → List ShardSlot → Type 0
AllBumped chunk i [] [] = Unit {0}
AllBumped chunk i [] (t ∷ ts) = ⊥
AllBumped chunk i (s ∷ ss) [] = ⊥
AllBumped chunk i (s ∷ ss) (t ∷ ts) = IsBumped chunk i s t × AllBumped chunk (suc i) ss ts

-- A loop of fallible steps that went through did so at each step.
pub bind-ok :
    {A B : Type 0} (x : Result SmError A) (f : A → Result SmError B) (b : B)
    → (x >>= f) ≡ ok b
    → (a : A) × (x ≡ ok a) × (f a ≡ ok b)
bind-ok (ok a) f b h = (a, refl, h)
bind-ok (err e) f b h = cc

rebump_loop-cons :
    (chunk : ℕ) (s : ShardSlot) (ss ts : List ShardSlot)
    → rebump_loop chunk (s ∷ ss) ≡ ok ts
    → (t : ShardSlot) × (us : List ShardSlot) × (rebump_slot chunk s ≡ ok t)
      × (rebump_loop chunk ss ≡ ok us)
      × (ts ≡ t ∷ us)
unfolding rebump_loop
rebump_loop-cons chunk s ss ts h =
    let (t, e, k) = bind-ok (rebump_slot chunk s) _ ts h in
    let (us, e', q) = bind-ok (rebump_loop chunk ss) _ ts k in (t, us, e, e', cc q)

rebump_loop-nil :
    (chunk i : ℕ) (ts : List ShardSlot) → rebump_loop chunk [] ≡ ok ts → AllBumped chunk i [] ts
unfolding rebump_loop
rebump_loop-nil chunk i [] e = tt
rebump_loop-nil chunk i (t ∷ ts) e = cc

-- Bumping a plan that went through bumps every slot of it.
pub rebump_loop-AllBumped :
    (chunk i : ℕ) (ss ts : List ShardSlot)
    → chunk < 2 ^ 32
    → i + length ss ≤ 2 ^ 8
    → IsShards chunk i ss
    → rebump_loop chunk ss ≡ ok ts
    → AllBumped chunk i ss ts
rebump_loop-AllBumped chunk i [] ts hc hi h e = rebump_loop-nil chunk i ts e
rebump_loop-AllBumped chunk i (s ∷ ss) ts hc hi (h, hs) e =
    let (t, us, first, others, q) = rebump_loop-cons chunk s ss ts e in
    subst (AllBumped chunk i (s ∷ ss)) (sym q) (
      rebump_slot-IsBumped chunk i s t hc (omega arith) h first,
      rebump_loop-AllBumped chunk (suc i) ss us hc (omega arith) hs others,
    )

AllBumped-IsShards :
    (chunk i : ℕ) (ss ts : List ShardSlot)
    → AllBumped chunk i ss ts
    → IsShards chunk i ts × (length ts ≡ length ss)
AllBumped-IsShards chunk i [] [] h = (tt, refl)
AllBumped-IsShards chunk i [] (t ∷ ts) h = absurd h
AllBumped-IsShards chunk i (s ∷ ss) [] h = absurd h
AllBumped-IsShards chunk i (s ∷ ss) (t ∷ ts) ((h, _, _), hs) =
    let (k, e) = AllBumped-IsShards chunk (suc i) ss ts hs in ((h, k), ap suc e)

pub rebump_loop-IsShards :
    (chunk : ℕ) (ss ts : List ShardSlot)
    → chunk < 2 ^ 32
    → length ss ≤ 2 ^ 8
    → IsShards chunk 0 ss
    → rebump_loop chunk ss ≡ ok ts
    → IsShards chunk 0 ts × (length ts ≡ length ss)
rebump_loop-IsShards chunk ss ts hc hl h e =
    AllBumped-IsShards chunk 0 ss ts (rebump_loop-AllBumped chunk 0 ss ts hc (omega arith) h e)

-- A slot that is found is that of the shard asked for.
pub find_slot-IsSlot :
    (chunk i j : ℕ) (ss : List ShardSlot) (s : ShardSlot)
    → chunk < 2 ^ 32
    → i + length ss ≤ 2 ^ 8
    → IsShards chunk i ss
    → find_slot j ss ≡ some s
    → IsSlot chunk j s × (j < 2 ^ 8)
unfolding find_slot
find_slot-IsSlot chunk i j [] s hc hl h e = cc
find_slot-IsSlot chunk i j (t ∷ ts) s hc hl (h, hs) e = elim (Bool-cases (slot_index t == j)) [
  | inl q ↦
      let at_j : i ≡ j = sym (slot_index-IsSlot chunk i t hc (omega arith) h) ∙ ground arith in
      let same : t ≡ s = cc (rw q at e) in
      (subst (λ x. IsSlot chunk j x) same (subst (λ k. IsSlot chunk k t) at_j h), omega arith)
  | inr q ↦ find_slot-IsSlot chunk (suc i) j ts s hc (omega arith) hs (rw q at e)
]

-- Putting a slot of a shard in that shard's place keeps the slots in order.
pub replace_slot-IsShards :
    (chunk i j : ℕ) (t : ShardSlot) (ss : List ShardSlot)
    → chunk < 2 ^ 32
    → i + length ss ≤ 2 ^ 8
    → IsSlot chunk j t
    → IsShards chunk i ss
    → IsShards chunk i (replace_slot j t ss) × (length (replace_slot j t ss) ≡ length ss)
unfolding replace_slot
replace_slot-IsShards chunk i j t [] hc hl ht h = (tt, refl)
replace_slot-IsShards chunk i j t (s ∷ ss) hc hl ht (h, hs) =
    elim (Bool-cases (slot_index s == j)) [
      | inl q ↦
          let at_i : j ≡ i = sym (ground arith) ∙ slot_index-IsSlot chunk i s hc (omega arith) h in
          rw q ((subst (λ k. IsSlot chunk k t) at_i ht, hs), refl)
      | inr q ↦
          let (k, e) = replace_slot-IsShards chunk (suc i) j t ss hc (omega arith) ht hs in
          rw q ((h, k), ap suc e)
    ]
