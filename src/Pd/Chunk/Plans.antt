-- ===== src/Pd/Chunk/Plans.antt =====
-- What a placement plan that passes `validate_slots` of crates/epoch-pd/src/chunk/manager.rs composes to.
use epoch_io.Common.{
  ℕ, suc, ◌+◌, ◌^◌, ◌<◌, ◌≤◌, ◌≡◌, ◌≢◌, refl, sym, ap, subst, ◌∙◌, arith, false, ◌||◌, none, List,
  [], ◌∷◌, ok, leb, ◌==◌, length, any, All, Bool-cases, inl, inr,
}
use epoch_io.Pd.Chunk.{
  ShardSlot, SlotPlan, validate_loop, validate_slots, insert_slot, sort_slots, compose_slot,
  compose_loop, compose_slots,
}
use epoch_io.Pd.Chunk.Slots.{IsSlot, IsShards, compose_slot-IsSlot, bind-ok}
use epoch_io.Proto.CodeMode.{CodeMode, shards_total}

-- The plan's indices are below the total and none is `x`.
abbrev Avoids : ℕ → List SlotPlan → Type 0
Avoids x ps = All (λ p. p.index ≢ x) ps

-- No index twice.
abbrev pub Apart : List SlotPlan → Type 0
Apart [] = Unit {0}
Apart (p ∷ ps) = Avoids p.index ps × Apart ps

any_here : (x : ℕ) (seen : List ℕ) → any (λ i. i == x) seen ≡ false → All (λ i. i ≢ x) seen
any_here x [] h = tt
any_here x (i ∷ seen) h = elim (Bool-cases (i == x)) [
  | inl e ↦ cc (rw e at h)
  | inr e ↦ (ground arith, any_here x seen (rw e at h))
]

validate_loop-cons :
    (total : ℕ) (seen : List ℕ) (p : SlotPlan) (ps : List SlotPlan)
    → validate_loop total seen (p ∷ ps) ≡ none
    → (p.index < total)
      × All (λ i. i ≢ p.index) seen
      × (validate_loop total (p.index ∷ seen) ps ≡ none)
unfolding validate_loop
validate_loop-cons total seen p ps h =
    elim (Bool-cases (leb total p.index || any (λ i. i == p.index) seen)) [
      | inl e ↦ cc (rw e at h)
      | inr e ↦ (ground arith, any_here p.index seen (ground arith), rw e at h)
    ]

-- A plan that passes has no index twice, none seen before, and none past the total.
validate_loop-Apart :
    (total : ℕ) (seen : List ℕ) (ps : List SlotPlan)
    → validate_loop total seen ps ≡ none
    → Apart ps × All (λ p. p.index < total) ps × All (λ i. Avoids i ps) seen
validate_loop-Apart total [] [] h = (tt, tt, tt)
validate_loop-Apart total (i ∷ seen) [] h = (tt, tt, (tt, nothing seen))
  where
    nothing : (seen : List ℕ) → All (λ i. Avoids i []) seen
    nothing [] = tt
    nothing (i ∷ seen) = (tt, nothing seen)
validate_loop-Apart total seen (p ∷ ps) h =
    let (lt, new, rest) = validate_loop-cons total seen p ps h in
    let (apart, below, (fresh, avoids)) = validate_loop-Apart total (p.index ∷ seen) ps rest in
    ((fresh, apart), (lt, below), both p.index seen new avoids)
  where
    both :
        (x : ℕ) (seen : List ℕ)
        → All (λ i. i ≢ x) seen
        → All (λ i. Avoids i ps) seen
        → All (λ i. (x ≢ i) × Avoids i ps) seen
    both x [] h k = tt
    both x (i ∷ seen) (h, hs) (k, ks) = ((λ e. h (sym e), k), both x seen hs ks)

-- Strictly ascending indices from `n` on.
abbrev pub Rising : ℕ → List SlotPlan → Type 0
Rising n [] = Unit {0}
Rising n (p ∷ ps) = (n ≤ p.index) × Rising (suc p.index) ps

insert_slot-All :
    (P : SlotPlan → Type 0) (p : SlotPlan) (ps : List SlotPlan)
    → P p
    → All P ps
    → All P (insert_slot p ps)
unfolding insert_slot
insert_slot-All P p [] h k = (h, tt)
insert_slot-All P p (q ∷ qs) h (k, ks) = elim (Bool-cases (leb p.index q.index)) [
  | inl e ↦ rw e (h, (k, ks))
  | inr e ↦ rw e (k, insert_slot-All P p qs h ks)
]

insert_slot-Rising :
    (n : ℕ) (p : SlotPlan) (ps : List SlotPlan)
    → n ≤ p.index
    → Avoids p.index ps
    → Rising n ps
    → Rising n (insert_slot p ps)
unfolding insert_slot
insert_slot-Rising n p [] h a r = (h, tt)
insert_slot-Rising n p (q ∷ qs) h (ne, a) (lo, r) = elim (Bool-cases (leb p.index q.index)) [
  | inl e ↦ rw e (h, (ground (arith, ne), r))
  | inr e ↦ rw e (lo, insert_slot-Rising (suc q.index) p qs (ground arith) a r)
]

length-insert_slot :
    (p : SlotPlan) (ps : List SlotPlan) → length (insert_slot p ps) ≡ suc (length ps)
unfolding insert_slot
length-insert_slot p [] = refl
length-insert_slot p (q ∷ qs) = ground (arith, length-insert_slot p qs)

sort_slots-All : (P : SlotPlan → Type 0) (ps : List SlotPlan) → All P ps → All P (sort_slots ps)
unfolding sort_slots
sort_slots-All P [] h = tt
sort_slots-All P (p ∷ ps) (h, hs) = insert_slot-All P p (sort_slots ps) h (sort_slots-All P ps hs)

sort_slots-Rising : (ps : List SlotPlan) → Apart ps → Rising 0 (sort_slots ps)
unfolding sort_slots
sort_slots-Rising [] h = tt
sort_slots-Rising (p ∷ ps) (h, hs) =
    insert_slot-Rising 0 p (sort_slots ps) (omega arith)
      (sort_slots-All (λ q. q.index ≢ p.index) ps h) (sort_slots-Rising ps hs)

length-sort_slots : (ps : List SlotPlan) → length (sort_slots ps) ≡ length ps
unfolding sort_slots
length-sort_slots [] = refl
length-sort_slots (p ∷ ps) = length-insert_slot p (sort_slots ps) ∙ ap suc (length-sort_slots ps)

-- Indices that rise from `n` and stay below the total are no more than fit between.
Rising-fits :
    (total n : ℕ) (ps : List SlotPlan)
    → n ≤ total
    → Rising n ps
    → All (λ p. p.index < total) ps
    → n + length ps ≤ total
Rising-fits total n [] h r b = omega arith
Rising-fits total n (p ∷ ps) h (lo, r) (lt, b) =
    omega (arith, Rising-fits total (suc p.index) ps (omega arith) r b)

compose_loop-cons :
    (chunk epoch ts : ℕ) (p : SlotPlan) (ps : List SlotPlan) (ss : List ShardSlot)
    → compose_loop chunk epoch ts (p ∷ ps) ≡ ok ss
    → (s : ShardSlot) × (us : List ShardSlot) × (compose_slot chunk p.index epoch p.disk_id ts
        ≡ ok s)
      × (compose_loop chunk epoch ts ps ≡ ok us)
      × (ss ≡ s ∷ us)
unfolding compose_loop
compose_loop-cons chunk epoch ts p ps ss h =
    let (s, e, k) = bind-ok (compose_slot chunk p.index epoch p.disk_id ts) _ ss h in
    let (us, e', q) = bind-ok (compose_loop chunk epoch ts ps) _ ss k in (s, us, e, e', cc q)

compose_loop-nil :
    (chunk epoch ts i : ℕ) (ss : List ShardSlot)
    → compose_loop chunk epoch ts [] ≡ ok ss
    → IsShards chunk i ss × (length ss ≡ 0)
unfolding compose_loop
compose_loop-nil chunk epoch ts i [] h = (tt, refl)
compose_loop-nil chunk epoch ts i (s ∷ ss) h = cc

-- Rising indices that fill the space up to the total are its numbers one by one.
compose_loop-IsShards :
    (chunk epoch ts total n : ℕ) (ps : List SlotPlan) (ss : List ShardSlot)
    → chunk < 2 ^ 32
    → ts < 2 ^ 64
    → total ≤ 2 ^ 8
    → n + length ps ≡ total
    → Rising n ps
    → All (λ p. p.index < total) ps
    → compose_loop chunk epoch ts ps ≡ ok ss
    → IsShards chunk n ss × (length ss ≡ length ps)
compose_loop-IsShards chunk epoch ts total n [] ss hc ht hl e r b h =
    compose_loop-nil chunk epoch ts n ss h
compose_loop-IsShards chunk epoch ts total n (p ∷ ps) ss hc ht hl e (lo, r) (lt, b) h =
    let (s, us, first, others, q) = compose_loop-cons chunk epoch ts p ps ss h in
    let tight = Rising-fits total (suc p.index) ps (omega arith) r b in
    let here : p.index ≡ n = omega arith in
    let (slot, _, _) =
      compose_slot-IsSlot chunk p.index epoch p.disk_id ts s hc (omega arith) ht first in
    let (slots, len) =
      compose_loop-IsShards chunk epoch ts total (suc n) ps us hc ht hl (omega arith)
        (subst (λ k. Rising (suc k) ps) here r) b others in
    subst (λ xs. IsShards chunk n xs × (length xs ≡ suc (length ps))) (sym q)
      ((subst (λ k. IsSlot chunk k s) here slot, slots), ap suc len)

-- A plan whose indices are bytes, that passes validation and composes, gives one slot for each shard
-- of the code mode, slot `i` that of shard `i`; there are at most 256.
pub compose_slots-IsShards :
    (mode : CodeMode) (slots : List SlotPlan) (chunk epoch ts : ℕ) (ss : List ShardSlot)
    → chunk < 2 ^ 32
    → ts < 2 ^ 64
    → All (λ p. p.index < 2 ^ 8) slots
    → validate_slots mode slots ≡ none
    → compose_slots chunk slots epoch ts ≡ ok ss
    → IsShards chunk 0 ss × (length ss ≡ shards_total mode) × (shards_total mode ≤ 2 ^ 8)
unfolding validate_slots compose_slots
compose_slots-IsShards mode slots chunk epoch ts ss hc ht bytes v h =
    elim (Bool-cases (length slots == shards_total mode)) [
      | inr e ↦ cc (rw e at v)
      | inl e ↦
          let len : length slots ≡ shards_total mode = ground arith in
          let (apart, below, _) = validate_loop-Apart (shards_total mode) [] slots (rw e at v) in
          let rising = sort_slots-Rising slots apart in
          let most =
            Rising-fits (2 ^ 8) 0 (sort_slots slots) (omega arith) rising
              (sort_slots-All (λ p. p.index < 2 ^ 8) slots bytes) in
          let small : shards_total mode ≤ 2 ^ 8 = omega (arith, length-sort_slots slots) in
          let (shards, same) =
            compose_loop-IsShards chunk epoch ts (shards_total mode) 0 (sort_slots slots) ss hc ht
              small (omega (arith, length-sort_slots slots)) rising
              (sort_slots-All (λ p. p.index < shards_total mode) slots below) h in
          (shards, same ∙ length-sort_slots slots ∙ len, small)
    ]
