-- ===== src/Pd/Chunk/Indexed.antt =====
-- The secondary index of crates/epoch-pd/src/chunk/manager.rs lists under each disk exactly the shards
-- that the committed chunks have there, which is what repair enumerates.
use epoch_io.Common.{
  ℕ, ◌+◌, ◌^◌, ◌<◌, ◌≤◌, ◌≡◌, ◌≢◌, ◌↔◌, refl, sym, ap, ◌∙◌, arith, Bool, true, false, not, ◌&&◌,
  ◌||◌, none, some, length, ok, ◌==◌, ==_iff, Bool-cases, inl, inr, ◌⊎◌,
}
use epoch_io.Common.Map.{Map, lookup, insert, lookup-insert_self, lookup-insert_ne}
use epoch_io.Pd.Chunk.{Chunk, ShardSlot, find_slot, replace_slot, compose_slot}
use epoch_io.Pd.Chunk.Manager.{ChunkIndex, Prefixes, index_shards}
use epoch_io.Pd.Chunk.Slots.{IsSlot, IsShards, compose_slot-IsSlot, find_slot-IsSlot}
use epoch_io.Pd.Chunk.Prefixes.{
  holds, has_slot, is_at, prefix_at, holds-add_prefix, holds-drop_prefix, holds-index_shards,
  has_slot-packed, has_slot-replace_slot,
}
use epoch_io.Pd.Chunk.Moves.{with_shards, moved}
use epoch_io.Pd.Chunk.Shape.{IsSound}
use epoch_io.Proto.Id.Fields.{packed}

-- A committed chunk has a slot with the prefix on the disk.
abbrev pub HasShard : Map Chunk → ℕ → ℕ → Type 0
HasShard m d p = (k : ℕ) × (c : Chunk) × (lookup k m ≡ some c) × (has_slot d p c.shards ≡ true)

abbrev pub IsIndexed : Prefixes → Map Chunk → Type 0
IsIndexed prefixes m = (d p : ℕ) → (holds d p prefixes ≡ true) ↔ HasShard m d p

or_cases : (a b : Bool) → (a || b) ≡ true → (a ≡ true) ⊎ (b ≡ true)
or_cases true b h = inl refl
or_cases false b h = inr h

-- In the chunks with one set, a shard is the set chunk's or another one's.
HasShard-insert :
    (id : ℕ) (new : Chunk) (m : Map Chunk) (d p : ℕ)
    → HasShard (insert id new m) d p
    → (has_slot d p new.shards ≡ true)
      ⊎ ((k : ℕ) × (c : Chunk) × (k ≢ id) × (lookup k m ≡ some c) × (has_slot d p c.shards ≡ true))
HasShard-insert id new m d p (k, c, e, h) = elim (Bool-cases (k == id)) [
  | inl q ↦
      let same : new ≡ c = cc (
        ap (λ n. lookup n (insert id new m)) ((==_iff k id).0 q),
        e,
        lookup-insert_self id new m,
      ) in
      inl (ap (λ x. has_slot d p x.shards) same ∙ h)
  | inr q ↦
      let ne : k ≢ id = ground arith in inr (k, c, ne, sym (lookup-insert_ne id k new m ne) ∙ e, h)
]

pub commit-IsIndexed :
    (prefixes : Prefixes) (m : Map Chunk) (id : ℕ) (new : Chunk)
    → lookup id m ≡ none
    → IsIndexed prefixes m
    → IsIndexed (index_shards new.shards prefixes) (insert id new m)
commit-IsIndexed prefixes m id new free indexed d p =
    let e = holds-index_shards d p new.shards prefixes in
    (
      λ h. elim (or_cases _ _ (sym e ∙ h)) [
        | inl own ↦ (id, new, lookup-insert_self id new m, own)
        | inr old ↦
            let (k, c, found, has) = (indexed d p).0 old in
            let ne : k ≢ id = λ q. cc (free, ap (λ n. lookup n m) q, found) in
            (k, c, lookup-insert_ne id k new m ne ∙ found, has)
      ],
      λ h. e ∙ elim (HasShard-insert id new m d p h) [
        | inl own ↦ ap (λ b. b || holds d p prefixes) own
        | inr (k, c, ne, found, has) ↦ let old = (indexed d p).1 (k, c, found, has) in ground arith
      ],
    )

-- Setting a chunk with the same slots leaves the relation alone.
pub seal-IsIndexed :
    (prefixes : Prefixes) (m : Map Chunk) (id : ℕ) (old new : Chunk)
    → lookup id m ≡ some old
    → new.shards ≡ old.shards
    → IsIndexed prefixes m
    → IsIndexed prefixes (insert id new m)
seal-IsIndexed prefixes m id old new found alike indexed d p = (
  λ h.
      let (k, c, at_k, has) = (indexed d p).0 h in
      elim (Bool-cases (k == id)) [
        | inl q ↦
            let same : old ≡ c = cc (found, ap (λ n. lookup n m) ((==_iff k id).0 q), at_k) in
            (
              id,
              new,
              lookup-insert_self id new m,
              ap (has_slot d p) (alike ∙ ap (λ x. x.shards) same) ∙ has,
            )
        | inr q ↦
            let ne : k ≢ id = ground arith in (k, c, lookup-insert_ne id k new m ne ∙ at_k, has)
      ],
  λ h. elim (HasShard-insert id new m d p h) [
    | inl own ↦ (indexed d p).1 (id, old, found, ap (has_slot d p) (sym alike) ∙ own)
    | inr (k, c, ne, at_k, has) ↦ (indexed d p).1 (k, c, at_k, has)
  ],
)

module _ (x : ChunkIndex) (id slot disk ts : ℕ) (chunk : Chunk) (old rebuilt : ShardSlot)
    (sound : IsSound x) (stamp : ts < 2 ^ 64) (found : lookup id x.chunks ≡ some chunk)
    (at_slot : find_slot slot chunk.shards ≡ some old)
    (composed : compose_slot id slot (old.epoch + 1) disk ts ≡ ok rebuilt) where
  abbrev pub rebound : Chunk
  rebound = with_shards chunk (replace_slot slot rebuilt chunk.shards)

  slots_of : IsShards id 0 chunk.shards
  slots_of = (sound.chunks id chunk found).1.1

  few : 0 + length chunk.shards ≤ 2 ^ 8
  few = let (lt, (own, slots, len, small)) = sound.chunks id chunk found in omega arith

  bound : id < 2 ^ 32
  bound = let (lt, _) = sound.chunks id chunk found in omega (arith, sound.in_range)

  old-IsSlot : IsSlot id slot old × (slot < 2 ^ 8)
  old-IsSlot = find_slot-IsSlot id 0 slot chunk.shards old bound few slots_of at_slot

  on_disk : rebuilt.disk_id ≡ disk
  on_disk =
      let (_, _, e) =
        compose_slot-IsSlot id slot (old.epoch + 1) disk ts rebuilt bound old-IsSlot.1 stamp
          composed in
      e

  holds-moved :
      (d p : ℕ)
      → holds d p (moved disk old rebuilt x.disk_shards)
        ≡ (is_at d p rebuilt || (holds d p x.disk_shards && not (is_at d p old)))
  holds-moved d p =
      holds-add_prefix d p disk rebuilt.shard_prefix _
      ∙ ap (λ b. (disk == d && rebuilt.shard_prefix == p) || b)
          (holds-drop_prefix d p old.disk_id old.shard_prefix x.disk_shards)
      ∙ ap
          (λ n.
            (n == d && rebuilt.shard_prefix == p)
            || (holds d p x.disk_shards && not (is_at d p old)))
          (sym on_disk)

  replaced :
      (d p : ℕ)
      → has_slot d p (replace_slot slot rebuilt chunk.shards)
        ≡ (is_at d p rebuilt || (has_slot d p chunk.shards && not (is_at d p old)))
  replaced d p =
      has_slot-replace_slot id 0 slot d p rebuilt old chunk.shards bound few slots_of at_slot
        old-IsSlot.0

  -- The prefix of the old slot is in no other chunk.
  elsewhere :
      (d p k : ℕ) (c : Chunk)
      → k ≢ id
      → lookup k x.chunks ≡ some c
      → has_slot d p c.shards ≡ true
      → is_at d p old ≡ false
  elsewhere d p k c ne e has = elim (Bool-cases (is_at d p old)) [
    | inr o ↦ o
    | inl o ↦
        let (lt, (own, slots, len, small)) = sound.chunks k c e in
        let (j, _, hi, q) = has_slot-packed k 0 d p c.shards slots has in
        let clash : packed k j 0 ≡ packed id slot 0 =
          sym q ∙ sym (prefix_at d p old o) ∙ old-IsSlot.0.0 in
        let byte = old-IsSlot.1 in absurd (ne (omega arith))
  ]

  pub rebind-IsIndexed :
      IsIndexed x.disk_shards x.chunks
      → IsIndexed (moved disk old rebuilt x.disk_shards) (insert id rebound x.chunks)
  rebind-IsIndexed indexed d p = (
    λ h. elim (or_cases _ _ (sym (holds-moved d p) ∙ h)) [
      | inl new ↦ (
        id,
        rebound,
        lookup-insert_self id rebound x.chunks,
        replaced d p ∙ ap (λ b. b || (has_slot d p chunk.shards && not (is_at d p old))) new,
      )
      | inr kept ↦
          let was : holds d p x.disk_shards ≡ true = ground arith in
          let off : is_at d p old ≡ false = ground arith in
          let (k, c, at_k, has) = (indexed d p).0 was in
          elim (Bool-cases (k == id)) [
            | inl q ↦
                let same : chunk ≡ c =
                  cc (found, ap (λ n. lookup n x.chunks) ((==_iff k id).0 q), at_k) in
                let had : has_slot d p chunk.shards ≡ true =
                  ap (λ y. has_slot d p y.shards) same ∙ has in
                (
                  id,
                  rebound,
                  lookup-insert_self id rebound x.chunks,
                  replaced d p ∙ ground (arith, had, off),
                )
            | inr q ↦
                let ne : k ≢ id = ground arith in
                (k, c, lookup-insert_ne id k rebound x.chunks ne ∙ at_k, has)
          ]
    ],
    λ h. holds-moved d p ∙ elim (HasShard-insert id rebound x.chunks d p h) [
      | inl own ↦ elim (or_cases _ _ (sym (replaced d p) ∙ own)) [
        | inl new ↦ ap (λ b. b || (holds d p x.disk_shards && not (is_at d p old))) new
        | inr kept ↦
            let had : has_slot d p chunk.shards ≡ true = ground arith in
            let off : is_at d p old ≡ false = ground arith in
            let was = (indexed d p).1 (id, chunk, found, had) in ground (arith, was, off)
      ]
      | inr (k, c, ne, at_k, has) ↦
          let was = (indexed d p).1 (k, c, at_k, has) in
          let off = elsewhere d p k c ne at_k has in ground (arith, was, off)
    ],
  )
