-- ===== src/Pd/Chunk/Shape.antt =====
-- crates/epoch-pd/src/chunk/model.rs, its invariant: a chunk has one slot for each shard of its code
-- mode, slot `i` that of shard `i`, under the chunk's own id.
use epoch_io.Common.{
  ℕ, ◌+◌, ◌^◌, ◌<◌, ◌≤◌, ◌≡◌, ◌≢◌, refl, sym, ap, subst, ◌∙◌, arith, Bool, Option, none, some, List,
  All, length, ok, inl, inr,
}
use epoch_io.Common.Map.{
  Map, lookup, insert, remove, Every, insert-Every, remove-Every, lookup-insert_ne,
}
use epoch_io.Pd.Records.{Codec}
use epoch_io.Pd.Chunk.{
  Chunk, ShardSlot, StagingChunk, SlotPlan, validate_slots, replace_slot, rebump_loop, find_slot,
  compose_slot,
}
use epoch_io.Pd.Chunk.Manager.{
  ChunkIndex, Staged, apply_create_staging, apply_commit, apply_rebump, apply_seal_chunk,
  apply_rebind,
}
use epoch_io.Pd.Chunk.Slots.{
  IsShards, compose_slot-IsSlot, rebump_loop-IsShards, find_slot-IsSlot, replace_slot-IsShards,
}
use epoch_io.Pd.Chunk.Plans.{compose_slots-IsShards}
use epoch_io.Pd.Chunk.Effects.{planned, committed, create-effect, commit-effect, rebump-effect}
use epoch_io.Pd.Chunk.Moves.{with_shards, seal-effect, rebind-effect}
use epoch_io.Proto.CodeMode.{CodeMode, shards_total}

-- An EC group under the key `k`.
abbrev pub IsGroup : ℕ → ℕ → CodeMode → List ShardSlot → Type 0
IsGroup k id mode shards =
    (id ≡ k)
    × IsShards k 0 shards
    × (length shards ≡ shards_total mode)
    × (shards_total mode ≤ 2 ^ 8)

abbrev pub IsCommitted : ℕ → ℕ → Chunk → Type 0
IsCommitted n k c = (k < n) × IsGroup k c.chunk_id c.code_mode c.shards

-- A plan's id is not that of a chunk.
abbrev pub IsPlanned : ℕ → Map Chunk → ℕ → StagingChunk → Type 0
IsPlanned n chunks k p =
    (k < n) × IsGroup k p.chunk_id p.code_mode p.shards × (lookup k chunks ≡ none)

pub record IsSound (x : ChunkIndex) : Type 0 where
  pub in_range : x.next_id < 2 ^ 32
  pub chunks : Every (IsCommitted x.next_id) x.chunks
  pub staging : Every (IsPlanned x.next_id x.chunks) x.staging

-- One applied command, whatever it answers. A creation's plan has been validated, its indices are
-- `u8` values and its timestamp is 64 bits wide.
pub data Step (chunks : Codec Chunk) (plans : Codec StagingChunk) : Staged → Staged → Type 0 where
  create :
      (opened : Bool) (mode : CodeMode) (slots : List SlotPlan) (ts epoch : ℕ) (s : Staged)
      → ts < 2 ^ 64
      → All (λ p. p.index < 2 ^ 8) slots
      → validate_slots mode slots ≡ none
      → Step chunks plans s (apply_create_staging chunks plans opened mode slots ts epoch s).0
  commit :
      (opened : Bool) (id : ℕ) (s : Staged)
      → Step chunks plans s (apply_commit chunks plans opened id s).0
  rebump :
      (opened : Bool) (id : ℕ) (s : Staged)
      → Step chunks plans s (apply_rebump chunks plans opened id s).0
  seal_chunk :
      (opened : Bool) (id : ℕ) (s : Staged)
      → Step chunks plans s (apply_seal_chunk chunks plans opened id s).0
  rebind_shard :
      (opened : Bool) (id slot expected new_disk ts : ℕ) (s : Staged)
      → ts < 2 ^ 64
      → Step chunks plans s (apply_rebind chunks plans opened id slot expected new_disk ts s).0

unknown_id :
    {V : Type 0} (n : ℕ) (P : ℕ → V → Type 0) (m : Map V)
    → Every (λ k v. (k < n) × P k v) m
    → (k : ℕ) → n ≤ k
    → lookup k m ≡ none
unknown_id {V} n P m every k le = by_lookup (lookup k m) refl
  where
    by_lookup : (o : Option V) → lookup k m ≡ o → o ≡ none
    by_lookup none e = refl
    by_lookup (some v) e = let (lt, _) = every k v e in absurd (omega arith)

-- Setting a chunk that is there leaves the plans apart from the chunks.
set_chunk-IsSound :
    (x : ChunkIndex) (id : ℕ) (old new : Chunk)
    → IsSound x
    → lookup id x.chunks ≡ some old
    → IsCommitted x.next_id id new
    → IsSound (record x { chunks = insert id new x.chunks })
set_chunk-IsSound x id old new sound found ok_new = record {
  in_range = sound.in_range;
  chunks = insert-Every (IsCommitted x.next_id) id new x.chunks ok_new sound.chunks;
  staging = λ k p e.
      let (lt, group, free) = sound.staging k p e in
      let ne : k ≢ id = λ q. cc (free, ap (λ n. lookup n x.chunks) q, found) in
      (lt, group, lookup-insert_ne id k new x.chunks ne ∙ free);
}

create-IsSound :
    (x : ChunkIndex) (mode : CodeMode) (shards : List ShardSlot)
    → IsSound x
    → x.next_id + 1 < 2 ^ 32
    → IsGroup x.next_id x.next_id mode shards
    → IsSound (record x {
      next_id = x.next_id + 1;
      staging = insert x.next_id (planned x.next_id mode shards) x.staging;
    })
create-IsSound x mode shards sound h group = record {
  in_range = h;
  chunks = λ k c e. let (lt, g) = sound.chunks k c e in (omega arith, g);
  staging =
      insert-Every (IsPlanned (x.next_id + 1) x.chunks) x.next_id (planned x.next_id mode shards)
        x.staging
        (
          omega arith,
          group,
          unknown_id x.next_id (λ k c. IsGroup k c.chunk_id c.code_mode c.shards) x.chunks
              sound.chunks x.next_id (omega arith),
        )
        (λ k p e. let (lt, g, free) = sound.staging k p e in (omega arith, g, free));
}

commit-IsSound :
    (x : ChunkIndex) (id : ℕ) (plan : StagingChunk)
    → IsSound x
    → lookup id x.staging ≡ some plan
    → IsSound (record x {
      staging = remove id x.staging;
      chunks = insert plan.chunk_id (committed plan) x.chunks;
    })
commit-IsSound x id plan sound found =
    let (lt, group, free) = sound.staging id plan found in
    let own : plan.chunk_id ≡ id = group.0 in
    record {
      in_range = sound.in_range;
      chunks =
          insert-Every (IsCommitted x.next_id) plan.chunk_id (committed plan) x.chunks
            (subst (λ k. IsCommitted x.next_id k (committed plan)) (sym own) (lt, group))
            sound.chunks;
      staging =
          remove-Every (IsPlanned x.next_id (insert plan.chunk_id (committed plan) x.chunks)) id
            x.staging
            λ k p ne e.
              let (lt', group', free') = sound.staging k p e in
              (
                lt',
                group',
                lookup-insert_ne plan.chunk_id k (committed plan) x.chunks (λ q. ne (q ∙ own))
                    ∙ free',
              );
    }

moved-IsSound :
    (x : ChunkIndex) (d : Map (Map (Unit {0}))) → IsSound x → IsSound (record x { disk_shards = d })
moved-IsSound x d sound = record {
  in_range = sound.in_range;
  chunks = sound.chunks;
  staging = sound.staging;
}

rebump-IsSound :
    (x : ChunkIndex) (id : ℕ) (plan : StagingChunk) (shards : List ShardSlot)
    → IsSound x
    → lookup id x.staging ≡ some plan
    → rebump_loop id plan.shards ≡ ok shards
    → IsSound (record x { staging = insert id (record plan { shards = shards }) x.staging })
rebump-IsSound x id plan shards sound found e =
    let (lt, (own, slots, len, small), free) = sound.staging id plan found in
    let bound : id < 2 ^ 32 = omega (arith, sound.in_range) in
    let (slots', len') = rebump_loop-IsShards id plan.shards shards bound (omega arith) slots e in
    record {
      in_range = sound.in_range;
      chunks = sound.chunks;
      staging =
          insert-Every (IsPlanned x.next_id x.chunks) id (record plan { shards = shards }) x.staging
            (lt, (own, slots', len' ∙ len, small), free) sound.staging;
    }

rebind-IsSound :
    (x : ChunkIndex) (id slot disk ts : ℕ) (chunk : Chunk) (old rebuilt : ShardSlot)
    → IsSound x
    → ts < 2 ^ 64
    → lookup id x.chunks ≡ some chunk
    → find_slot slot chunk.shards ≡ some old
    → compose_slot id slot (old.epoch + 1) disk ts ≡ ok rebuilt
    → IsSound (record x {
      chunks =
          insert chunk.chunk_id
            (with_shards chunk (replace_slot slot rebuilt chunk.shards))
            x.chunks;
    })
rebind-IsSound x id slot disk ts chunk old rebuilt sound ht found at_slot e =
    let (lt, (own, slots, len, small)) = sound.chunks id chunk found in
    let bound : id < 2 ^ 32 = omega (arith, sound.in_range) in
    let fits : 0 + length chunk.shards ≤ 2 ^ 8 = omega arith in
    let (_, byte) = find_slot-IsSlot id 0 slot chunk.shards old bound fits slots at_slot in
    let (new, _, _) = compose_slot-IsSlot id slot (old.epoch + 1) disk ts rebuilt bound byte ht e in
    let (slots', len') =
      replace_slot-IsShards id 0 slot rebuilt chunk.shards bound fits new slots in
    set_chunk-IsSound x chunk.chunk_id chunk _ sound (ap (λ k. lookup k x.chunks) own ∙ found) (
      subst (λ k. k < x.next_id) (sym own) lt,
      (
        refl,
        subst (λ k. IsShards k 0 (replace_slot slot rebuilt chunk.shards)) (sym own) slots',
        len' ∙ len,
        small,
      ),
    )

module _ (chunks : Codec Chunk) (plans : Codec StagingChunk) where
  -- Every command that is applied, refused or failed halfway leaves the index sound: each chunk and
  -- each plan stands under its own id, below the next one, with one slot for each shard of its code
  -- mode in order, and no plan has the id of a chunk.
  pub Step-IsSound : (s t : Staged) → Step chunks plans s t → IsSound s.index → IsSound t.index
  Step-IsSound _ _ (create opened mode slots ts epoch s ht bytes valid) sound =
      elim (create-effect chunks plans s opened mode slots ts epoch) [
        | inl e ↦ subst (λ r. IsSound r.index) (sym e) sound
        | inr (shards, h, c, e) ↦
            let (is, len, small) =
              compose_slots-IsShards mode slots s.index.next_id epoch ts shards sound.in_range ht
                bytes valid c in
            subst IsSound (sym e)
              (create-IsSound s.index mode shards sound h (refl, is, len, small))
      ]
  Step-IsSound _ _ (commit opened id s) sound = elim (commit-effect chunks plans s opened id) [
    | inl e ↦ subst (λ r. IsSound r.index) (sym e) sound
    | inr (plan, found, e) ↦
        subst IsSound (sym e) (moved-IsSound _ _ (commit-IsSound s.index id plan sound found))
  ]
  Step-IsSound _ _ (rebump opened id s) sound = elim (rebump-effect chunks plans s opened id) [
    | inl e ↦ subst (λ r. IsSound r.index) (sym e) sound
    | inr (plan, shards, found, c, e) ↦
        subst IsSound (sym e) (rebump-IsSound s.index id plan shards sound found c)
  ]
  Step-IsSound _ _ (seal_chunk opened id s) sound = elim (seal-effect chunks plans s opened id) [
    | inl e ↦ subst (λ r. IsSound r.index) (sym e) sound
    | inr (chunk, found, e) ↦
        subst IsSound (sym e)
          (set_chunk-IsSound s.index id chunk _ sound found (sound.chunks id chunk found))
  ]
  Step-IsSound _ _ (rebind_shard opened id slot expected disk ts s ht) sound =
      elim (rebind-effect chunks plans s opened id slot expected disk ts) [
        | inl (e, _) ↦ subst (λ r. IsSound r.index) (sym e) sound
        | inr (chunk, old, rebuilt, (found, at_slot, _, c), inl (_, _, e)) ↦
            subst IsSound (sym e) (moved-IsSound s.index _ sound)
        | inr (chunk, old, rebuilt, (found, at_slot, _, c), inr (_, e)) ↦ subst IsSound (sym e) (
            moved-IsSound _ _
              (rebind-IsSound s.index id slot disk ts chunk old rebuilt sound ht found at_slot c))
      ]
