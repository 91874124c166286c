-- ===== src/Pd/Chunk/Runs.antt =====
-- Runs of the manager of crates/epoch-pd/src/chunk/manager.rs, and what its index is after them.
use epoch_io.Common.{
  ℕ, ◌^◌, ◌<◌, ◌≡◌, refl, sym, ap, subst, ◌∙◌, arith, Bool, Option, none, List, [], All, ok, inl,
  inr,
}
use epoch_io.Common.Map.{Map, lookup, insert}
use epoch_io.Pd.Records.{Codec}
use epoch_io.Pd.Reject.{RejectReason}
use epoch_io.Pd.Chunk.{Chunk, ChunkStatus, StagingChunk, SlotPlan, validate_slots, replace_slot}
use epoch_io.Pd.Chunk.Manager.{
  ChunkIndex, Staged, apply_create_staging, apply_commit, apply_rebump, apply_seal_chunk,
  apply_rebind,
}
use epoch_io.Pd.Chunk.Prefixes.{holds}
use epoch_io.Pd.Chunk.Effects.{committed, create-effect, commit-effect, rebump-effect}
use epoch_io.Pd.Chunk.Moves.{with_shards, moved, seal-effect, rebind-effect}
use epoch_io.Pd.Chunk.Shape.{
  IsSound, create, commit, rebump, seal_chunk, rebind_shard, Step-IsSound,
}
use epoch_io.Proto.CodeMode.{CodeMode}
use epoch_io.Pd.Chunk.Manager.{or_default}
use epoch_io.Pd.Chunk.Prefixes.{is_some}
use epoch_io.Pd.Chunk.Indexed.{IsIndexed, commit-IsIndexed, seal-IsIndexed, rebind-IsIndexed}

-- The runs of the manager from the empty index: every command with any answer, but a rebind that
-- reports a storage error, after which the raft group stops.
pub data Run (chunks : Codec Chunk) (plans : Codec StagingChunk) : Staged → Type 0 where
  empty : Run chunks plans (record {
    batch = [];
    index = record { chunks = []; staging = []; next_id = 1; disk_shards = [] };
  })
  run_create :
      (opened : Bool) (mode : CodeMode) (slots : List SlotPlan) (ts epoch : ℕ) (s : Staged)
      → ts < 2 ^ 64
      → All (λ p. p.index < 2 ^ 8) slots
      → validate_slots mode slots ≡ none
      → Run chunks plans s
      → Run chunks plans (apply_create_staging chunks plans opened mode slots ts epoch s).0
  run_commit :
      (opened : Bool) (id : ℕ) (s : Staged)
      → Run chunks plans s
      → Run chunks plans (apply_commit chunks plans opened id s).0
  run_rebump :
      (opened : Bool) (id : ℕ) (s : Staged)
      → Run chunks plans s
      → Run chunks plans (apply_rebump chunks plans opened id s).0
  run_seal :
      (opened : Bool) (id : ℕ) (s : Staged)
      → Run chunks plans s
      → Run chunks plans (apply_seal_chunk chunks plans opened id s).0
  run_rebind :
      (opened : Bool) (id slot expected disk ts : ℕ) (s : Staged)
      → ts < 2 ^ 64
      → (r : Option RejectReason)
      → (apply_rebind chunks plans opened id slot expected disk ts s).1 ≡ ok r
      → Run chunks plans s
      → Run chunks plans (apply_rebind chunks plans opened id slot expected disk ts s).0

lookup-nil : {V : Type 0} (k : ℕ) → lookup {V = V} k [] ≡ none
unfolding lookup
lookup-nil k = refl

empty-IsSound : IsSound (record { chunks = []; staging = []; next_id = 1; disk_shards = [] })
empty-IsSound = record {
  in_range = omega arith;
  chunks = λ k c e. cc (e, lookup-nil {V = Chunk} k);
  staging = λ k p e. cc (e, lookup-nil {V = StagingChunk} k);
}

empty-IsIndexed : IsIndexed [] []
unfolding holds
empty-IsIndexed d p = (
  λ h. cc (
    h,
    ap (λ o. is_some (lookup p (or_default o))) (lookup-nil {V = Map (Unit {0})} d),
    ap (λ o. is_some o) (lookup-nil {V = Unit {0}} p),
  ),
  λ (k, c, e, h). cc (e, lookup-nil {V = Chunk} k),
)

abbrev pub IsConsistent : ChunkIndex → Type 0
IsConsistent x = IsSound x × IsIndexed x.disk_shards x.chunks

module _ (chunks : Codec Chunk) (plans : Codec StagingChunk) where
  create-IsConsistent :
      (opened : Bool) (mode : CodeMode) (slots : List SlotPlan) (ts epoch : ℕ) (s : Staged)
      → IsIndexed s.index.disk_shards s.index.chunks
      → IsIndexed
          (apply_create_staging chunks plans opened mode slots ts epoch s).0.index.disk_shards
          (apply_create_staging chunks plans opened mode slots ts epoch s).0.index.chunks
  create-IsConsistent opened mode slots ts epoch s i =
      elim (create-effect chunks plans s opened mode slots ts epoch) [
        | inl e ↦ subst (λ r. IsIndexed r.index.disk_shards r.index.chunks) (sym e) i
        | inr (shards, h, c, e) ↦ subst (λ x. IsIndexed x.disk_shards x.chunks) (sym e) i
      ]

  rebump-IsConsistent :
      (opened : Bool) (id : ℕ) (s : Staged)
      → IsIndexed s.index.disk_shards s.index.chunks
      → IsIndexed
          (apply_rebump chunks plans opened id s).0.index.disk_shards
          (apply_rebump chunks plans opened id s).0.index.chunks
  rebump-IsConsistent opened id s i = elim (rebump-effect chunks plans s opened id) [
    | inl e ↦ subst (λ r. IsIndexed r.index.disk_shards r.index.chunks) (sym e) i
    | inr (plan, shards, found, c, e) ↦ subst (λ x. IsIndexed x.disk_shards x.chunks) (sym e) i
  ]

  commit-IsConsistent :
      (opened : Bool) (id : ℕ) (s : Staged)
      → IsSound s.index
      → IsIndexed s.index.disk_shards s.index.chunks
      → IsIndexed
          (apply_commit chunks plans opened id s).0.index.disk_shards
          (apply_commit chunks plans opened id s).0.index.chunks
  commit-IsConsistent opened id s sound i = elim (commit-effect chunks plans s opened id) [
    | inl e ↦ subst (λ r. IsIndexed r.index.disk_shards r.index.chunks) (sym e) i
    | inr (plan, found, e) ↦
        let (lt, (own, _, _, _), free) = sound.staging id plan found in
        subst (λ x. IsIndexed x.disk_shards x.chunks) (sym e)
          (commit-IsIndexed s.index.disk_shards s.index.chunks plan.chunk_id (committed plan)
            (ap (λ k. lookup k s.index.chunks) own ∙ free) i)
  ]

  seal-IsConsistent :
      (opened : Bool) (id : ℕ) (s : Staged)
      → IsIndexed s.index.disk_shards s.index.chunks
      → IsIndexed
          (apply_seal_chunk chunks plans opened id s).0.index.disk_shards
          (apply_seal_chunk chunks plans opened id s).0.index.chunks
  seal-IsConsistent opened id s i = elim (seal-effect chunks plans s opened id) [
    | inl e ↦ subst (λ r. IsIndexed r.index.disk_shards r.index.chunks) (sym e) i
    | inr (chunk, found, e) ↦
        subst (λ x. IsIndexed x.disk_shards x.chunks) (sym e)
          (seal-IsIndexed s.index.disk_shards s.index.chunks id chunk
            (record chunk { status = ChunkStatus.sealed }) found refl i)
  ]

  rebind-IsConsistent :
      (opened : Bool) (id slot expected disk ts : ℕ) (s : Staged) (r : Option RejectReason)
      → ts < 2 ^ 64
      → IsSound s.index
      → IsIndexed s.index.disk_shards s.index.chunks
      → (apply_rebind chunks plans opened id slot expected disk ts s).1 ≡ ok r
      → IsIndexed
          (apply_rebind chunks plans opened id slot expected disk ts s).0.index.disk_shards
          (apply_rebind chunks plans opened id slot expected disk ts s).0.index.chunks
  rebind-IsConsistent opened id slot expected disk ts s r ht sound i h =
      elim (rebind-effect chunks plans s opened id slot expected disk ts) [
        | inl (e, _) ↦ subst (λ t. IsIndexed t.index.disk_shards t.index.chunks) (sym e) i
        | inr (chunk, old, rebuilt, (found, at_slot, _, c), inl (x, e, _)) ↦ cc (h, e)
        | inr (chunk, old, rebuilt, (found, at_slot, _, c), inr (_, e)) ↦
            let own = (sound.chunks id chunk found).1.0 in
            subst (λ x. IsIndexed x.disk_shards x.chunks) (sym e)
              (subst
                (λ k. IsIndexed (moved disk old rebuilt s.index.disk_shards) (
                  insert k (with_shards chunk (replace_slot slot rebuilt chunk.shards))
                    s.index.chunks))
                (sym own)
                (rebind-IsIndexed s.index id slot disk ts chunk old rebuilt sound ht found at_slot c
                  i))
      ]

  -- After every run of the manager the index is sound, and the secondary index has a prefix under a
  -- disk exactly when a committed chunk has a slot with that prefix on that disk.
  pub Run-IsConsistent : (s : Staged) → Run chunks plans s → IsConsistent s.index
  Run-IsConsistent _ empty = (empty-IsSound, empty-IsIndexed)
  Run-IsConsistent _ (run_create opened mode slots ts epoch s ht bytes valid run) =
      let (sound, i) = Run-IsConsistent s run in
      (
        Step-IsSound chunks plans s _ (create opened mode slots ts epoch s ht bytes valid) sound,
        create-IsConsistent opened mode slots ts epoch s i,
      )
  Run-IsConsistent _ (run_commit opened id s run) =
      let (sound, i) = Run-IsConsistent s run in
      (
        Step-IsSound chunks plans s _ (commit opened id s) sound,
        commit-IsConsistent opened id s sound i,
      )
  Run-IsConsistent _ (run_rebump opened id s run) =
      let (sound, i) = Run-IsConsistent s run in
      (Step-IsSound chunks plans s _ (rebump opened id s) sound, rebump-IsConsistent opened id s i)
  Run-IsConsistent _ (run_seal opened id s run) =
      let (sound, i) = Run-IsConsistent s run in
      (
        Step-IsSound chunks plans s _ (seal_chunk opened id s) sound,
        seal-IsConsistent opened id s i,
      )
  Run-IsConsistent _ (run_rebind opened id slot expected disk ts s ht r e run) =
      let (sound, i) = Run-IsConsistent s run in
      (
        Step-IsSound chunks plans s _ (rebind_shard opened id slot expected disk ts s ht) sound,
        rebind-IsConsistent opened id slot expected disk ts s r ht sound i e,
      )
