-- ===== src/Pd/Chunk/Moves.antt =====
-- What sealing and rebinding a chunk leave in the index of crates/epoch-pd/src/chunk/manager.rs.
use epoch_io.Common.{
  ℕ, ◌+◌, ◌≡◌, refl, sym, subst, arith, Bool, true, false, ◌&&◌, Option, none, some, List, Result,
  ok, err, leb, ◌==◌, Bool-cases, Option-cases, inl, inr, ◌⊎◌,
}
use epoch_io.Common.Map.{lookup, insert}
use epoch_io.Pd.Records.{SmError, Codec, Cf, open_cf}
use epoch_io.Pd.Records.View.{stage_put_record-cases}
use epoch_io.Pd.Reject.{RejectReason}
use epoch_io.Pd.Chunk.{
  Chunk, ChunkStatus, ShardSlot, StagingChunk, compose_slot, find_slot, replace_slot,
}
use epoch_io.Common.{Result-cases}
use epoch_io.Pd.Chunk.Manager.{
  Prefixes, Staged, Answer, add_prefix, drop_prefix, seal, seal_by_status, apply_seal_chunk, rebind,
  apply_rebind,
}
use epoch_io.Proto.Id.{max_shard_epoch}

abbrev pub with_shards : Chunk → List ShardSlot → Chunk
with_shards chunk shards = record chunk { shards = shards }

-- The prefix moves from the old slot's disk to the new one's.
abbrev pub moved : ℕ → ShardSlot → ShardSlot → Prefixes → Prefixes
moved new_disk old rebuilt m =
    add_prefix new_disk rebuilt.shard_prefix (drop_prefix old.disk_id old.shard_prefix m)

module _ (chunks : Codec Chunk) (plans : Codec StagingChunk) (s : Staged) where
  abbrev pub Sealed : Answer → ℕ → Type 0
  Sealed res id =
      (chunk : Chunk) × (lookup id s.index.chunks ≡ some chunk)
      × (res.0.index ≡ record s.index {
        chunks = insert id (record chunk { status = ChunkStatus.sealed }) s.index.chunks;
      })

  seal-index :
      (opened : Bool) (id : ℕ) (chunk : Chunk)
      → (seal chunks plans opened id chunk s).0.index ≡ record s.index {
        chunks = insert id (record chunk { status = ChunkStatus.sealed }) s.index.chunks;
      }
  seal-index opened id chunk =
      elim (stage_put_record-cases chunks s.batch Cf.chunk chunk.chunk_id
        (record chunk { status = ChunkStatus.sealed })) [
          | inl (_, p) ↦ unfold seal in rw (p, seal) refl
          | inr (bytes, _, p) ↦ unfold seal in rw (p, seal) refl
        ]

  seal_by_status-effect :
      (opened : Bool) (st : ChunkStatus) (id : ℕ) (chunk : Chunk)
      → lookup id s.index.chunks ≡ some chunk
      → ((seal_by_status chunks plans opened st id chunk s).0 ≡ s)
        ⊎ Sealed (seal_by_status chunks plans opened st id chunk s) id
  seal_by_status-effect opened ChunkStatus.writable id chunk e =
      inr (chunk, e, seal-index opened id chunk)
  seal_by_status-effect opened ChunkStatus.full id chunk e =
      inr (chunk, e, seal-index opened id chunk)
  seal_by_status-effect opened ChunkStatus.sealed id chunk e = inl refl
  seal_by_status-effect opened ChunkStatus.migrating id chunk e = inl refl
  seal_by_status-effect opened ChunkStatus.broken id chunk e = inl refl

  pub seal-effect :
      (opened : Bool) (id : ℕ)
      → ((apply_seal_chunk chunks plans opened id s).0 ≡ s)
        ⊎ Sealed (apply_seal_chunk chunks plans opened id s) id
  seal-effect false id = inl (unfold apply_seal_chunk open_cf in refl)
  seal-effect true id = elim (Option-cases (lookup id s.index.chunks)) [
    | inl e ↦ inl (unfold apply_seal_chunk open_cf in rw (e, apply_seal_chunk) refl)
    | inr (chunk, e) ↦
        subst (λ r. (r.0 ≡ s) ⊎ Sealed r id) (sym (opened_by id chunk e))
          (seal_by_status-effect true chunk.status id chunk e)
  ]
    where
      opened_by :
          (id : ℕ) (chunk : Chunk)
          → lookup id s.index.chunks ≡ some chunk
          → apply_seal_chunk chunks plans true id s
            ≡ seal_by_status chunks plans true chunk.status id chunk s
      opened_by id chunk e = unfold apply_seal_chunk open_cf in rw (e, apply_seal_chunk) refl

  -- A rebind that went ahead: the guards held, and the slot was rebuilt on the new disk.
  abbrev pub Rebound : ℕ → ℕ → ℕ → ℕ → ℕ → Chunk → ShardSlot → ShardSlot → Type 0
  Rebound id slot expected new_disk ts chunk old rebuilt =
      (lookup id s.index.chunks ≡ some chunk)
      × (find_slot slot chunk.shards ≡ some old)
      × (old.epoch ≡ expected)
      × (compose_slot id slot (old.epoch + 1) new_disk ts ≡ ok rebuilt)

  -- It either reached the record, or failed to stage it.
  abbrev pub Left : Answer → ℕ → ℕ → Chunk → ShardSlot → ShardSlot → Type 0
  Left res slot new_disk chunk old rebuilt =
      ((e : SmError) × (res.1 ≡ err e)
        × (res.0.index
            ≡ record s.index { disk_shards = moved new_disk old rebuilt s.index.disk_shards }))
      ⊎ ((res.1 ≡ ok none)
          × (res.0.index ≡ record s.index {
            disk_shards = moved new_disk old rebuilt s.index.disk_shards;
            chunks =
                insert chunk.chunk_id (with_shards chunk (replace_slot slot rebuilt chunk.shards))
                  s.index.chunks;
          }))

  abbrev pub NotApplied : Answer → Type 0
  NotApplied res =
      (res.0 ≡ s) × ((r : Result SmError (Option RejectReason)) × (res.1 ≡ r) × (r ≡ ok none → ⊥))

  guards :
      (old : ShardSlot) (expected : ℕ)
      → (old.epoch == expected && leb (old.epoch + 1) max_shard_epoch) ≡ true
      → old.epoch ≡ expected
  guards old expected h = ground arith

  rebind-Left :
      (opened : Bool) (id slot expected new_disk ts : ℕ) (chunk : Chunk) (old rebuilt : ShardSlot)
      → (old.epoch == expected && leb (old.epoch + 1) max_shard_epoch) ≡ true
      → compose_slot id slot (old.epoch + 1) new_disk ts ≡ ok rebuilt
      → Left
          (rebind chunks plans opened id slot expected new_disk ts chunk old s)
          slot
          new_disk
          chunk
          old
          rebuilt
  rebind-Left opened id slot expected new_disk ts chunk old rebuilt g c =
      elim (stage_put_record-cases chunks s.batch Cf.chunk chunk.chunk_id
        (with_shards chunk (replace_slot slot rebuilt chunk.shards))) [
          | inl (_, p) ↦ inl (
            SmError.write_failed,
            unfold rebind in rw (g, rebind) (rw (c, rebind) (rw (p, rebind) refl)),
            unfold rebind in rw (g, rebind) (rw (c, rebind) (rw (p, rebind) refl)),
          )
          | inr (bytes, _, p) ↦ inr (
            unfold rebind in rw (g, rebind) (rw (c, rebind) (rw (p, rebind) refl)),
            unfold rebind in rw (g, rebind) (rw (c, rebind) (rw (p, rebind) refl)),
          )
        ]

  abbrev pub RebindEffect : Answer → ℕ → ℕ → ℕ → ℕ → ℕ → Type 0
  RebindEffect res id slot expected new_disk ts =
      NotApplied res
      ⊎ ((chunk : Chunk) × (old : ShardSlot) × (rebuilt : ShardSlot) × Rebound id slot expected
            new_disk ts chunk old rebuilt
          × Left res slot new_disk chunk old rebuilt)

  -- By the guards.
  guarded-effect :
      (opened : Bool) (id slot expected new_disk ts : ℕ) (chunk : Chunk) (old : ShardSlot)
      → lookup id s.index.chunks ≡ some chunk
      → find_slot slot chunk.shards ≡ some old
      → RebindEffect
          (rebind chunks plans opened id slot expected new_disk ts chunk old s)
          id
          slot
          expected
          new_disk
          ts
  guarded-effect opened id slot expected new_disk ts chunk old e f =
      elim (Bool-cases (old.epoch == expected && leb (old.epoch + 1) max_shard_epoch)) [
        | inr g ↦ inl (
          unfold rebind in rw (g, rebind) refl,
          (
            ok (some RejectReason.invalid_transition),
            unfold rebind in rw (g, rebind) refl,
            λ q. cc,
          ),
        )
        | inl g ↦ elim (Result-cases (compose_slot id slot (old.epoch + 1) new_disk ts)) [
          | inl (x, c) ↦ inl (
            unfold rebind in rw (g, rebind) (rw (c, rebind) refl),
            (err x, unfold rebind in rw (g, rebind) (rw (c, rebind) refl), λ q. cc),
          )
          | inr (rebuilt, c) ↦ inr (
            chunk,
            old,
            rebuilt,
            (e, f, guards old expected g, c),
            rebind-Left opened id slot expected new_disk ts chunk old rebuilt g c,
          )
        ]
      ]

  pub rebind-effect :
      (opened : Bool) (id slot expected new_disk ts : ℕ)
      → RebindEffect
          (apply_rebind chunks plans opened id slot expected new_disk ts s)
          id
          slot
          expected
          new_disk
          ts
  rebind-effect false id slot expected new_disk ts = inl (
    unfold apply_rebind open_cf in refl,
    (err SmError.missing_cf, unfold apply_rebind open_cf in refl, λ q. cc),
  )
  rebind-effect true id slot expected new_disk ts = elim (Option-cases (lookup id s.index.chunks)) [
    | inl e ↦ inl (
      unfold apply_rebind open_cf in rw (e, apply_rebind) refl,
      (
        ok (some RejectReason.not_found),
        unfold apply_rebind open_cf in rw (e, apply_rebind) refl,
        λ q. cc,
      ),
    )
    | inr (chunk, e) ↦ elim (Option-cases (find_slot slot chunk.shards)) [
      | inl f ↦ inl (
        unfold apply_rebind open_cf in rw (e, apply_rebind) (rw (f, apply_rebind) refl),
        (
          ok (some RejectReason.not_found),
          unfold apply_rebind open_cf in rw (e, apply_rebind) (rw (f, apply_rebind) refl),
          λ q. cc,
        ),
      )
      | inr (old, f) ↦
          subst (λ r. RebindEffect r id slot expected new_disk ts) (sym (opened_by chunk old e f))
            (guarded-effect true id slot expected new_disk ts chunk old e f)
    ]
  ]
    where
      opened_by :
          (chunk : Chunk) (old : ShardSlot)
          → lookup id s.index.chunks ≡ some chunk
          → find_slot slot chunk.shards ≡ some old
          → apply_rebind chunks plans true id slot expected new_disk ts s
            ≡ rebind chunks plans true id slot expected new_disk ts chunk old s
      opened_by chunk old e f =
          unfold apply_rebind open_cf in rw (e, apply_rebind) (rw (f, apply_rebind) refl)
