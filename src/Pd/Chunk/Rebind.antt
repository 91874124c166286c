-- ===== src/Pd/Chunk/Rebind.antt =====
-- What an answered rebind or re-bump of crates/epoch-pd/src/chunk/manager.rs changes, and what not.
use epoch_io.Common.{
  ℕ, ◌+◌, ◌^◌, ◌<◌, ◌≤◌, ◌≡◌, ◌≢◌, refl, sym, ap, subst, ◌∙◌, arith, Bool, false, none, some, List,
  [], ◌∷◌, length, ok, inl, inr, ◌==◌, ==_refl, if◌then◌else◌, Bool-cases,
}
use epoch_io.Common.Map.{lookup, insert, lookup-insert_self, lookup-insert_ne}
use epoch_io.Pd.Records.{Codec}
use epoch_io.Pd.Chunk.{
  Chunk, ShardSlot, StagingChunk, slot_index, find_slot, replace_slot, compose_slot,
}
use epoch_io.Pd.Chunk.Manager.{ChunkIndex, Staged, apply_rebind}
use epoch_io.Pd.Chunk.Slots.{IsSlot, compose_slot-IsSlot, slot_index-IsSlot, find_slot-IsSlot}
use epoch_io.Pd.Chunk.Shape.{IsSound}
use epoch_io.Pd.Chunk.Moves.{with_shards, rebind-effect}

find_slot-replace_slot :
    (i j : ℕ) (t old : ShardSlot) (ss : List ShardSlot)
    → slot_index t ≡ i
    → find_slot i ss ≡ some old
    → find_slot j (replace_slot i t ss) ≡ (if j == i then some t else find_slot j ss)
unfolding find_slot replace_slot
find_slot-replace_slot i j t old [] own h = cc
find_slot-replace_slot i j t old (s ∷ ss) own h = elim (Bool-cases (slot_index s == i)) [
  | inl e ↦ rw e (ground arith)
  | inr e ↦ rw e (ground (arith, find_slot-replace_slot i j t old ss own (rw e at h)))
]

-- What a chunk is after slot `slot` was rebuilt at the epoch after `expected` on another disk.
abbrev pub IsRebuilt : ℕ → ℕ → ℕ → ℕ → Chunk → Chunk → Type 0
IsRebuilt id slot expected new_disk old new =
    (new.code_mode ≡ old.code_mode)
    × (new.status ≡ old.status)
    × ((s : ShardSlot) × (find_slot slot new.shards ≡ some s)
        × IsSlot id slot s
        × (s.epoch ≡ expected + 1)
        × (s.disk_id ≡ new_disk))
    × ((j : ℕ) → j ≢ slot → find_slot j new.shards ≡ find_slot j old.shards)

module _ (chunks : Codec Chunk) (plans : Codec StagingChunk) where
  pub IsRebuilt-rebind :
      (x : ChunkIndex) (id slot disk ts : ℕ) (chunk : Chunk) (old rebuilt : ShardSlot)
      → IsSound x
      → ts < 2 ^ 64
      → lookup id x.chunks ≡ some chunk
      → find_slot slot chunk.shards ≡ some old
      → compose_slot id slot (old.epoch + 1) disk ts ≡ ok rebuilt
      → IsRebuilt id slot old.epoch disk chunk
          (with_shards chunk (replace_slot slot rebuilt chunk.shards))
  IsRebuilt-rebind x id slot disk ts chunk old rebuilt sound ht found at_slot e =
      let (lt, (own, slots, len, small)) = sound.chunks id chunk found in
      let bound : id < 2 ^ 32 = omega (arith, sound.in_range) in
      let fits : 0 + length chunk.shards ≤ 2 ^ 8 = omega arith in
      let (_, byte) = find_slot-IsSlot id 0 slot chunk.shards old bound fits slots at_slot in
      let (is, epoch, on) =
        compose_slot-IsSlot id slot (old.epoch + 1) disk ts rebuilt bound byte ht e in
      let knows = slot_index-IsSlot id slot rebuilt bound byte is in
      (
        refl,
        refl,
        (
          rebuilt,
          find_slot-replace_slot slot slot rebuilt old chunk.shards knows at_slot
              ∙ rw (==_refl slot) refl,
          is,
          epoch,
          on,
        ),
        λ j ne.
            let off : (j == slot) ≡ false = ground arith in
            find_slot-replace_slot slot j rebuilt old chunk.shards knows at_slot ∙ rw off refl,
      )

  pub rebind-IsRebuilt :
      (opened : Bool) (id slot expected new_disk ts : ℕ) (s : Staged)
      → IsSound s.index
      → ts < 2 ^ 64
      → (apply_rebind chunks plans opened id slot expected new_disk ts s).1 ≡ ok none
      → (old : Chunk) × (new : Chunk) × (lookup id s.index.chunks ≡ some old)
        × (lookup id
              (apply_rebind chunks plans opened id slot expected new_disk ts s).0.index.chunks
            ≡ some new)
        × IsRebuilt id slot expected new_disk old new
        × ((k : ℕ)
            → k ≢ id
            → lookup k
                (apply_rebind chunks plans opened id slot expected new_disk ts s).0.index.chunks
              ≡ lookup k s.index.chunks)
  rebind-IsRebuilt opened id slot expected disk ts s sound ht h =
      elim (rebind-effect chunks plans s opened id slot expected disk ts) [
        | inl (_, (r, e, never)) ↦ absurd (never (sym e ∙ h))
        | inr (chunk, old, rebuilt, (found, at_slot, at_epoch, c), inl (x, e, _)) ↦ cc (h, e)
        | inr (chunk, old, rebuilt, (found, at_slot, at_epoch, c), inr (_, e)) ↦
            let new : Chunk = with_shards chunk (replace_slot slot rebuilt chunk.shards) in
            let own = (sound.chunks id chunk found).1.0 in
            let now = ap (λ x. x.chunks) e ∙ ap (λ k. insert k new s.index.chunks) own in
            (
              chunk,
              new,
              found,
              ap (lookup id) now ∙ lookup-insert_self id new s.index.chunks,
              subst (λ n. IsRebuilt id slot n disk chunk new) at_epoch
                  (IsRebuilt-rebind s.index id slot disk ts chunk old rebuilt sound ht found at_slot
                    c),
              λ k ne. ap (lookup k) now ∙ lookup-insert_ne id k new s.index.chunks ne,
            )
      ]
