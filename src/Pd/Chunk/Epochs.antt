-- ===== src/Pd/Chunk/Epochs.antt =====
-- The epochs of a chunk's slots, which crates/epoch-pd/src/chunk/manager.rs only ever raises.
use epoch_io.Common.{
  ℕ, ◌≤◌, ◌≡◌, ◌≢◌, sym, ap, subst, ◌∙◌, arith, some, inl, inr, ◌⊎◌, ◌==◌, Bool-cases,
}
use epoch_io.Common.Map.{Map, lookup, insert, lookup-insert_self, lookup-insert_ne}
use epoch_io.Pd.Records.{Codec}
use epoch_io.Pd.Chunk.{Chunk, ChunkStatus, ShardSlot, StagingChunk, find_slot, replace_slot}
use epoch_io.Pd.Chunk.Manager.{Staged}
use epoch_io.Pd.Chunk.Effects.{committed, create-effect, commit-effect, rebump-effect}
use epoch_io.Pd.Chunk.Moves.{with_shards, seal-effect, rebind-effect}
use epoch_io.Pd.Chunk.Rebind.{IsRebuilt, IsRebuilt-rebind}
use epoch_io.Pd.Chunk.Shape.{IsSound, Step, create, commit, rebump, seal_chunk, rebind_shard}

-- Slot `i` of chunk `k` is at epoch `e` or later.
abbrev pub HasReached : ℕ → ℕ → ℕ → Map Chunk → Type 0
HasReached k i e chunks =
    (c : Chunk) × (s : ShardSlot) × (lookup k chunks ≡ some c)
    × (find_slot i c.shards ≡ some s)
    × (e ≤ s.epoch)

pub eq_cases : (k n : ℕ) → (k ≡ n) ⊎ (k ≢ n)
eq_cases k n = elim (Bool-cases (k == n)) [
  | inl e ↦ inl (ground arith)
  | inr e ↦ inr (ground arith)
]

module _ (chunks : Codec Chunk) (plans : Codec StagingChunk) where
  set_other :
      (k i e id : ℕ) (c : Chunk) (m : Map Chunk)
      → k ≢ id
      → HasReached k i e m
      → HasReached k i e (insert id c m)
  set_other k i e id c m ne (d, s, found, at, le) =
      (d, s, lookup-insert_ne id k c m ne ∙ found, at, le)

  -- A chunk written over another whose slots are all as far on.
  set_same :
      (k i e id : ℕ) (c d : Chunk) (m : Map Chunk)
      → lookup id m ≡ some c
      → ((s : ShardSlot)
          → find_slot i c.shards ≡ some s
          → e ≤ s.epoch
          → (t : ShardSlot) × (find_slot i d.shards ≡ some t) × (e ≤ t.epoch))
      → HasReached k i e m
      → HasReached k i e (insert id d m)
  set_same k i e id c d m known keeps (x, s, found, at, le) = elim (eq_cases k id) [
    | inl p ↦
        let same : x ≡ c = cc (ap (λ n. lookup n m) p, found, known) in
        let (t, at_t, le_t) = keeps s (subst (λ y. find_slot i y.shards ≡ some s) same at) le in
        (d, t, ap (λ n. lookup n (insert id d m)) p ∙ lookup-insert_self id d m, at_t, le_t)
    | inr ne ↦ set_other k i e id d m ne (x, s, found, at, le)
  ]

  rebuilt_reached :
      (id slot disk i e : ℕ) (c d : Chunk) (old : ShardSlot)
      → find_slot slot c.shards ≡ some old
      → IsRebuilt id slot old.epoch disk c d
      → (s : ShardSlot) → find_slot i c.shards ≡ some s
      → e ≤ s.epoch
      → (t : ShardSlot) × (find_slot i d.shards ≡ some t) × (e ≤ t.epoch)
  rebuilt_reached id slot disk i e c d old at_slot (_, _, (t, at_t, _, next, _), others) s at le =
      elim (eq_cases i slot) [
        | inl p ↦
            let same : s ≡ old = cc (ap (λ n. find_slot n c.shards) p, at, at_slot) in
            let le_old : e ≤ old.epoch = subst (λ y. e ≤ y.epoch) same le in
            (t, ap (λ n. find_slot n d.shards) p ∙ at_t, omega (arith, next, le_old))
        | inr ne ↦ (s, others i ne ∙ at, le)
      ]

  -- No command lowers the epoch of a slot.
  pub Step-HasReached :
      (s t : Staged) (k i e : ℕ)
      → Step chunks plans s t
      → IsSound s.index
      → HasReached k i e s.index.chunks
      → HasReached k i e t.index.chunks
  Step-HasReached s _ k i e (create opened mode slots ts epoch _ ht bytes valid) sound r =
      elim (create-effect chunks plans s opened mode slots ts epoch) [
        | inl q ↦ subst (λ x. HasReached k i e x.index.chunks) (sym q) r
        | inr (shards, h, c, q) ↦ subst (λ x. HasReached k i e x.chunks) (sym q) r
      ]
  Step-HasReached s _ k i e (commit opened id _) sound (d, sl, found, at, le) =
      elim (commit-effect chunks plans s opened id) [
        | inl q ↦ subst (λ x. HasReached k i e x.index.chunks) (sym q) (d, sl, found, at, le)
        | inr (plan, staged, q) ↦
            let (_, (own, _, _, _), free) = sound.staging id plan staged in
            let ne : k ≢ plan.chunk_id =
              λ p. cc (ap (λ x. lookup x s.index.chunks) (p ∙ own), found, free) in
            subst (λ x. HasReached k i e x.chunks) (sym q)
              (set_other k i e plan.chunk_id (committed plan) s.index.chunks ne
                (d, sl, found, at, le))
      ]
  Step-HasReached s _ k i e (rebump opened id _) sound r =
      elim (rebump-effect chunks plans s opened id) [
        | inl q ↦ subst (λ x. HasReached k i e x.index.chunks) (sym q) r
        | inr (plan, shards, found, c, q) ↦ subst (λ x. HasReached k i e x.chunks) (sym q) r
      ]
  Step-HasReached s _ k i e (seal_chunk opened id _) sound (d, sl, found, at, le) =
      elim (seal-effect chunks plans s opened id) [
        | inl q ↦ subst (λ x. HasReached k i e x.index.chunks) (sym q) (d, sl, found, at, le)
        | inr (chunk, known, q) ↦
            subst (λ x. HasReached k i e x.chunks) (sym q)
              (set_same k i e id chunk (record chunk { status = ChunkStatus.sealed }) s.index.chunks
                known (λ sl at le. (sl, at, le)) (d, sl, found, at, le))
      ]
  Step-HasReached s _ k i e (rebind_shard opened id slot expected disk ts _ ht) sound r =
      elim (rebind-effect chunks plans s opened id slot expected disk ts) [
        | inl (q, _) ↦ subst (λ x. HasReached k i e x.index.chunks) (sym q) r
        | inr (chunk, old, rebuilt, _, inl (_, _, q)) ↦
            subst (λ x. HasReached k i e x.chunks) (sym q) r
        | inr (chunk, old, rebuilt, (found, at_slot, _, c), inr (_, q)) ↦
            let own = (sound.chunks id chunk found).1.0 in
            subst (λ x. HasReached k i e x.chunks) (sym q)
              (subst
                (λ n. HasReached k i e (
                  insert n (with_shards chunk (replace_slot slot rebuilt chunk.shards))
                    s.index.chunks))
                (sym own)
                (set_same k i e id chunk
                  (with_shards chunk (replace_slot slot rebuilt chunk.shards)) s.index.chunks found
                  (rebuilt_reached id slot disk i e chunk
                    (with_shards chunk (replace_slot slot rebuilt chunk.shards)) old at_slot
                    (IsRebuilt-rebind chunks plans s.index id slot disk ts chunk old rebuilt sound
                      ht found at_slot c))
                  r))
      ]
