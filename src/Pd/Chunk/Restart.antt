-- ===== src/Pd/Chunk/Restart.antt =====
-- What `restore` of crates/epoch-pd/src/chunk/manager.rs rebuilds after a restart.
use epoch_io.Common.{
  ℕ, suc, ◌<◌, ◌≡◌, ◌↔◌, refl, sym, ap, subst, ◌∙◌, arith, Bool, true, false, ◌||◌, some, List, [],
  ◌∷◌, ok, any, ◌==◌, ==_refl, Bool-cases, inl, inr,
}
use epoch_io.Common.Map.{Map, lookup, insert, values, Ascending, insert-Ascending, Ascending-below}
use epoch_io.Pd.Records.{Codec, Entries, collect, load_records}
use epoch_io.Pd.Chunk.{Chunk, StagingChunk}
use epoch_io.Pd.Chunk.Manager.{ChunkIndex, Prefixes, index_shards}
use epoch_io.Pd.Chunk.Stored.{index_all, restore, chunk_key, rebuilt_index}
use epoch_io.Pd.Chunk.Slots.{bind-ok}
use epoch_io.Pd.Chunk.Prefixes.{holds, has_slot, holds-index_shards}
use epoch_io.Pd.Chunk.Indexed.{IsIndexed}

collect-Ascending :
    {V : Type 0} (id_of : V → ℕ) (m : Map V) (rs : List V)
    → Ascending 0 m
    → Ascending 0 (collect id_of m rs)
unfolding collect
collect-Ascending id_of m [] a = a
collect-Ascending id_of m (r ∷ rs) a =
    collect-Ascending id_of (insert (id_of r) r m) rs
      (insert-Ascending 0 (id_of r) r m (omega arith) a)

holds-index_all :
    (d p : ℕ) (cs : List Chunk) (m : Prefixes)
    → holds d p (index_all cs m) ≡ (any (λ c. has_slot d p c.shards) cs || holds d p m)
unfolding index_all
holds-index_all d p [] m = refl
holds-index_all d p (c ∷ cs) m =
    holds-index_all d p cs (index_shards c.shards m)
    ∙ ground (arith, holds-index_shards d p c.shards m)

-- In key order, the values are what the keys answer.
any-values :
    {V : Type 0} (f : V → Bool) (n : ℕ) (m : Map V)
    → Ascending n m
    → (any f (values m) ≡ true) ↔ ((k : ℕ) × (v : V) × (lookup k m ≡ some v) × (f v ≡ true))
unfolding lookup values
any-values f n [] a = (λ h. cc, λ (k, v, e, h). cc)
any-values {V} f n ((j, w) ∷ m) (b, a) =
    let (there, back) = any-values f (suc j) m a in
    (
      λ h. elim (Bool-cases (f w)) [
        | inl e ↦ (j, w, rw (==_refl j) refl, e)
        | inr e ↦
            let (k, v, found, q) = there (rw e at h) in
            let ne : (k == j) ≡ false = other k v found in (k, v, rw ne found, q)
      ],
      λ (k, v, found, q). elim (Bool-cases (k == j)) [
        | inl e ↦ let same : w ≡ v = cc (rw e at found) in rw (ap f same ∙ q) refl
        | inr e ↦ let rest = back (k, v, rw e at found, q) in ground (arith, rest)
      ],
    )
  where
    other : (k : ℕ) (v : V) → lookup k m ≡ some v → (k == j) ≡ false
    other k v found = elim (Bool-cases (k == j)) [
      | inr e ↦ e
      | inl e ↦ let low : k < suc j = ground arith in cc (found, Ascending-below (suc j) k m low a)
    ]

no_prefix : (d p : ℕ) → holds d p [] ≡ false
unfolding holds lookup
no_prefix d p = refl

only_prefix : (d p : ℕ) (b : Bool) → (b || holds d p []) ≡ true → b ≡ true
only_prefix d p b q = ground (arith, no_prefix d p)

-- The rebuilt secondary index lists what the rebuilt chunks hold.
pub rebuilt-IsIndexed :
    (cs : List Chunk) (n : ℕ) (ps : List StagingChunk)
    → IsIndexed (rebuilt_index cs n ps).disk_shards (rebuilt_index cs n ps).chunks
rebuilt-IsIndexed cs n ps d p =
    let m : Map Chunk = collect chunk_key [] cs in
    let e = holds-index_all d p (values m) [] in
    let (there, back) =
      any-values (λ c. has_slot d p c.shards) 0 m (collect-Ascending chunk_key [] cs tt) in
    (
      λ q. there (only_prefix d p (any (λ c. has_slot d p c.shards) (values m)) (sym e ∙ q)),
      λ q. e ∙ ap (λ b. b || holds d p []) (back q),
    )

-- After a restart the secondary index lists a prefix under a disk exactly when a restored chunk has a
-- slot with that prefix on that disk.
pub restore-IsIndexed :
    (chunks : Codec Chunk) (plans : Codec StagingChunk) (opened : Bool)
    (chunk_entries staging_entries : Entries) (x : ChunkIndex)
    → restore chunks plans opened chunk_entries staging_entries ≡ ok x
    → IsIndexed x.disk_shards x.chunks
unfolding restore
restore-IsIndexed chunks plans opened es ss x h =
    let (loaded, _, h') = bind-ok (load_records chunks opened es) _ x h in
    let (staged, _, h'') = bind-ok (load_records plans opened ss) _ x h' in
    let same : rebuilt_index loaded.0 loaded.1 staged.0 ≡ x = cc h'' in
    subst (λ (y : ChunkIndex). IsIndexed y.disk_shards y.chunks) same
      (rebuilt-IsIndexed loaded.0 loaded.1 staged.0)
