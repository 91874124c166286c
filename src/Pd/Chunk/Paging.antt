-- ===== src/Pd/Chunk/Paging.antt =====
-- Walking the chunks page by page with `list_chunks` of crates/epoch-pd/src/chunk/manager.rs, as the
-- inspection round does.
use epoch_io.Common.{
  ℕ, zero, suc, ◌+◌, ◌≤◌, ◌<◌, ◌≡◌, refl, sym, ap, ap₂, ◌∙◌, arith, true, false, List, [], ◌∷◌,
  ◌++◌, take, retain, ltb, All, Bool-cases, inl, inr,
}
use epoch_io.Common.Map.{Map, values, Ascending, Every, lookup_first, lookup_behind}
use epoch_io.Pd.Chunk.{Chunk}
use epoch_io.Pd.Chunk.Shape.{IsSound}
use epoch_io.Pd.Chunk.Manager.{ChunkIndex}
use epoch_io.Pd.Chunk.Reads.{list_chunks}

-- The id of the page's last chunk, from which the next page is asked for.
abbrev pub last_id : ℕ → List Chunk → ℕ
last_id after [] = after
last_id after (c ∷ cs) = last_id c.chunk_id cs

-- Every chunk stands under its own id.
abbrev pub IsKeyed : Map Chunk → Type 0
IsKeyed m = All (λ e. e.1.chunk_id ≡ e.0) m

abbrev beyond : ℕ → Map Chunk → Map Chunk
beyond after m = retain (λ e. ltb after e.0) m

beyond_here :
    (after j : ℕ) (c : Chunk) (m : Map Chunk)
    → after < j
    → beyond after ((j, c) ∷ m) ≡ (j, c) ∷ beyond after m
beyond_here after j c m h = let e : ltb after j ≡ true = ground arith in rw e refl

beyond_there :
    (after j : ℕ) (c : Chunk) (m : Map Chunk)
    → j ≤ after
    → beyond after ((j, c) ∷ m) ≡ beyond after m
beyond_there after j c m h = let e : ltb after j ≡ false = ground arith in rw e refl

-- Below all keys it does not matter where the page starts.
beyond_all : (a b : ℕ) (m : Map Chunk) → a ≤ b → Ascending (suc b) m → beyond a m ≡ beyond b m
beyond_all a b [] h asc = refl
beyond_all a b ((j, c) ∷ m) h (lo, asc) =
    beyond_here a j c m (omega arith)
    ∙ ap (◌∷◌ (j, c))
        (beyond_all a j m (omega arith) asc ∙ sym (beyond_all b j m (omega arith) asc))
    ∙ sym (beyond_here b j c m (omega arith))

values_cons : (j : ℕ) (c : Chunk) (m : Map Chunk) → values ((j, c) ∷ m) ≡ c ∷ values m
unfolding values
values_cons j c m = refl

-- A page of at least one chunk starts with the first chunk behind the watermark.
page_here :
    (n after j b : ℕ) (c : Chunk) (m : Map Chunk)
    → after < j
    → Ascending (suc j) m
    → take (suc n) (values (beyond after ((j, c) ∷ m))) ≡ c ∷ take n (values (beyond j m))
page_here n after j b c m h asc =
    ap (λ x. take (suc n) (values x)) (beyond_here after j c m h)
    ∙ ap (take (suc n)) (values_cons j c (beyond after m))
    ∙ ap (λ x. c ∷ take n (values x)) (beyond_all after j m (omega arith) asc)

last_id-ge :
    (n after b : ℕ) (m : Map Chunk)
    → Ascending b m
    → IsKeyed m
    → after ≤ last_id after (take n (values (beyond after m)))
last_id-ge zero after b m asc keyed = omega arith
last_id-ge (suc n) after b [] asc keyed = unfold values in omega arith
last_id-ge (suc n) after b ((j, c) ∷ m) (lo, asc) (own, keyed) = elim (Bool-cases (ltb after j)) [
  | inl e ↦
      let lt : after < j = ground arith in
      let page = ap (last_id after) (page_here n after j b c m lt asc) in
      let key = ap (λ k. last_id k (take n (values (beyond j m)))) own in
      let rest = last_id-ge n j (suc j) m asc keyed in omega (arith, page, key, rest)
  | inr e ↦
      let page =
        ap (λ x. last_id after (take (suc n) (values x)))
          (beyond_there after j c m (ground arith)) in
      let rest = last_id-ge (suc n) after (suc j) m asc keyed in omega (arith, page, rest)
]

abbrev page : ℕ → ℕ → Map Chunk → List Chunk
page after n m = take n (values (beyond after m))

page_skip :
    (after j n : ℕ) (c : Chunk) (m : Map Chunk)
    → j ≤ after
    → page after n ((j, c) ∷ m) ≡ page after n m
page_skip after j n c m h = ap (λ x. take n (values x)) (beyond_there after j c m h)

plus_suc : (n k : ℕ) → suc n + k ≡ suc (n + k)
plus_suc n k = omega arith

page_none : (after n : ℕ) → page after n [] ≡ []
unfolding values
page_none after zero = refl
page_none after (suc n) = refl

page-append :
    (after n k b : ℕ) (m : Map Chunk)
    → Ascending b m
    → IsKeyed m
    → page after (n + k) m ≡ page after n m ++ page (last_id after (page after n m)) k m
page-append after zero k b m asc keyed =
    ap (λ x. page after x m) (let z : zero + k ≡ k = omega arith in z)
page-append after (suc n) k b [] asc keyed =
    page_none after (suc n + k)
    ∙ sym (ap₂ ◌++◌ (page_none after (suc n)) (page_none (last_id after (page after (suc n) [])) k))
page-append after (suc n) k b ((j, c) ∷ m) (lo, asc) (own, keyed) =
    elim (Bool-cases (ltb after j)) [
      | inl e ↦
          let lt : after < j = ground arith in
          let first = page_here n after j b c m lt asc in
          let rest = page-append j n k (suc j) m asc keyed in
          let far : j ≤ last_id j (page j n m) = last_id-ge n j (suc j) m asc keyed in
          let skip = page_skip (last_id j (page j n m)) j k c m far in
          let last : last_id after (page after (suc n) ((j, c) ∷ m)) ≡ last_id j (page j n m) =
            ap (last_id after) first ∙ ap (λ x. last_id x (page j n m)) own in
          ap (λ x. page after x ((j, c) ∷ m)) (plus_suc n k)
          ∙ page_here (n + k) after j b c m lt asc
          ∙ ap (◌∷◌ c) (rest ∙ ap (λ x. page j n m ++ x) (sym skip))
          ∙ sym (ap₂ (λ x y. x ++ page y k ((j, c) ∷ m)) first last)
      | inr e ↦
          let le : j ≤ after = ground arith in
          let skip = page_skip after j (suc n) c m le in
          let rest = page-append after (suc n) k (suc j) m asc keyed in
          let far = last_id-ge (suc n) after (suc j) m asc keyed in
          let over : j ≤ last_id after (page after (suc n) m) = omega (arith, far) in
          page_skip after j (suc n + k) c m le
          ∙ rest
          ∙ ap (λ x. page after (suc n) m ++ x)
              (sym (page_skip (last_id after (page after (suc n) m)) j k c m over))
          ∙ sym (ap (λ x. x ++ page (last_id after x) k ((j, c) ∷ m)) skip)
    ]

IsKeyed-all : (b : ℕ) (m : Map Chunk) → Ascending b m → Every (λ k c. c.chunk_id ≡ k) m → IsKeyed m
IsKeyed-all b [] asc every = tt
IsKeyed-all b ((j, c) ∷ m) (lo, asc) every = (
  every j c (lookup_first j c m),
  IsKeyed-all (suc j) m asc (λ k d e. every k d (lookup_behind b j k c d m (lo, asc) e)),
)

-- Pages walk the chunks: with the chunk map in key order and every chunk under its own id, asking
-- for `n` chunks and then for `k` more behind the last one's id gives what one page of `n + k` gives.
pub list_chunks-append :
    (x : ChunkIndex) (after n k : ℕ)
    → Ascending 0 x.chunks
    → IsSound x
    → list_chunks x after (n + k)
      ≡ list_chunks x after n ++ list_chunks x (last_id after (list_chunks x after n)) k
unfolding list_chunks
list_chunks-append x after n k asc sound =
    page-append after n k 0 x.chunks asc
      (IsKeyed-all 0 x.chunks asc (λ j c e. let (_, group) = sound.chunks j c e in group.0))
