-- ===== src/Gateway/Range/Bytes.antt =====
-- The bytes that a ranged GET cuts out of the blobs chosen by `plan` of
-- crates/epoch-gateway/src/range.rs. `content` stands for the decoded bytes of a blob, which the
-- erasure coder returns at the blob's logical length.
use epoch_io.Common.{
  ℕ, ◌+◌, ◌-◌, ◌^◌, ◌≤◌, ◌<◌, ◌≡◌, refl, sym, ap, ◌∙◌, arith, false, Bool, Option, some, ok, List,
  [], ◌∷◌, ◌++◌, length, length-append, take, drop, take-append_le, drop-append_ge, drop-append_le,
  length-take, length-drop,
}
use epoch_io.Gateway.Code.{BlobDesc, ObjectLayout}
use epoch_io.Gateway.Range.{
  ByteRange, byte_count, RangePlan, resolve, scan, scan_start, is_empty, plan,
}
use epoch_io.Gateway.Range.Resolve.{resolve-within}
use epoch_io.Gateway.Range.Plan.{total_len, inside, scan-before}
use mathlib.Core.List.{append_assoc}

-- A window that lies in the middle of three parts is cut out of the middle one alone.
pub window_middle {ℓ} :
    {A : Type ℓ} (n start : ℕ) (xs ys zs : List A)
    → length xs ≤ start
    → start + n ≤ length xs + length ys
    → take n (drop start (xs ++ (ys ++ zs))) ≡ take n (drop (start - length xs) ys)
window_middle n start xs ys zs lo hi =
    ap (take n) (drop-append_ge start xs (ys ++ zs) lo)
    ∙ ap (take n) (drop-append_le (start - length xs) ys zs (omega arith))
    ∙ take-append_le n (drop (start - length xs) ys) zs
        (omega (arith, length-drop (start - length xs) ys))

module _ (content : BlobDesc → List ℕ) (sized : (b : BlobDesc) → length (content b) ≡ b.len) where
  -- The decoded blobs, one after the other.
  abbrev pub joined : List BlobDesc → List ℕ
  joined [] = []
  joined (b ∷ bs) = content b ++ joined bs

  joined-append : (xs ys : List BlobDesc) → joined (xs ++ ys) ≡ joined xs ++ joined ys
  joined-append [] ys = refl
  joined-append (x ∷ xs) ys =
      ap (◌++◌ (content x)) (joined-append xs ys)
      ∙ sym (append_assoc (content x) (joined xs) (joined ys))

  length-joined : (xs : List BlobDesc) → length (joined xs) ≡ total_len xs
  length-joined [] = refl
  length-joined (x ∷ xs) =
      length-append (content x) (joined xs) ∙ omega (arith, sized x, length-joined xs)

  -- The trimmed bytes of a plan.
  abbrev pub trimmed : RangePlan → List ℕ
  trimmed p = take p.take (drop p.skip (joined p.blobs))

  abbrev pub window : List BlobDesc → ByteRange → List ℕ
  window bs r = take (byte_count r) (drop r.start (joined bs))

  plan_found :
      (layout : ObjectLayout) (r : ByteRange) (more : List BlobDesc) (k n : ℕ)
      → scan layout.blobs r scan_start ≡ inside more k n
      → is_empty more ≡ false
      → r.end < n
      → plan layout r ≡ some (record { blobs = more; skip = k; take = byte_count r })
  unfolding plan
  plan_found layout r more k n e ne h = rw e (ground arith)

  -- A window inside the blobs always has a plan, and the trimmed blobs are the window's bytes.
  pub plan_reads :
      (layout : ObjectLayout) (r : ByteRange)
      → r.start ≤ r.end
      → r.end < total_len layout.blobs
      → total_len layout.blobs < 2 ^ 64
      → (p : RangePlan) × (plan layout r ≡ some p)
        × (trimmed p ≡ window layout.blobs r)
        × (length (trimmed p) ≡ r.end - r.start + 1)
  plan_reads layout r le reach fits =
      let (pre, more, post, e, ne, lo, hi, sc) =
        scan-before r layout.blobs 0 (omega arith) le (omega arith) (omega arith) in
      let skip : ℕ = r.start - (0 + total_len pre) in
      let z : 0 + total_len pre ≡ total_len pre = omega arith in
      let p : RangePlan = record { blobs = more; skip = skip; take = byte_count r } in
      let lp = length-joined pre in
      let lm = length-joined more in
      let n : byte_count r ≡ r.end - r.start + 1 = unfold byte_count in refl in
      (
        p,
        plan_found layout r more skip _ sc ne hi,
        sym (
            ap (λ l. take (byte_count r) (drop r.start l))
              (ap joined e
                ∙ joined-append pre (more ++ post)
                ∙ ap (◌++◌ (joined pre)) (joined-append more post))
            ∙ window_middle (byte_count r) r.start (joined pre) (joined more) (joined post)
                (omega arith) (omega arith)
            ∙ ap (λ t. take (byte_count r) (drop (r.start - t) (joined more))) (lp ∙ sym z)),
        length-take (byte_count r) (drop skip (joined more))
            ∙ omega (arith, length-drop skip (joined more)),
      )

  -- A request that resolves against the object's size is answered with exactly its bytes.
  pub resolve-plan_reads :
      (layout : ObjectLayout) (first : ℕ) (last : Option ℕ) (suffix : Bool) (r : ByteRange)
      → layout.size ≡ total_len layout.blobs
      → layout.size < 2 ^ 64
      → resolve layout.size first last suffix ≡ ok r
      → (p : RangePlan) × (plan layout r ≡ some p) × (trimmed p ≡ window layout.blobs r)
  resolve-plan_reads layout first last suffix r covers fits h =
      let (le, lt, _) = resolve-within layout.size first last suffix r h in
      let (p, e, bytes, _) = plan_reads layout r le (omega arith) (omega arith) in (p, e, bytes)
