-- ===== src/Gateway/Range/Plan.antt =====
-- What `plan` of crates/epoch-gateway/src/range.rs selects: the loop over the blobs, then the bytes.
use epoch_io.Common.{
  ℕ, ◌+◌, ◌-◌, ◌^◌, ◌≤◌, ◌<◌, ◌≡◌, refl, ap, ap₂, ◌∙◌, arith, Bool-cases, false, none, some, List,
  [], ◌∷◌, ◌++◌, ltb, inl, inr,
}
use epoch_io.Gateway.Code.{BlobDesc}
use epoch_io.Gateway.Range.{ByteRange, Scan, visit, scan, is_empty}
use mathlib.Core.List.{append_assoc}

-- The bytes that the blobs of a list hold together.
abbrev pub total_len : List BlobDesc → ℕ
total_len [] = 0
total_len (b ∷ bs) = b.len + total_len bs

total_len-append : (xs ys : List BlobDesc) → total_len (xs ++ ys) ≡ total_len xs + total_len ys
total_len-append [] ys = omega arith
total_len-append (x ∷ xs) ys = omega (arith, total_len-append xs ys)

-- The loop's variables before the window, and from its first blob on.
abbrev pub before : ℕ → Scan
before o = record { blobs = []; offset = o; skip = none }

abbrev pub inside : List BlobDesc → ℕ → ℕ → Scan
inside sel k o = record { blobs = sel; offset = o; skip = some k }

inside_snoc :
    (sel : List BlobDesc) (b : BlobDesc) (more : List BlobDesc) (o k : ℕ)
    → inside ((sel ++ (b ∷ [])) ++ more) k (o + b.len + total_len more)
      ≡ inside (sel ++ (b ∷ more)) k (o + total_len (b ∷ more))
inside_snoc sel b more o k =
    ap₂ (λ l n. inside l k n) (append_assoc sel (b ∷ []) more) (omega arith)

module _ (range : ByteRange) where
  -- One round before the window, on the blob where it starts, and inside it.
  visit-before :
      (b : BlobDesc) (o : ℕ)
      → o + b.len ≤ range.start
      → range.start < 2 ^ 64
      → visit b range (before o) ≡ before (o + b.len)
  unfolding visit
  visit-before b o h fits = ground arith

  visit_first :
      (b : BlobDesc) (o : ℕ)
      → o ≤ range.start
      → range.start ≤ range.end
      → range.start < o + b.len
      → o + b.len < 2 ^ 64
      → visit b range (before o) ≡ inside (b ∷ []) (range.start - o) (o + b.len)
  unfolding visit
  visit_first b o h le lt fits = ground arith

  visit-inside :
      (b : BlobDesc) (sel : List BlobDesc) (o k : ℕ)
      → range.start < o
      → o ≤ range.end
      → o + b.len < 2 ^ 64
      → visit b range (inside sel k o) ≡ inside (sel ++ (b ∷ [])) k (o + b.len)
  unfolding visit
  visit-inside b sel o k lt le fits = ground arith

  scan_stop :
      (b : BlobDesc) (bs : List BlobDesc) (s s' : Scan)
      → visit b range s ≡ s'
      → range.end < s'.offset
      → scan (b ∷ bs) range s ≡ s'
  unfolding scan
  scan_stop b bs s s' e h = rw e (ground arith)

  scan_on :
      (b : BlobDesc) (bs : List BlobDesc) (s s' : Scan)
      → visit b range s ≡ s'
      → s'.offset ≤ range.end
      → scan (b ∷ bs) range s ≡ scan bs range s'
  unfolding scan
  scan_on b bs s s' e h = rw e (ground arith)

  -- From inside the window the loop takes blobs until it has passed the end.
  scan-inside :
      (bs sel : List BlobDesc) (o k : ℕ)
      → range.start < o
      → o ≤ range.end
      → range.end < o + total_len bs
      → o + total_len bs < 2 ^ 64
      → (more post : List BlobDesc) × (bs ≡ more ++ post)
        × (range.end < o + total_len more)
        × (scan bs range (inside sel k o) ≡ inside (sel ++ more) k (o + total_len more))
  scan-inside [] sel o k lt le reach fits = absurd (omega arith)
  scan-inside (b ∷ bs) sel o k lt le reach fits = elim (Bool-cases (ltb range.end (o + b.len))) [
    | inl past ↦ (
      b ∷ [],
      bs,
      refl,
      ground arith,
      scan_stop b bs _ _ (visit-inside b sel o k lt le (omega arith)) (ground arith)
          ∙ ap (inside (sel ++ (b ∷ [])) k) (omega arith),
    )
    | inr on ↦
        let (more, post, e, r, sc) =
          scan-inside bs (sel ++ (b ∷ [])) (o + b.len) k (omega arith) (ground arith) (omega arith)
            (omega arith) in
        (
          b ∷ more,
          post,
          ap (◌∷◌ b) e,
          omega arith,
          scan_on b bs _ _ (visit-inside b sel o k lt le (omega arith)) (ground arith)
              ∙ sc
              ∙ inside_snoc sel b more o k,
        )
  ]

  -- The blob with the first byte starts the selection.
  scan_first :
      (b : BlobDesc) (bs : List BlobDesc) (o : ℕ)
      → o ≤ range.start
      → range.start ≤ range.end
      → range.start < o + b.len
      → range.end < o + total_len (b ∷ bs)
      → o + total_len (b ∷ bs) < 2 ^ 64
      → (pre more post : List BlobDesc) × (b ∷ bs ≡ pre ++ (more ++ post))
        × (is_empty more ≡ false)
        × (o + total_len pre ≤ range.start)
        × (range.end < o + total_len pre + total_len more)
        × (scan (b ∷ bs) range (before o)
            ≡ inside more (range.start - (o + total_len pre)) (o + total_len pre + total_len more))
  scan_first b bs o le se at reach fits = elim (Bool-cases (ltb range.end (o + b.len))) [
    | inl past ↦ (
      [],
      b ∷ [],
      bs,
      refl,
      refl,
      omega arith,
      ground arith,
      scan_stop b bs _ _ (visit_first b o le se at (omega arith)) (ground arith)
          ∙ ap₂ (inside (b ∷ [])) (omega arith) (omega arith),
    )
    | inr on ↦
        let (more, post, e, r, sc) =
          scan-inside bs (b ∷ []) (o + b.len) (range.start - o) (omega arith) (ground arith)
            (omega arith) (omega arith) in
        (
          [],
          b ∷ more,
          post,
          ap (◌∷◌ b) e,
          refl,
          omega arith,
          omega arith,
          scan_on b bs _ _ (visit_first b o le se at (omega arith)) (ground arith)
              ∙ sc
              ∙ ap₂ (inside (b ∷ more)) (omega arith) (omega arith),
        )
  ]

  -- Before the window the loop passes over blobs until the one that holds the first byte.
  pub scan-before :
      (bs : List BlobDesc) (o : ℕ)
      → o ≤ range.start
      → range.start ≤ range.end
      → range.end < o + total_len bs
      → o + total_len bs < 2 ^ 64
      → (pre more post : List BlobDesc) × (bs ≡ pre ++ (more ++ post))
        × (is_empty more ≡ false)
        × (o + total_len pre ≤ range.start)
        × (range.end < o + total_len pre + total_len more)
        × (scan bs range (before o)
            ≡ inside more (range.start - (o + total_len pre)) (o + total_len pre + total_len more))
  scan-before [] o le se reach fits = absurd (omega arith)
  scan-before (b ∷ bs) o le se reach fits = elim (Bool-cases (ltb range.start (o + b.len))) [
    | inl at ↦ scan_first b bs o le se (ground arith) reach fits
    | inr past ↦
        let (pre, more, post, e, ne, lo, hi, sc) =
          scan-before bs (o + b.len) (ground arith) se (omega arith) (omega arith) in
        let p : o + b.len + total_len pre ≡ o + total_len (b ∷ pre) = omega arith in
        (
          b ∷ pre,
          more,
          post,
          ap (◌∷◌ b) e,
          ne,
          omega arith,
          omega arith,
          scan_on b bs _ _ (visit-before b o (ground arith) (omega arith)) (ground arith)
              ∙ sc
              ∙ ap (λ n. inside more (range.start - n) (n + total_len more)) p,
        )
  ]
