-- ===== src/Meta/Partition/Export.antt =====
-- What the export bounds of crates/epoch-meta/src/partition/mod.rs cover.
use epoch_io.Common.{
  ℕ, ◌^◌, ◌<◌, ◌≤◌, ◌≡◌, ◌≢◌, refl, sym, ap, ap₂, ◌∙◌, arith, Bool, true, false, not, ◌&&◌, ◌||◌,
  Option, none, some, List, [], ◌∷◌, ◌++◌, Bool-cases, inl, inr, ltb, ◌==◌,
}
use epoch_io.Common.Bytes.{to_be_bytes}
use epoch_io.Common.Lex.{lex_ltb, lex_ltb_trans}
use epoch_io.Meta.Keys.{MetaCf, tag, routing_key, flat_key}
use epoch_io.Meta.Keys.Routing.{IsPlain, routing_key-flat_key, routing_key-ttl, never_below}
use epoch_io.Meta.Partition.{
  Namespace, Coord, PartitionRange, KeyRange, primary_cf, contains_coord, after_start, before_end,
  contains, contains_routed, owns_shared_cf, hier_bucket_bit, cf_bound, is_shared_cf, ns_bit_bound,
  start_bound, end_bound, is_ttl, clamped, key_range, coord_ltb,
}
use epoch_io.Meta.Partition.Coord.{cf_bound-order}

-- Whether a key lies in a half-open range of keys.
unfoldable pub in_range : KeyRange → List ℕ → Bool
in_range r key = not (lex_ltb key r.start) && lex_ltb key r.end

-- The family is one that the namespace exports and that sorts by the routing key.
abbrev pub IsExported : Namespace → MetaCf → Type 0
IsExported Namespace.flat cf = IsPlain cf × (cf ≢ MetaCf.fs)
IsExported Namespace.hier cf = IsPlain cf × (cf ≢ MetaCf.meta)

-- The bucket is one that the namespace allocates.
abbrev pub IsBucket : Namespace → ℕ → Type 0
IsBucket Namespace.flat b = b < hier_bucket_bit
IsBucket Namespace.hier b = (hier_bucket_bit ≤ b) × (b < 2 ^ 64)

-- The bounds' buckets are `u64` values.
abbrev pub Bounded : Option Coord → Type 0
Bounded none = Unit {0}
Bounded (some c) = c.0 < 2 ^ 64

owned :
    (ns : Namespace) (s e : Option Coord) (cf : MetaCf)
    → IsExported ns cf
    → (tag cf == tag (primary_cf ns)
        || owns_shared_cf (record { ns = ns; start = s; end = e }) (tag cf))
      ≡ true
unfolding owns_shared_cf
owned Namespace.flat s e MetaCf.meta x = refl
owned Namespace.flat s e MetaCf.fs (_, h) = absurd (h refl)
owned Namespace.flat s e MetaCf.meta_seg x = refl
owned Namespace.flat s e MetaCf.upload x = refl
owned Namespace.flat s e MetaCf.delq x = refl
owned Namespace.flat s e MetaCf.ttl ((h, _), _) = absurd (h refl)
owned Namespace.flat s e MetaCf.applied ((_, h), _) = absurd (h refl)
owned Namespace.hier s e MetaCf.meta (_, h) = absurd (h refl)
owned Namespace.hier s e MetaCf.fs x = refl
owned Namespace.hier s e MetaCf.meta_seg x = refl
owned Namespace.hier s e MetaCf.upload x = refl
owned Namespace.hier s e MetaCf.delq x = refl
owned Namespace.hier s e MetaCf.ttl ((h, _), _) = absurd (h refl)
owned Namespace.hier s e MetaCf.applied ((_, h), _) = absurd (h refl)

contains_owned :
    (p : PartitionRange) (t : ℕ) (rest : List ℕ) (c : Coord)
    → (t == tag (primary_cf p.ns) || owns_shared_cf p t) ≡ true
    → routing_key (t ∷ rest) ≡ some c
    → contains p (t ∷ rest) ≡ contains_coord p c
unfolding contains
contains_owned p t rest c h e = rw h (ap (contains_routed p) e)

IsExported-IsPlain : (ns : Namespace) (cf : MetaCf) → IsExported ns cf → IsPlain cf
IsExported-IsPlain Namespace.flat cf (h, _) = h
IsExported-IsPlain Namespace.hier cf (h, _) = h

IsBucket-lt : (ns : Namespace) (b : ℕ) → IsBucket ns b → b < 2 ^ 64
IsBucket-lt Namespace.flat b h = omega arith
IsBucket-lt Namespace.hier b (_, h) = h

-- A key of an exported family is the partition's exactly when its coordinate is.
pub contains-coord :
    (p : PartitionRange) (cf : MetaCf) (bucket : ℕ) (object_key suffix : List ℕ)
    → IsExported p.ns cf
    → bucket < 2 ^ 64
    → contains p (flat_key cf bucket object_key suffix)
      ≡ contains_coord p (bucket, object_key ++ suffix)
contains-coord p cf b k s x h =
    let e = routing_key-flat_key cf b k s (IsExported-IsPlain p.ns cf x) h in
    unfold flat_key in contains_owned p (tag cf) _ (b, k ++ s) (owned p.ns p.start p.end cf x) e

below_start :
    (cf : MetaCf) (s : Option Coord) (c : Coord)
    → Bounded s
    → c.0 < 2 ^ 64
    → not (lex_ltb (cf_bound cf c) (start_bound cf s)) ≡ after_start s c
below_start cf none c hs hc = unfold cf_bound start_bound lex_ltb after_start in ground arith
below_start cf (some d) c hs hc =
    unfold start_bound after_start in ap not (cf_bound-order cf c d hc hs)

below_end :
    (cf : MetaCf) (e : Option Coord) (c : Coord)
    → is_ttl cf ≡ false
    → Bounded e
    → c.0 < 2 ^ 64
    → lex_ltb (cf_bound cf c) (end_bound cf e) ≡ before_end e c
below_end cf none c t he hc = unfold cf_bound end_bound lex_ltb before_end in ground arith
below_end cf (some (b, k)) c t he hc =
    unfold end_bound before_end in rw t (cf_bound-order cf c (b, k) hc he)

bit_coord : (cf : MetaCf) → ns_bit_bound cf ≡ cf_bound cf (hier_bucket_bit, [])
unfolding ns_bit_bound cf_bound
bit_coord cf = refl

below_nil : (xs : List ℕ) → lex_ltb xs [] ≡ false
unfolding lex_ltb
below_nil [] = refl
below_nil (x ∷ xs) = refl

-- The namespace bit parts the keys of a shared family by their buckets.
below_bit :
    (cf : MetaCf) (c : Coord)
    → c.0 < 2 ^ 64
    → lex_ltb (cf_bound cf c) (ns_bit_bound cf) ≡ ltb c.0 hier_bucket_bit
below_bit cf (b, r) h =
    ap (lex_ltb (cf_bound cf (b, r))) (bit_coord cf)
    ∙ cf_bound-order cf (b, r) (hier_bucket_bit, []) h (omega arith)
    ∙ (unfold coord_ltb in ground (arith, below_nil r))

clamp_flat :
    (cf : MetaCf) (start end key : List ℕ)
    → lex_ltb key (ns_bit_bound cf) ≡ true
    → in_range (clamped Namespace.flat cf start end) key
      ≡ (not (lex_ltb key start) && lex_ltb key end)
unfolding in_range
clamp_flat cf start end key h = elim (Bool-cases (lex_ltb (ns_bit_bound cf) end)) [
  | inl e ↦ rw e (
      ap (λ t. not (lex_ltb key start) && t)
        (h ∙ sym (lex_ltb_trans key (ns_bit_bound cf) end h e)))
  | inr e ↦ rw e refl
]

clamp_hier :
    (cf : MetaCf) (start end key : List ℕ)
    → lex_ltb key (ns_bit_bound cf) ≡ false
    → in_range (clamped Namespace.hier cf start end) key
      ≡ (not (lex_ltb key start) && lex_ltb key end)
unfolding in_range
clamp_hier cf start end key h = elim (Bool-cases (lex_ltb start (ns_bit_bound cf))) [
  | inl e ↦ rw e (ap (λ t. not t && lex_ltb key end) (h ∙ sym (above key h e)))
  | inr e ↦ rw e refl
]
  where
    above :
        (key : List ℕ)
        → lex_ltb key (ns_bit_bound cf) ≡ false
        → lex_ltb start (ns_bit_bound cf) ≡ true
        → lex_ltb key start ≡ false
    above key h e = elim (Bool-cases (lex_ltb key start)) [
      | inl q ↦ cc (h, lex_ltb_trans key start (ns_bit_bound cf) q e)
      | inr q ↦ q
    ]

clamp_covers :
    (ns : Namespace) (cf : MetaCf) (start end : List ℕ) (c : Coord)
    → IsBucket ns c.0
    → in_range (clamped ns cf start end) (cf_bound cf c)
      ≡ (not (lex_ltb (cf_bound cf c) start) && lex_ltb (cf_bound cf c) end)
clamp_covers Namespace.flat cf start end c h =
    clamp_flat cf start end (cf_bound cf c) (below_bit cf c (omega arith) ∙ ground arith)
clamp_covers Namespace.hier cf start end c (lo, hi) =
    clamp_hier cf start end (cf_bound cf c) (below_bit cf c hi ∙ ground arith)

plain_not_ttl : (cf : MetaCf) → IsPlain cf → is_ttl cf ≡ false
plain_not_ttl MetaCf.meta x = refl
plain_not_ttl MetaCf.fs x = refl
plain_not_ttl MetaCf.meta_seg x = refl
plain_not_ttl MetaCf.upload x = refl
plain_not_ttl MetaCf.delq x = refl
plain_not_ttl MetaCf.ttl (h, _) = absurd (h refl)
plain_not_ttl MetaCf.applied x = refl

range_covers :
    (p : PartitionRange) (cf : MetaCf) (c : Coord)
    → IsBucket p.ns c.0
    → in_range (key_range p cf) (cf_bound cf c) ≡ (
        not (lex_ltb (cf_bound cf c) (start_bound cf p.start))
        && lex_ltb (cf_bound cf c) (end_bound cf p.end))
range_covers p cf c h = elim (Bool-cases (is_shared_cf cf)) [
  | inl e ↦ unfold key_range in rw e (clamp_covers p.ns cf _ _ c h)
  | inr e ↦ unfold key_range in_range in rw e refl
]

-- Outside the ttl family the export bounds of a partition hold exactly the keys that it contains,
-- the namespace bit's clamp included.
pub key_range-exact :
    (p : PartitionRange) (cf : MetaCf) (bucket : ℕ) (object_key suffix : List ℕ)
    → IsExported p.ns cf
    → IsBucket p.ns bucket
    → Bounded p.start
    → Bounded p.end
    → in_range (key_range p cf) (flat_key cf bucket object_key suffix)
      ≡ contains p (flat_key cf bucket object_key suffix)
key_range-exact p cf b k s x hb hs he =
    let plain = IsExported-IsPlain p.ns cf x in
    let lt = IsBucket-lt p.ns b hb in
    let c : Coord = (b, k ++ s) in
    as_bound
    ∙ range_covers p cf c hb
    ∙ ap₂ (λ u v. u && v) (below_start cf p.start c hs lt)
        (below_end cf p.end c (plain_not_ttl cf plain) he lt)
    ∙ both
    ∙ sym (contains-coord p cf b k s x lt)
  where
    as_bound :
        in_range (key_range p cf) (flat_key cf b k s)
        ≡ in_range (key_range p cf) (cf_bound cf (b, k ++ s))
    as_bound = unfold flat_key cf_bound in refl

    both :
        (after_start p.start (b, k ++ s) && before_end p.end (b, k ++ s))
        ≡ contains_coord p (b, k ++ s)
    both = unfold contains_coord in refl

ttl_owned :
    (ns : Namespace) (s e : Option Coord)
    → (tag MetaCf.ttl == tag (primary_cf ns)
        || owns_shared_cf (record { ns = ns; start = s; end = e }) (tag MetaCf.ttl))
      ≡ true
unfolding owns_shared_cf
ttl_owned Namespace.flat s e = refl
ttl_owned Namespace.hier s e = refl

not_below_end :
    (b : ℕ) (rest : List ℕ)
    → lex_ltb (tag MetaCf.ttl ∷ (to_be_bytes 8 b ++ rest)) (tag MetaCf.ttl ∷ to_be_bytes 8 b)
      ≡ false
not_below_end b rest = never_below (tag MetaCf.ttl ∷ to_be_bytes 8 b) rest

-- The ttl keys of the bucket in which a partition ends lie past its export bounds, also those whose
-- coordinate the partition owns.
pub ttl_missed :
    (p : PartitionRange) (bucket expire_ts : ℕ) (routing boundary : List ℕ)
    → bucket < 2 ^ 64
    → IsBucket p.ns bucket
    → p.end ≡ some (bucket, boundary)
    → contains_coord p (bucket, routing) ≡ true
    → (contains p (flat_key MetaCf.ttl bucket (to_be_bytes 8 expire_ts) routing) ≡ true)
      × (in_range
            (key_range p MetaCf.ttl)
            (flat_key MetaCf.ttl bucket (to_be_bytes 8 expire_ts) routing)
          ≡ false)
ttl_missed p b ts r k lt hb e inside =
    let key : List ℕ = to_be_bytes 8 ts ++ r in
    (
      contained,
      as_bound
          ∙ range_covers p MetaCf.ttl (b, key) hb
          ∙ ap
              (λ o.
                not (lex_ltb (cf_bound MetaCf.ttl (b, key)) (start_bound MetaCf.ttl p.start))
                && lex_ltb (cf_bound MetaCf.ttl (b, key)) (end_bound MetaCf.ttl o))
              e
          ∙ ap
              (λ t.
                not (lex_ltb (cf_bound MetaCf.ttl (b, key)) (start_bound MetaCf.ttl p.start)) && t)
              past_end
          ∙ ground arith,
    )
  where
    past_end :
        lex_ltb
          (cf_bound MetaCf.ttl (b, to_be_bytes 8 ts ++ r))
          (end_bound MetaCf.ttl (some (b, k)))
        ≡ false
    past_end = unfold cf_bound end_bound in not_below_end b (to_be_bytes 8 ts ++ r)

    contained : contains p (flat_key MetaCf.ttl b (to_be_bytes 8 ts) r) ≡ true
    contained =
        unfold flat_key in
        contains_owned p (tag MetaCf.ttl) _ (b, r) (ttl_owned p.ns p.start p.end)
          (routing_key-ttl b ts r lt)
        ∙ inside

    as_bound :
        in_range (key_range p MetaCf.ttl) (flat_key MetaCf.ttl b (to_be_bytes 8 ts) r)
        ≡ in_range (key_range p MetaCf.ttl) (cf_bound MetaCf.ttl (b, to_be_bytes 8 ts ++ r))
    as_bound = unfold flat_key cf_bound in refl
