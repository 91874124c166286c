-- ===== src/Pd/Records/View.antt =====
-- A pending batch seen through the store, and when that view and an in-memory index agree.
use epoch_io.Common.{
  ℕ, ◌+◌, ◌^◌, ◌≤◌, ◌<◌, ◌≡◌, ◌≢◌, refl, sym, ap, subst, ◌∙◌, arith, true, Option, none, some, List,
  [], ◌∷◌, ◌++◌, Result, ok, err, ◌⊎◌, inl, inr, ◌==◌, length, if◌then◌else◌, Bool-cases,
  Option-cases, ltb,
}
use epoch_io.Common.Bytes.{
  to_be_bytes, from_be_bytes, bytes_eq, bytes_eq→eq, bytes_eq_refl, length-to_be_bytes,
  from_be_bytes-to_be_bytes,
}
use mathlib.Core.Path.{subst₂, fun_ext}
use epoch_io.Common.Map.{lookup, insert, lookup-insert_self, lookup-insert_ne}
use epoch_io.Pd.Records.{
  SmError, Cf, same_cf, Bytes, BatchOp, put, delete, Entries, after, Codec, first_id, next_id_key,
  record_key, counter_value, stage_put_record, Table, get, advance_counter,
}

pub after-append :
    (xs ys : List BatchOp) (cf : Cf) (k : Bytes) (old : Option Bytes)
    → after (xs ++ ys) cf k old ≡ after ys cf k (after xs cf k old)
unfolding after
after-append [] ys cf k old = refl
after-append (put c j v ∷ xs) ys cf k old = after-append xs ys cf k _
after-append (delete c j ∷ xs) ys cf k old = after-append xs ys cf k _

pub same_cf_refl : (cf : Cf) → same_cf cf cf ≡ true
unfolding same_cf
same_cf_refl Cf.job = refl
same_cf_refl Cf.writer = refl
same_cf_refl Cf.chunk = refl
same_cf_refl Cf.chunk_staging = refl
same_cf_refl Cf.node = refl
same_cf_refl Cf.disk = refl
same_cf_refl Cf.shard_repair = refl
same_cf_refl Cf.config = refl
same_cf_refl Cf.bucket = refl
same_cf_refl Cf.cred = refl
same_cf_refl Cf.meta_partition = refl

pub record_key-injective : (i j : ℕ) → i < 2 ^ 32 → j < 2 ^ 32 → record_key i ≡ record_key j → i ≡ j
unfolding record_key
record_key-injective i j hi hj e =
    sym (from_be_bytes-to_be_bytes 4 i hi) ∙ ap from_be_bytes e ∙ from_be_bytes-to_be_bytes 4 j hj

-- Four bytes are never the seven of the counter's key.
pub record_key-ne-next_id_key : (i : ℕ) → record_key i ≢ next_id_key
unfolding record_key
record_key-ne-next_id_key i e = absurd (omega (arith, length-to_be_bytes 4 i, ap length e))

-- What each key of the column family holds, with the batch carried out.
abbrev pub View : Type 0
View = Bytes → Option Bytes

abbrev pub view : List BatchOp → Cf → Entries → View
view batch cf es k = after batch cf k (get k es)

abbrev pub counter_of : Option Bytes → Result SmError ℕ
counter_of none = ok first_id
counter_of (some v) = counter_value v

module _ {V : Type 0} (codec : Codec V) (id_of : V → ℕ) where
  abbrev pub decoded : Option Bytes → Option V
  decoded none = none
  decoded (some v) = codec.from_slice v

  -- Every entry is the counter, or a record under the key of its own id.
  abbrev pub IsRow : Bytes → Bytes → Type 0
  IsRow k v =
      (k ≡ next_id_key)
      ⊎ ((id : ℕ) × (r : V) × (id < 2 ^ 32)
          × (k ≡ record_key id)
          × (codec.from_slice v ≡ some r)
          × (id_of r ≡ id))

  -- The index is what the store holds.
  pub record Agrees (g : View) (t : Table V) : Type 0 where
    pub in_range : t.next_id < 2 ^ 32
    pub counter : counter_of (g next_id_key) ≡ ok t.next_id
    pub stored : (k v : Bytes) → g k ≡ some v → IsRow k v
    pub same : (id : ℕ) → id < 2 ^ 32 → decoded (g (record_key id)) ≡ lookup id t.rows

  -- A view in which one key has been written.
  abbrev pub Writes : Bytes → Bytes → View → View → Type 0
  Writes key bytes g g' = (k : Bytes) → g' k ≡ (if bytes_eq k key then some bytes else g k)

  written : (g g' : View) (key bytes : Bytes) → Writes key bytes g g' → g' key ≡ some bytes
  written g g' key bytes w = ground (arith, w key, bytes_eq_refl key)

  kept : (g g' : View) (key bytes k : Bytes) → Writes key bytes g g' → k ≢ key → g' k ≡ g k
  kept g g' key bytes k w ne = elim (Bool-cases (bytes_eq k key)) [
    | inl e ↦ absurd (ne (bytes_eq→eq k key e))
    | inr e ↦ ground (arith, w k)
  ]

  stored_after :
      (g g' : View) (key bytes k v : Bytes)
      → Writes key bytes g g'
      → ((k v : Bytes) → g k ≡ some v → IsRow k v)
      → IsRow key bytes
      → g' k ≡ some v
      → IsRow k v
  stored_after g g' key bytes k v w old new h = elim (Bool-cases (bytes_eq k key)) [
    | inl e ↦
        let same_key = bytes_eq→eq k key e in
        let same_value : bytes ≡ v = ground (arith, w k) in
        subst₂ IsRow (sym same_key) same_value new
    | inr e ↦ old k v (ground (arith, w k))
  ]

  pub put_record-Agrees :
      (g g' : View) (t : Table V) (id : ℕ) (r : V) (bytes : Bytes)
      → id < 2 ^ 32
      → id_of r ≡ id
      → codec.to_vec r ≡ some bytes
      → Writes (record_key id) bytes g g'
      → Agrees g t
      → Agrees g' (record { rows = insert id r t.rows; next_id = t.next_id })
  put_record-Agrees g g' t id r bytes hid own e w a = record {
    in_range = a.in_range;
    counter =
        ap counter_of (kept g g' _ bytes next_id_key w (λ p. record_key-ne-next_id_key id (sym p)))
        ∙ a.counter;
    stored = λ k v h.
        stored_after g g' (record_key id) bytes k v w a.stored
          (inr (id, r, hid, refl, codec.read_back r bytes e, own)) h;
    same = λ j hj. elim (Bool-cases (j == id)) [
      | inl q ↦
          let p : j ≡ id = ground arith in
          rw p (
            ap decoded (written g g' _ bytes w)
            ∙ codec.read_back r bytes e
            ∙ sym (lookup-insert_self id r t.rows))
      | inr q ↦
          let p : j ≢ id = ground arith in
          ap decoded
            (kept g g' _ bytes (record_key j) w (λ k. p (record_key-injective j id hj hid k)))
          ∙ a.same j hj
          ∙ sym (lookup-insert_ne id j r t.rows p)
    ];
  }

  pub put_counter-Agrees :
      (g g' : View) (t : Table V) (n : ℕ)
      → n < 2 ^ 32
      → Writes next_id_key (to_be_bytes 4 n) g g'
      → Agrees g t
      → Agrees g' (record { rows = t.rows; next_id = n })
  put_counter-Agrees g g' t n hn w a = record {
    in_range = hn;
    counter =
        ap counter_of (written g g' next_id_key _ w) ∙ ap ok (from_be_bytes-to_be_bytes 4 n hn);
    stored = λ k v h. stored_after g g' next_id_key _ k v w a.stored (inl refl) h;
    same = λ j hj.
        ap decoded (kept g g' next_id_key _ (record_key j) w (record_key-ne-next_id_key j))
        ∙ a.same j hj;
  }

-- Staging a write is writing to the view.
pub view-put :
    (batch : List BatchOp) (cf : Cf) (es : Entries) (key bytes : Bytes) (k : Bytes)
    → view (batch ++ (put cf key bytes ∷ [])) cf es k
      ≡ (if bytes_eq k key then some bytes else view batch cf es k)
view-put batch cf es key bytes k =
    after-append batch (put cf key bytes ∷ []) cf k (get k es) ∙ last (view batch cf es k)
  where
    last :
        (old : Option Bytes)
        → after (put cf key bytes ∷ []) cf k old ≡ (if bytes_eq k key then some bytes else old)
    last old = unfold after in rw (same_cf_refl cf)

module _ {V : Type 0} (codec : Codec V) (id_of : V → ℕ) where
  -- In a store that agrees with an index a record stands under its own id.
  pub Agrees-own :
      (g : View) (t : Table V) (id : ℕ) (r : V)
      → Agrees codec id_of g t
      → id < 2 ^ 32
      → lookup id t.rows ≡ some r
      → id_of r ≡ id
  Agrees-own g t id r a hid h = by_entry (g (record_key id)) refl
    where
      by_entry : (o : Option Bytes) → g (record_key id) ≡ o → id_of r ≡ id
      by_entry none e = cc (a.same id hid, ap (decoded codec id_of) e, h)
      by_entry (some v) e = by_row (a.stored (record_key id) v e)
        where
          found : codec.from_slice v ≡ some r
          found = sym (ap (decoded codec id_of) e) ∙ a.same id hid ∙ h

          by_row : IsRow codec id_of (record_key id) v → id_of r ≡ id
          by_row (inl k) = absurd (record_key-ne-next_id_key id k)
          by_row (inr (j, q, hj, k, d, own)) =
              let p : q ≡ r = cc (d, found) in
              ap id_of (sym p) ∙ own ∙ sym (record_key-injective id j hid hj k)

-- What staging a record did, if it went through.
pub stage_put_record-cases :
    {V : Type 0} (codec : Codec V) (batch : List BatchOp) (cf : Cf) (id : ℕ) (r : V)
    → ((codec.to_vec r ≡ none) × (stage_put_record codec batch cf id r ≡ err SmError.write_failed))
      ⊎ ((bytes : Bytes) × (codec.to_vec r ≡ some bytes)
          × (stage_put_record codec batch cf id r
              ≡ ok (batch ++ (put cf (record_key id) bytes ∷ []))))
stage_put_record-cases codec batch cf id r = elim (Option-cases (codec.to_vec r)) [
  | inl e ↦ inl (e, unfold stage_put_record in rw e)
  | inr (bytes, e) ↦ inr (bytes, e, unfold stage_put_record in rw e)
]

-- The counter moves on by one, or the id space is used up.
pub advance_counter-cases :
    (n : ℕ)
    → ((n + 1 < 2 ^ 32) × (advance_counter n ≡ ok (n + 1)))
      ⊎ ((2 ^ 32 ≤ n + 1) × (advance_counter n ≡ err SmError.counter_overflow))
unfolding advance_counter
advance_counter-cases n = elim (Bool-cases (ltb (n + 1) (2 ^ 32))) [
  | inl e ↦ inl (ground arith, rw e)
  | inr e ↦ inr (ground arith, rw e)
]

pub after-nil : (cf : Cf) (k : Bytes) (old : Option Bytes) → after [] cf k old ≡ old
unfolding after
after-nil cf k old = refl

pub Agrees-cong :
    {V : Type 0} (codec : Codec V) (id_of : V → ℕ) (g g' : View) (t : Table V)
    → ((k : Bytes) → g k ≡ g' k)
    → Agrees codec id_of g t
    → Agrees codec id_of g' t
Agrees-cong codec id_of g g' t e a = subst (λ v. Agrees codec id_of v t) (fun_ext e) a
