-- ===== src/Pd/Records/Change.antt =====
-- What a command of an id-keyed manager does to the batch and the index, and that the two then still
-- say the same; the persistence is that of crates/epoch-pd/src/cluster/id_record.rs.
use epoch_io.Common.{
  ℕ, ◌+◌, ◌^◌, ◌<◌, ◌≡◌, ◌≢◌, sym, ap, ◌∙◌, arith, true, Option, none, some, List, [], ◌∷◌, ◌++◌,
  ok, inl, inr, ◌==◌, if◌then◌else◌, Bool-cases,
}
use epoch_io.Common.Bytes.{to_be_bytes, bytes_eq, bytes_eq→eq, bytes_eq_refl}
use epoch_io.Common.Map.{
  lookup, insert, remove, lookup-remove, lookup-insert_ne, Every, insert-Every, remove-Every,
  Ascending, insert-Ascending, remove-Ascending,
}
use epoch_io.Pd.Records.{
  Cf, Bytes, BatchOp, put, delete, Entries, after, Codec, next_id_key, record_key, Table, Pending,
  get, Rocks, load_records, collect,
}
use epoch_io.Pd.Records.View.{
  View, view, counter_of, decoded, Agrees, Agrees-own, Agrees-cong, view-put, put_record-Agrees,
  put_counter-Agrees, after-append, after-nil, same_cf_refl, record_key-injective,
  record_key-ne-next_id_key,
}
use epoch_io.Pd.Records.Restore.{load_records-Agrees}

-- Staging a deletion is deleting from the view.
pub view-delete :
    (batch : List BatchOp) (cf : Cf) (es : Entries) (key : Bytes) (k : Bytes)
    → view (batch ++ (delete cf key ∷ [])) cf es k
      ≡ (if bytes_eq k key then none else view batch cf es k)
view-delete batch cf es key k =
    after-append batch (delete cf key ∷ []) cf k (get k es) ∙ last (view batch cf es k)
  where
    last :
        (old : Option Bytes)
        → after (delete cf key ∷ []) cf k old ≡ (if bytes_eq k key then none else old)
    last old = unfold after in rw (same_cf_refl cf)

module _ {V : Type 0} (codec : Codec V) (id_of : V → ℕ) where
  -- A view from which one key has been taken.
  abbrev Deletes : Bytes → View → View → Type 0
  Deletes key g g' = (k : Bytes) → g' k ≡ (if bytes_eq k key then none else g k)

  gone : (g g' : View) (key : Bytes) → Deletes key g g' → g' key ≡ none
  gone g g' key d = ground (arith, d key, bytes_eq_refl key)

  left : (g g' : View) (key k : Bytes) → Deletes key g g' → k ≢ key → g' k ≡ g k
  left g g' key k d ne = elim (Bool-cases (bytes_eq k key)) [
    | inl e ↦ absurd (ne (bytes_eq→eq k key e))
    | inr e ↦ ground (arith, d k)
  ]

  stored_left : (g g' : View) (key k v : Bytes) → Deletes key g g' → g' k ≡ some v → g k ≡ some v
  stored_left g g' key k v d h = elim (Bool-cases (bytes_eq k key)) [
    | inl e ↦ cc (h, rw e at (d k))
    | inr e ↦ ground (arith, d k)
  ]

  pub delete-Agrees :
      (g g' : View) (t : Table V) (id : ℕ)
      → id < 2 ^ 32
      → Deletes (record_key id) g g'
      → Agrees codec id_of g t
      → Agrees codec id_of g' (record { rows = remove id t.rows; next_id = t.next_id })
  delete-Agrees g g' t id hid d a = record {
    in_range = a.in_range;
    counter =
        ap counter_of
          (left g g' (record_key id) next_id_key d (λ p. record_key-ne-next_id_key id (sym p)))
        ∙ a.counter;
    stored = λ k v h. a.stored k v (stored_left g g' (record_key id) k v d h);
    same = λ j hj. elim (Bool-cases (j == id)) [
      | inl q ↦
          let p : j ≡ id = ground arith in
          rw p (
            ap (decoded codec id_of) (gone g g' (record_key id) d)
            ∙ sym (lookup-remove id id t.rows ∙ ground arith))
      | inr q ↦
          let p : j ≢ id = ground arith in
          ap (decoded codec id_of) (
            left g g' (record_key id) (record_key j) d
              (λ k. p (record_key-injective j id hj hid k)))
          ∙ a.same j hj
          ∙ sym (lookup-remove id j t.rows ∙ ground arith)
    ];
  }

  -- A record staged behind a batch, the advanced counter, and the two together.
  abbrev pub put_row : Cf → List BatchOp → ℕ → Bytes → List BatchOp
  put_row cf batch id bytes = batch ++ (put cf (record_key id) bytes ∷ [])

  abbrev pub put_next : Cf → List BatchOp → ℕ → List BatchOp
  put_next cf batch n = batch ++ (put cf next_id_key (to_be_bytes 4 n) ∷ [])

  abbrev pub with_row : Table V → ℕ → V → Table V
  with_row t id r = record { rows = insert id r t.rows; next_id = t.next_id }

  abbrev pub cut_row : Cf → Pending V → ℕ → Pending V
  cut_row cf s id = record {
    batch = s.batch ++ (delete cf (record_key id) ∷ []);
    index = record { rows = remove id s.index.rows; next_id = s.index.next_id };
  }

  -- A command leaves things alone, replaces a record, adds one under the next id, or removes one.
  pub data Change (cf : Cf) (s : Pending V) : Pending V → Type 0 where
    kept : Change cf s s
    replaced :
        (id : ℕ) (old r : V) (bytes : Bytes)
        → id < 2 ^ 32
        → lookup id s.index.rows ≡ some old
        → id_of r ≡ id_of old
        → codec.to_vec r ≡ some bytes
        → Change cf s
            (record { batch = put_row cf s.batch id bytes; index = with_row s.index id r })
    added :
        (r : V) (bytes : Bytes)
        → s.index.next_id + 1 < 2 ^ 32
        → id_of r ≡ s.index.next_id
        → codec.to_vec r ≡ some bytes
        → Change cf s (record {
          batch = put_next cf (put_row cf s.batch s.index.next_id bytes) (s.index.next_id + 1);
          index = record {
            rows = insert s.index.next_id r s.index.rows;
            next_id = s.index.next_id + 1;
          };
        })
    removed : (id : ℕ) → id < 2 ^ 32 → Change cf s (cut_row cf s id)

  -- The column family with the pending batch carried out agrees with the index.
  abbrev pub IsDurable : Cf → Entries → Pending V → Type 0
  IsDurable cf es s = Agrees codec id_of (view s.batch cf es) s.index

  pub Change-IsDurable :
      (cf : Cf) (es : Entries) (s s' : Pending V)
      → Change cf s s'
      → IsDurable cf es s
      → IsDurable cf es s'
  Change-IsDurable cf es s _ kept d = d
  Change-IsDurable cf es s _ (replaced id old r bytes h found own written) d =
      put_record-Agrees codec id_of _ _ s.index id r bytes h
        (own ∙ Agrees-own codec id_of _ s.index id old d h found) written
        (view-put s.batch cf es (record_key id) bytes) d
  Change-IsDurable cf es s _ (added r bytes h own written) d =
      let n = s.index.next_id in
      put_counter-Agrees codec id_of (view (put_row cf s.batch n bytes) cf es) _
        (with_row s.index n r) (n + 1) h (view-put (put_row cf s.batch n bytes) cf es next_id_key _)
        (put_record-Agrees codec id_of _ _ s.index n r bytes d.in_range own written
          (view-put s.batch cf es (record_key n) bytes) d)
  Change-IsDurable cf es s _ (removed id h) d =
      delete-Agrees _ _ s.index id h (view-delete s.batch cf es (record_key id)) d

module _ {V : Type 0} (codec : Codec V) (id_of : V → ℕ) (cf : Cf) where
  -- Every record stands under its own id, below the next one.
  abbrev pub IsOwn : Table V → Type 0
  IsOwn t = Every (λ k r. (k < t.next_id) × (id_of r ≡ k)) t.rows

  pub Change-IsOwn :
      (s s' : Pending V) → Change codec id_of cf s s' → IsOwn s.index → IsOwn s'.index
  Change-IsOwn s _ kept own = own
  Change-IsOwn s _ (replaced id old r bytes h found same written) own =
      let (lt, at) = own id old found in
      insert-Every (λ k r. (k < s.index.next_id) × (id_of r ≡ k)) id r s.index.rows (lt, same ∙ at)
        own
  Change-IsOwn s _ (added r bytes h same written) own =
      let n = s.index.next_id in
      insert-Every (λ k r. (k < n + 1) × (id_of r ≡ k)) n r s.index.rows (omega arith, same)
        (λ k v e. let (lt, at) = own k v e in (omega arith, at))
  Change-IsOwn s _ (removed id h) own =
      remove-Every (λ k r. (k < s.index.next_id) × (id_of r ≡ k)) id s.index.rows
        (λ k v ne e. own k v e)

  pub Change-Ascending :
      (s s' : Pending V)
      → Change codec id_of cf s s'
      → Ascending 0 s.index.rows
      → Ascending 0 s'.index.rows
  Change-Ascending s _ kept asc = asc
  Change-Ascending s _ (replaced id old r bytes h found same written) asc =
      insert-Ascending 0 id r s.index.rows (omega arith) asc
  Change-Ascending s _ (added r bytes h same written) asc =
      insert-Ascending 0 s.index.next_id r s.index.rows (omega arith) asc
  Change-Ascending s _ (removed id h) asc = remove-Ascending 0 id s.index.rows asc

  -- An id that was given out and is free stays free.
  pub Change-free :
      (s s' : Pending V) (id : ℕ)
      → Change codec id_of cf s s'
      → id < s.index.next_id
      → lookup id s.index.rows ≡ none
      → (id < s'.index.next_id) × (lookup id s'.index.rows ≡ none)
  Change-free s _ id kept lt free = (lt, free)
  Change-free s _ id (replaced j old r bytes h found same written) lt free =
      let ne : id ≢ j = λ p. cc (ap (λ x. lookup x s.index.rows) p, free, found) in
      (lt, lookup-insert_ne j id r s.index.rows ne ∙ free)
  Change-free s _ id (added r bytes h same written) lt free =
      let ne : id ≢ s.index.next_id = λ p. absurd (omega arith) in
      (omega arith, lookup-insert_ne s.index.next_id id r s.index.rows ne ∙ free)
  Change-free s _ id (removed j h) lt free =
      (lt, lookup-remove j id s.index.rows ∙ ground (arith, free))

module _ (rocks : Rocks) {V : Type 0} (codec : Codec V) (id_of : V → ℕ) where
  open rocks use {Db, entries, write, distinct, read_write}

  -- A changed table is what loading finds once the batch is written.
  pub Change-restored :
      (cf : Cf) (db : Db) (t : Table V) (s : Pending V)
      → Agrees codec id_of (λ k. get k (entries db cf)) t
      → Change codec id_of cf (record { batch = []; index = t }) s
      → (rs : List V) × (load_records codec true (entries (write db s.batch) cf)
          ≡ ok (rs, s.index.next_id))
        × ((id : ℕ) → id < 2 ^ 32 → lookup id (collect id_of [] rs) ≡ lookup id s.index.rows)
  Change-restored cf db t s a c =
      let es = entries db cf in
      let start : Pending V = record { batch = []; index = t } in
      let d : IsDurable codec id_of cf es start =
        Agrees-cong codec id_of _ _ t (λ k. sym (after-nil cf k (get k es))) a in
      load_records-Agrees codec id_of (entries (write db s.batch) cf) s.index
        (distinct (write db s.batch) cf)
        (Agrees-cong codec id_of _ _ s.index (λ k. sym (read_write db s.batch cf k))
          (Change-IsDurable codec id_of cf es start s c d))
