-- ===== src/Pd/Records/Restore.antt =====
-- Reading the records back: what `load_records` of crates/epoch-pd/src/cluster/id_record.rs finds in
-- a store that agrees with an index.
use epoch_io.Common.{
  ℕ, ◌^◌, ◌<◌, ◌≡◌, ◌≢◌, refl, sym, ap, ap₂, ◌∙◌, arith, true, false, Option, none, some, List, [],
  ◌∷◌, ◌++◌, Result, ok, ◌>>=◌, ok_or, inl, inr, ◌==◌, Bool-cases, All,
}
use epoch_io.Common.Bytes.{bytes_eq, bytes_eq→eq, bytes_eq_refl}
use epoch_io.Common.Map.{Map, lookup, insert, lookup-insert_self, lookup-insert_ne}
use epoch_io.Pd.Records.{
  SmError, Bytes, Entries, get, Distinct, Codec, first_id, next_id_key, record_key, counter_value,
  load_loop, load_records, Table, collect,
}
use epoch_io.Pd.Records.View.{
  counter_of, decoded, IsRow, Agrees, record_key-injective, record_key-ne-next_id_key,
}
use mathlib.Core.List.{append_assoc, append-nil}

get_here : (k v : Bytes) (es : Entries) → get k ((k, v) ∷ es) ≡ some v
unfolding get
get_here k v es = rw (bytes_eq_refl k)

get_there : (k j v : Bytes) (es : Entries) → k ≢ j → get k ((j, v) ∷ es) ≡ get k es
unfolding get
get_there k j v es ne = elim (Bool-cases (bytes_eq k j)) [
  | inl e ↦ absurd (ne (bytes_eq→eq k j e))
  | inr e ↦ rw e
]

bytes_eq-false : (xs ys : Bytes) → xs ≢ ys → bytes_eq xs ys ≡ false
bytes_eq-false xs ys ne = elim (Bool-cases (bytes_eq xs ys)) [
  | inl e ↦ absurd (ne (bytes_eq→eq xs ys e))
  | inr e ↦ e
]

-- A property of all that the keys hold is one of all entries.
All-of_get {κ} :
    (P : Bytes → Bytes → Type κ) (es : Entries)
    → Distinct es
    → ((k v : Bytes) → get k es ≡ some v → P k v)
    → All (λ e. P e.0 e.1) es
All-of_get P [] d h = tt
All-of_get P ((k, v) ∷ es) (fresh, d) h = (
  h k v (get_here k v es),
  All-of_get P es d λ j w e.
      h j w (get_there j k v es (λ p. none≢some (sym fresh ∙ ap (λ t. get t es) (sym p) ∙ e)) ∙ e),
)
  where
    none≢some : {A : Type 0} {a : A} → none ≢ some a
    none≢some e = cc

module _ {V : Type 0} (codec : Codec V) (id_of : V → ℕ) where
  -- The counter found, or the one found so far.
  abbrev counter_from : ℕ → Option Bytes → Result SmError ℕ
  counter_from n none = ok n
  counter_from n (some v) = counter_value v

  -- The record under a key, or the one collected so far.
  abbrev merge : Option V → Option V → Option V
  merge none old = old
  merge (some r) old = some r

  abbrev Found : Entries → List V → ℕ → ℕ → Type 0
  Found es records next_id n =
      (rs : List V) × (load_loop codec es records next_id ≡ ok (records ++ rs, n))
      × ((m : Map V) (id : ℕ)
          → id < 2 ^ 32
          → lookup id (collect id_of m rs)
            ≡ merge (decoded codec id_of (get (record_key id) es)) (lookup id m))

  load_counter :
      (k v : Bytes) (es : Entries) (records : List V) (next_id n : ℕ)
      → bytes_eq k next_id_key ≡ true
      → counter_value v ≡ ok n
      → load_loop codec ((k, v) ∷ es) records next_id ≡ load_loop codec es records n
  unfolding load_loop
  load_counter k v es records next_id n e c =
      rw (e, load_loop) (ap (λ x. x >>= λ m. load_loop codec es records m) c)

  load_row :
      (k v : Bytes) (es : Entries) (records : List V) (next_id : ℕ) (r : V)
      → bytes_eq k next_id_key ≡ false
      → codec.from_slice v ≡ some r
      → load_loop codec ((k, v) ∷ es) records next_id
        ≡ load_loop codec es (records ++ (r ∷ [])) next_id
  unfolding load_loop
  load_row k v es records next_id r e d =
      rw (e, load_loop)
        (ap
          (λ x.
            ok_or x SmError.read_failed >>= λ q. load_loop codec es (records ++ (q ∷ [])) next_id)
          d)

  load_nil :
      (records : List V) (next_id : ℕ) → load_loop codec [] records next_id ≡ ok (records, next_id)
  unfolding load_loop
  load_nil records next_id = refl

  collect_nil : (m : Map V) → collect id_of m [] ≡ m
  unfolding collect
  collect_nil m = refl

  collect_cons :
      (m : Map V) (r : V) (rs : List V)
      → collect id_of m (r ∷ rs) ≡ collect id_of (insert (id_of r) r m) rs
  unfolding collect
  collect_cons m r rs = refl

  get_nil : (k : Bytes) → get k [] ≡ none
  unfolding get
  get_nil k = refl

  -- What a record entry adds to what is found behind it.
  merge_row :
      (k v : Bytes) (es : Entries) (m : Map V) (id : ℕ) (r : V) (j : ℕ)
      → id < 2 ^ 32
      → j < 2 ^ 32
      → get k es ≡ none
      → k ≡ record_key id
      → codec.from_slice v ≡ some r
      → id_of r ≡ id
      → merge (decoded codec id_of (get (record_key j) es)) (lookup j (insert (id_of r) r m))
        ≡ merge (decoded codec id_of (get (record_key j) ((k, v) ∷ es))) (lookup j m)
  merge_row k v es m id r j hid hj fresh e dec own = elim (Bool-cases (j == id)) [
    | inl q ↦
        let p : record_key j ≡ k = ap record_key (ground arith) ∙ sym e in
        let o : j ≡ id_of r = ground arith in
        ap₂ (λ x y. merge (decoded codec id_of x) y) (ap (λ t. get t es) p ∙ fresh)
          (ap (λ t. lookup t (insert (id_of r) r m)) o ∙ lookup-insert_self (id_of r) r m)
        ∙ sym (
            ap (λ x. merge x (lookup j m))
              (ap (λ t. decoded codec id_of (get t ((k, v) ∷ es))) p
                ∙ ap (decoded codec id_of) (get_here k v es)
                ∙ dec))
    | inr q ↦
        let p : j ≢ id = ground arith in
        let o : j ≢ id_of r = ground arith in
        ap₂ (λ x y. merge (decoded codec id_of x) y)
          (sym
            (get_there (record_key j) k v es (λ t. p (record_key-injective j id hj hid (t ∙ e)))))
          (lookup-insert_ne (id_of r) j r m o)
  ]

  load_loop_finds :
      (es : Entries) (records : List V) (next_id n : ℕ)
      → Distinct es
      → All (λ e. IsRow codec id_of e.0 e.1) es
      → counter_from next_id (get next_id_key es) ≡ ok n
      → Found es records next_id n
  load_loop_finds [] records next_id n d rows c = (
    [],
    load_nil records next_id
        ∙ ap₂ (λ l t. ok (l, t)) (sym (append-nil records))
            (counter_value-ok (rw (get_nil next_id_key) at c)),
    λ m id h. ap (lookup id) (collect_nil m) ∙ rw (get_nil (record_key id)),
  )
    where
      counter_value-ok : {a b : ℕ} → counter_from a none ≡ ok b → a ≡ b
      counter_value-ok e = cc
  load_loop_finds ((k, v) ∷ es) records next_id n (fresh, d) (inl e, rows) c =
      let here : counter_value v ≡ ok n =
        ap (counter_from next_id) (sym (ap (λ t. get t ((k, v) ∷ es)) (sym e) ∙ get_here k v es))
        ∙ c in
      let rest : get next_id_key es ≡ none = ap (λ t. get t es) (sym e) ∙ fresh in
      let (rs, ld, found) = load_loop_finds es records n n d rows (ap (counter_from n) rest) in
      (
        rs,
        load_counter k v es records next_id n
              (ap (λ t. bytes_eq t next_id_key) e ∙ bytes_eq_refl next_id_key) here
            ∙ ld,
        λ m id h.
            found m id h
            ∙ ap (λ o. merge (decoded codec id_of o) (lookup id m))
                (sym
                  (get_there (record_key id) k v es (λ p. record_key-ne-next_id_key id (p ∙ e)))),
      )
  load_loop_finds ((k, v) ∷ es) records next_id n (fresh, d) (inr (id, r, hid, e, dec, own), rows)
        c =
      let ne : next_id_key ≢ k = λ p. record_key-ne-next_id_key id (sym e ∙ sym p) in
      let off : bytes_eq k next_id_key ≡ false = bytes_eq-false k next_id_key (λ p. ne (sym p)) in
      let (rs, ld, found) =
        load_loop_finds es (records ++ (r ∷ [])) next_id n d rows
          (ap (counter_from next_id) (sym (get_there next_id_key k v es ne)) ∙ c) in
      (
        r ∷ rs,
        load_row k v es records next_id r off dec
            ∙ ld
            ∙ ap (λ l. ok (l, n)) (append_assoc records (r ∷ []) rs),
        λ m j hj.
            ap (lookup j) (collect_cons m r rs)
            ∙ found (insert (id_of r) r m) j hj
            ∙ merge_row k v es m id r j hid hj fresh e dec own,
      )

  -- Reading a store that agrees with an index gives that index back.
  pub load_records-Agrees :
      (es : Entries) (t : Table V)
      → Distinct es
      → Agrees codec id_of (λ k. get k es) t
      → (rs : List V) × (load_records codec true es ≡ ok (rs, t.next_id))
        × ((id : ℕ) → id < 2 ^ 32 → lookup id (collect id_of [] rs) ≡ lookup id t.rows)
  unfolding load_records
  load_records-Agrees es t d a =
      let (rs, ld, found) =
        load_loop_finds es [] first_id t.next_id d (All-of_get (IsRow codec id_of) es d a.stored)
          (counter (get next_id_key es) a.counter) in
      (
        rs,
        ld,
        λ id h.
            found [] id h
            ∙ none_last id (decoded codec id_of (get (record_key id) es))
            ∙ a.same id h,
      )
    where
      counter :
          (o : Option Bytes) → counter_of o ≡ ok t.next_id → counter_from first_id o ≡ ok t.next_id
      counter none e = e
      counter (some v) e = e

      none_last : (id : ℕ) (o : Option V) → merge o (lookup {V = V} id []) ≡ o
      none_last id none = unfold lookup in refl
      none_last id (some r) = refl
