-- ===== src/Pd/Records/Install.antt =====
-- Installing a snapshot over a store, in the terms of crates/epoch-pd/src/cluster/id_record.rs: the
-- column family is cleared, and the records and the counter are written.
use epoch_io.Common.{
  ℕ, ◌^◌, ◌<◌, ◌≡◌, ◌≢◌, suc, ap₂, refl, sym, ap, subst, ◌∙◌, arith, true, Option, none, some, List,
  [], ◌∷◌, ◌++◌, ok, inl, inr, ◌==◌, Bool-cases, All,
}
use epoch_io.Common.Bytes.{bytes_eq, to_be_bytes}
use epoch_io.Common.Map.{
  Map, lookup, insert, values, Ascending, Every, lookup_first, lookup_behind, lookup-insert_self,
  lookup-insert_ne, Ascending-below,
}
use epoch_io.Pd.Records.{
  Bytes, BatchOp, put, delete, Entries, Codec, Cf, get, first_id, record_key, next_id_key, Table,
  collect, stage_clear, stage_records, stage_put_counter, Rocks, load_records,
}
use epoch_io.Pd.Records.View.{
  view, view-put, Agrees, put_record-Agrees, put_counter-Agrees, stage_put_record-cases, after-nil,
  Agrees-cong,
}
use epoch_io.Pd.Records.Change.{view-delete}
use epoch_io.Pd.Records.Restore.{load_records-Agrees}

-- Clearing leaves nothing under a key that the rest of the entries may still hold.
clear-none :
    (cf : Cf) (es todo : Entries) (batch : List BatchOp) (k : Bytes)
    → (get k todo ≡ none → view batch cf es k ≡ none)
    → view (stage_clear batch cf todo) cf es k ≡ none
unfolding stage_clear
clear-none cf es [] batch k h = h (unfold get in refl)
clear-none cf es ((j, v) ∷ todo) batch k h =
    clear-none cf es todo (batch ++ (delete cf j ∷ [])) k λ e.
      view-delete batch cf es j k ∙ elim (Bool-cases (bytes_eq k j)) [
        | inl p ↦ rw p refl
        | inr p ↦ rw p (h (unfold get in rw p e))
      ]

module _ {V : Type 0} (codec : Codec V) (id_of : V → ℕ) where
  none-Agrees :
      (g : Bytes → Option Bytes)
      → ((k : Bytes) → g k ≡ none)
      → Agrees codec id_of g (record { rows = []; next_id = first_id })
  none-Agrees g h = record {
    in_range = omega arith;
    counter = rw (h next_id_key) refl;
    stored = λ k v e. cc (e, h k);
    same = λ id lt. unfold lookup in rw (h (record_key id)) refl;
  }

  -- The index with the records of a list put in.
  abbrev with_records : Table V → List V → Table V
  with_records t rs = record { rows = collect id_of t.rows rs; next_id = t.next_id }

  records-Agrees :
      (cf : Cf) (es : Entries) (rs : List V) (batch staged : List BatchOp) (t : Table V)
      → All (λ r. id_of r < 2 ^ 32) rs
      → Agrees codec id_of (view batch cf es) t
      → stage_records codec id_of cf batch rs ≡ ok staged
      → Agrees codec id_of (view staged cf es) (with_records t rs)
  unfolding stage_records collect
  records-Agrees cf es [] batch staged t small a e =
      let same : batch ≡ staged = cc e in subst (λ b. Agrees codec id_of (view b cf es) t) same a
  records-Agrees cf es (r ∷ rs) batch staged t (lt, small) a e =
      elim (stage_put_record-cases codec batch cf (id_of r) r) [
        | inl (unwritten, f) ↦ cc (rw f at e)
        | inr (bytes, w, f) ↦
            records-Agrees cf es rs (batch ++ (put cf (record_key (id_of r)) bytes ∷ [])) staged
              (record { rows = insert (id_of r) r t.rows; next_id = t.next_id }) small
              (put_record-Agrees codec id_of _ _ t (id_of r) r bytes lt refl w
                (view-put batch cf es (record_key (id_of r)) bytes) a)
              (rw f at e)
      ]

  -- What the store holds once they are carried out is the snapshot, whatever it held before.
  pub install-Agrees :
      (cf : Cf) (es : Entries) (rs : List V) (next_id : ℕ) (staged : List BatchOp)
      → All (λ r. id_of r < 2 ^ 32) rs
      → next_id < 2 ^ 32
      → stage_records codec id_of cf (stage_clear [] cf es) rs ≡ ok staged
      → Agrees codec id_of
          (view (stage_put_counter staged cf next_id) cf es)
          (record { rows = collect id_of [] rs; next_id = next_id })
  unfolding stage_put_counter
  install-Agrees cf es rs next_id staged small lt e =
      put_counter-Agrees codec id_of _ _ _ next_id lt
        (view-put staged cf es next_id_key (to_be_bytes 4 next_id))
        (records-Agrees cf es rs (stage_clear [] cf es) staged
          (record { rows = []; next_id = first_id }) small
          (none-Agrees _ λ k. clear-none cf es es [] k λ h. after-nil cf k (get k es) ∙ h) e)

  -- The entry of a map, or the one behind it.
  abbrev or_behind : Option V → Option V → Option V
  or_behind none old = old
  or_behind (some v) old = some v

  collect-values_onto :
      (n : ℕ) (m acc : Map V) (k : ℕ)
      → Ascending n m
      → Every (λ i v. id_of v ≡ i) m
      → lookup k (collect id_of acc (values m)) ≡ or_behind (lookup k m) (lookup k acc)
  unfolding collect values
  collect-values_onto n [] acc k a own = unfold lookup in refl
  collect-values_onto n ((j, w) ∷ m) acc k (ge, a) own =
      let id : id_of w ≡ j = own j w (lookup_first j w m) in
      let rest =
        collect-values_onto (suc j) m (insert (id_of w) w acc) k a
          (λ i v e. own i v (lookup_behind n j i w v m (ge, a) e)) in
      elim (Bool-cases (k == j)) [
        | inl q ↦
            let p : k ≡ id_of w = ground (arith, id) in
            rest
            ∙ ap₂ or_behind (Ascending-below (suc j) k m (ground arith) a)
                (ap (λ x. lookup x (insert (id_of w) w acc)) p ∙ lookup-insert_self (id_of w) w acc)
            ∙ unfold lookup in rw q refl
        | inr q ↦
            let ne : k ≢ id_of w = ground (arith, id) in
            rest
            ∙ ap (or_behind (lookup k m)) (lookup-insert_ne (id_of w) k w acc ne)
            ∙ unfold lookup in rw q refl
      ]

  -- The records of an index that stand under their own ids, put in one by one, give every id
  -- what it had.
  pub collect-values :
      (n : ℕ) (m : Map V) (k : ℕ)
      → Ascending n m
      → Every (λ i v. id_of v ≡ i) m
      → lookup k (collect id_of [] (values m)) ≡ lookup k m
  collect-values n m k a own = collect-values_onto n m [] k a own ∙ at_end (lookup k m)
    where
      at_end : (o : Option V) → or_behind o (lookup {V = V} k []) ≡ o
      at_end none = unfold lookup in refl
      at_end (some v) = refl

  -- The values of a map in key order, of which each entry has the property.
  pub All-values {κ} :
      (P : V → Type κ) (n : ℕ) (m : Map V) → Ascending n m → Every (λ i v. P v) m → All P (values m)
  unfolding values
  All-values P n [] a h = tt
  All-values P n ((j, w) ∷ m) (ge, a) h = (
    h j w (lookup_first j w m),
    All-values P (suc j) m a (λ i v e. h i v (lookup_behind n j i w v m (ge, a) e)),
  )

module _ (rocks : Rocks) {V : Type 0} (codec : Codec V) (id_of : V → ℕ) where
  open rocks use {Db, entries, write, distinct, read_write}

  -- Loading the store after the install of a manager's records finds that manager's records.
  pub install-restored :
      (cf : Cf) (db : Db) (t : Table V) (n next_id : ℕ) (staged : List BatchOp)
      → Ascending n t.rows
      → Every (λ i v. (id_of v ≡ i) × (i < 2 ^ 32)) t.rows
      → next_id < 2 ^ 32
      → stage_records codec id_of cf (stage_clear [] cf (entries db cf)) (values t.rows) ≡ ok staged
      → (rs : List V) × (load_records codec true
            (entries (write db (stage_put_counter staged cf next_id)) cf)
          ≡ ok (rs, next_id))
        × ((id : ℕ) → id < 2 ^ 32 → lookup id (collect id_of [] rs) ≡ lookup id t.rows)
  install-restored cf db t n next_id staged a own lt e =
      let ops = stage_put_counter staged cf next_id in
      let small =
        All-values codec id_of (λ v. id_of v < 2 ^ 32) n t.rows a
          (λ i v f. subst (λ x. x < 2 ^ 32) (sym (own i v f).0) (own i v f).1) in
      let (rs, ld, found) =
        load_records-Agrees codec id_of (entries (write db ops) cf)
          (record { rows = collect id_of [] (values t.rows); next_id = next_id })
          (distinct (write db ops) cf)
          (Agrees-cong codec id_of _ _ _ (λ k. sym (read_write db ops cf k))
            (install-Agrees codec id_of cf (entries db cf) (values t.rows) next_id staged small lt
              e)) in
      (
        rs,
        ld,
        λ id h. found id h ∙ collect-values codec id_of n t.rows id a (λ i v f. (own i v f).0),
      )
