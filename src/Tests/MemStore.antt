-- ===== src/Tests/MemStore.antt =====
-- A key-value store and a serialiser that meet what the managers rely on.
use epoch_io.Common.{
  ◌≡◌, refl, ap, ◌∙◌, arith, false, ◌&&◌, none, some, List, [], ◌∷◌, inl, inr, Bool-cases,
  if◌then◌else◌,
}
use epoch_io.Common.Bytes.{bytes_eq, bytes_eq→eq, bytes_eq_refl, bytes_eq_at, bytes_eq_other}
use epoch_io.Pd.Records.{
  BatchOp, put, delete, Cf, same_cf, Bytes, Entries, get, Distinct, after, Rocks,
}

unfoldable pub set_entry : Bytes → Bytes → Entries → Entries
set_entry k v [] = (k, v) ∷ []
set_entry k v ((j, w) ∷ es) =
    let rest = set_entry k v es in if bytes_eq k j then (k, v) ∷ es else (j, w) ∷ rest

unfoldable pub drop_entry : Bytes → Entries → Entries
drop_entry k [] = []
drop_entry k ((j, w) ∷ es) =
    let rest = drop_entry k es in if bytes_eq k j then rest else (j, w) ∷ rest

get-set_entry :
    (k i v : Bytes) (es : Entries)
    → get i (set_entry k v es) ≡ (if bytes_eq i k then some v else get i es)
unfolding get set_entry
get-set_entry k i v [] = refl
get-set_entry k i v ((j, w) ∷ es) =
    ground (arith, bytes_eq_at k i j, bytes_eq_other k i j, get-set_entry k i v es)

get-drop_entry :
    (k i : Bytes) (es : Entries)
    → get i (drop_entry k es) ≡ (if bytes_eq i k then none else get i es)
unfolding get drop_entry
get-drop_entry k i [] = ground arith
get-drop_entry k i ((j, w) ∷ es) =
    ground (arith, bytes_eq_at k i j, bytes_eq_other k i j, get-drop_entry k i es)

bytes_eq_flip : (k j : Bytes) → bytes_eq k j ≡ false → bytes_eq j k ≡ false
bytes_eq_flip k j ne = elim (Bool-cases (bytes_eq j k)) [
  | inl p ↦ cc (ne, ap (bytes_eq k) (bytes_eq→eq j k p), bytes_eq_refl k)
  | inr p ↦ p
]

pub set_entry-Distinct : (k v : Bytes) (es : Entries) → Distinct es → Distinct (set_entry k v es)
unfolding set_entry
set_entry-Distinct k v [] d = (unfold get in refl, tt)
set_entry-Distinct k v ((j, w) ∷ es) (fresh, d) = elim (Bool-cases (bytes_eq k j)) [
  | inl e ↦ rw e (ap (λ t. get t es) (bytes_eq→eq k j e) ∙ fresh, d)
  | inr e ↦
      rw e (get-set_entry k j v es ∙ rw (bytes_eq_flip k j e) fresh, set_entry-Distinct k v es d)
]

pub drop_entry-Distinct : (k : Bytes) (es : Entries) → Distinct es → Distinct (drop_entry k es)
unfolding drop_entry
drop_entry-Distinct k [] d = tt
drop_entry-Distinct k ((j, w) ∷ es) (fresh, d) = elim (Bool-cases (bytes_eq k j)) [
  | inl e ↦ rw e (drop_entry-Distinct k es d)
  | inr e ↦
      rw e (get-drop_entry k j es ∙ rw (bytes_eq_flip k j e) fresh, drop_entry-Distinct k es d)
]

abbrev pub MemDb : Type 0
MemDb = Cf → (es : Entries) × Distinct es

unfoldable pub apply_op : BatchOp → MemDb → MemDb
apply_op (put c k v) db cf =
    if same_cf c cf
    then (set_entry k v (db cf).0, set_entry-Distinct k v (db cf).0 (db cf).1)
    else db cf
apply_op (delete c k) db cf =
    if same_cf c cf
    then (drop_entry k (db cf).0, drop_entry-Distinct k (db cf).0 (db cf).1)
    else db cf

unfoldable pub apply_ops : MemDb → List BatchOp → MemDb
apply_ops db [] = db
apply_ops db (op ∷ ops) = apply_ops (apply_op op db) ops

get-apply_op :
    (c : Cf) (i k v : Bytes) (cf : Cf) (db : MemDb)
    → (get i (apply_op (put c k v) db cf).0
        ≡ (if same_cf c cf && bytes_eq i k then some v else get i (db cf).0))
      × (get i (apply_op (delete c k) db cf).0
          ≡ (if same_cf c cf && bytes_eq i k then none else get i (db cf).0))
unfolding apply_op
get-apply_op c i k v cf db = elim (Bool-cases (same_cf c cf)) [
  | inl e ↦ rw e (get-set_entry k i v (db cf).0, get-drop_entry k i (db cf).0)
  | inr e ↦ rw e (refl, refl)
]

pub get-apply_ops :
    (db : MemDb) (ops : List BatchOp) (cf : Cf) (i : Bytes)
    → get i (apply_ops db ops cf).0 ≡ after ops cf i (get i (db cf).0)
unfolding apply_ops after
get-apply_ops db [] cf i = refl
get-apply_ops db (put c k v ∷ ops) cf i =
    get-apply_ops (apply_op (put c k v) db) ops cf i
    ∙ ap (after ops cf i) (get-apply_op c i k v cf db).0
get-apply_ops db (delete c k ∷ ops) cf i =
    get-apply_ops (apply_op (delete c k) db) ops cf i
    ∙ ap (after ops cf i) (get-apply_op c i k k cf db).1

abbrev pub mem_rocks : Rocks
mem_rocks = record {
  Db = MemDb;
  entries = λ db cf. (db cf).0;
  write = apply_ops;
  distinct = λ db cf. (db cf).1;
  read_write = get-apply_ops;
}

abbrev pub empty_db : MemDb
empty_db cf = ([], tt)
