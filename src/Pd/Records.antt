-- ===== src/Pd/Records.antt =====
-- crates/epoch-pd/src/cluster/id_record.rs: the persistence that the id-keyed managers share. The
-- key-value store and the serialiser are third-party code; `Rocks` and `Codec` say what is used of
-- them. Reads of the store are taken not to fail.
pub mod View
pub mod Restore
pub mod Change
pub mod Unique
pub mod Install
use epoch_io.Common.{
  ℕ, zero, suc, ◌+◌, ◌^◌, ◌≤◌, ◌<◌, ◌≡◌, Bool, true, false, ◌&&◌, Option, none, some, List, [], ◌∷◌,
  ◌++◌, Result, ok, err, ◌>>=◌, ok_or, ltb, ◌==◌, length, if◌then◌else◌,
}
use epoch_io.Common.Bytes.{to_be_bytes, from_be_bytes, bytes_eq}
use epoch_io.Common.Map.{Map, insert}

-- The state machine's storage errors, by what reports them.
pub data SmError : Type 0 where
  missing_cf read_failed write_failed malformed_counter malformed_key counter_overflow : SmError
  epoch_overflow tags_exhausted : SmError

-- The column families of the managers that are modelled.
pub data Cf : Type 0 where
  job writer chunk chunk_staging node disk shard_repair config bucket cred meta_partition : Cf

abbrev cf_code : Cf → ℕ
cf_code job = 0
cf_code writer = 1
cf_code chunk = 2
cf_code chunk_staging = 3
cf_code node = 4
cf_code disk = 5
cf_code shard_repair = 6
cf_code config = 7
cf_code bucket = 8
cf_code cred = 9
cf_code meta_partition = 10

unfoldable pub same_cf : Cf → Cf → Bool
same_cf a b = cf_code a == cf_code b

abbrev pub Bytes : Type 0
Bytes = List ℕ

-- What a `WriteBatch` records.
pub data BatchOp : Type 0 where
  put : Cf → Bytes → Bytes → BatchOp
  delete : Cf → Bytes → BatchOp

abbrev pub Entries : Type 0
Entries = List (Bytes × Bytes)

unfoldable pub get : Bytes → Entries → Option Bytes
get k [] = none
get k ((j, v) ∷ es) = if bytes_eq k j then some v else get k es

-- No key twice.
abbrev pub Distinct : Entries → Type 0
Distinct [] = Unit {0}
Distinct ((k, v) ∷ es) = (get k es ≡ none) × Distinct es

-- What a key holds once the operations of a batch are carried out in order.
unfoldable pub after : List BatchOp → Cf → Bytes → Option Bytes → Option Bytes
after [] cf k old = old
after (put c j v ∷ ops) cf k old =
    after ops cf k (if same_cf c cf && bytes_eq k j then some v else old)
after (delete c j ∷ ops) cf k old =
    after ops cf k (if same_cf c cf && bytes_eq k j then none else old)

-- RocksDB: the iterator of a column family yields each key once, and an atomic batch write has the
-- effect of its operations in order.
pub record Rocks : Type 1 where
  pub Db : Type 0
  pub entries : Db → Cf → Entries
  pub write : Db → List BatchOp → Db
  pub distinct : (db : Db) (cf : Cf) → Distinct (entries db cf)
  pub read_write :
      (db : Db) (ops : List BatchOp) (cf : Cf) (k : Bytes)
      → get k (entries (write db ops) cf) ≡ after ops cf k (get k (entries db cf))

-- `serde_json`: what was written reads back.
pub record Codec (V : Type 0) : Type 0 where
  pub to_vec : V → Option Bytes
  pub from_slice : Bytes → Option V
  pub read_back : (v : V) (bytes : Bytes) → to_vec v ≡ some bytes → from_slice bytes ≡ some v

abbrev pub first_id : ℕ
first_id = 1

-- `b"next_id"`.
abbrev pub next_id_key : Bytes
next_id_key = b'n' ∷ b'e' ∷ b'x' ∷ b't' ∷ b'_' ∷ b'i' ∷ b'd' ∷ []

unfoldable pub record_key : ℕ → Bytes
record_key id = to_be_bytes 4 id

unfoldable pub open_cf : Bool → Result SmError (Unit {0})
open_cf true = ok tt
open_cf false = err missing_cf

-- `u32::checked_add(1)`.
unfoldable pub advance_counter : ℕ → Result SmError ℕ
advance_counter current =
    if ltb (current + 1) (2 ^ 32) then ok (current + 1) else err counter_overflow

abbrev pub counter_value : Bytes → Result SmError ℕ
counter_value value = if length value == 4 then ok (from_be_bytes value) else err malformed_counter

module _ {V : Type 0} (codec : Codec V) where
  unfoldable pub load_loop : Entries → List V → ℕ → Result SmError (List V × ℕ)
  load_loop [] records next_id = ok (records, next_id)
  load_loop ((key, value) ∷ rest) records next_id = elim (bytes_eq key next_id_key) [
    | true ↦ counter_value value >>= λ n. load_loop rest records n
    | false ↦ ok_or (codec.from_slice value) read_failed >>= λ r.
        load_loop rest (records ++ (r ∷ [])) next_id
  ]

  unfoldable pub load_records : Bool → Entries → Result SmError (List V × ℕ)
  unfolding open_cf load_loop
  load_records opened es = open_cf opened >>= λ _. load_loop es [] first_id

  unfoldable pub stage_put_record : List BatchOp → Cf → ℕ → V → Result SmError (List BatchOp)
  unfolding record_key
  stage_put_record batch cf id r = ok_or (codec.to_vec r) write_failed >>= λ bytes.
      ok (batch ++ (put cf (record_key id) bytes ∷ []))

module _ {V : Type 0} (codec : Codec V) (id_of : V → ℕ) (cf : Cf) where
  -- The loop of a snapshot install over the records.
  unfoldable pub stage_records : List BatchOp → List V → Result SmError (List BatchOp)
  stage_records batch [] = ok batch
  stage_records batch (r ∷ rs) =
      stage_put_record codec batch cf (id_of r) r >>= λ staged. stage_records staged rs

unfoldable pub stage_put_counter : List BatchOp → Cf → ℕ → List BatchOp
stage_put_counter batch cf next_id = batch ++ (put cf next_id_key (to_be_bytes 4 next_id) ∷ [])

unfoldable pub stage_clear : List BatchOp → Cf → Entries → List BatchOp
stage_clear batch cf [] = batch
stage_clear batch cf ((key, value) ∷ es) = stage_clear (batch ++ (delete cf key ∷ [])) cf es

-- A manager's in-memory index: the records by id, and the next id to allocate.
pub record Table (V : Type 0) : Type 0 where
  pub rows : Map V
  pub next_id : ℕ

-- A manager at work: the batch under construction, and its index.
pub record Pending (V : Type 0) : Type 0 where
  pub batch : List BatchOp
  pub index : Table V

-- `into_iter().map(|r| (r.id, r)).collect()`.
unfoldable pub collect : {V : Type 0} → (V → ℕ) → Map V → List V → Map V
collect id_of m [] = m
collect id_of m (r ∷ rs) = collect id_of (insert (id_of r) r m) rs
