-- ===== src/Pd/Disk.antt =====
-- crates/epoch-pd/src/cluster/disk.rs: the disk's lifecycle and the disk manager. A handler takes the
-- pending batch and the index, and gives both back with its answer; `opened` tells whether the column
-- family is there.
pub mod Changes
pub mod Lifecycle
use epoch_io.Common.{
  ℕ, Bool, true, false, ◌&&◌, Option, none, some, List, [], ◌∷◌, Result, ok, err, if◌then◌else◌,
  ◌==◌,
}
use epoch_io.Common.Bytes.{bytes_eq}
use epoch_io.Common.Map.{Map, lookup, insert, values}
use epoch_io.Pd.Records.{
  SmError, BatchOp, Entries, Cf, Codec, Table, Pending, open_cf, advance_counter, load_records,
  collect, stage_put_record, stage_put_counter, stage_clear, stage_records,
}
use epoch_io.Pd.Reject.{RejectReason, not_found, invalid_transition}

pub data DiskStatus : Type 0 where
  normal broken repairing repaired draining dropped : DiskStatus

-- `==` of the statuses.
abbrev status_code : DiskStatus → ℕ
status_code normal = 0
status_code broken = 1
status_code repairing = 2
status_code repaired = 3
status_code draining = 4
status_code dropped = 5

unfoldable pub same_status : DiskStatus → DiskStatus → Bool
same_status a b = status_code a == status_code b

-- The pairs of the `matches!`.
abbrev moves_to : DiskStatus → DiskStatus → Bool
moves_to normal broken = true
moves_to normal draining = true
moves_to normal dropped = true
moves_to normal normal = false
moves_to normal repairing = false
moves_to normal repaired = false
moves_to broken repairing = true
moves_to broken dropped = true
moves_to broken normal = false
moves_to broken broken = false
moves_to broken repaired = false
moves_to broken draining = false
moves_to repairing repaired = true
moves_to repairing dropped = true
moves_to repairing normal = false
moves_to repairing broken = false
moves_to repairing repairing = false
moves_to repairing draining = false
moves_to repaired normal = true
moves_to repaired dropped = true
moves_to repaired broken = false
moves_to repaired repairing = false
moves_to repaired repaired = false
moves_to repaired draining = false
moves_to draining dropped = true
moves_to draining normal = false
moves_to draining broken = false
moves_to draining repairing = false
moves_to draining repaired = false
moves_to draining draining = false
moves_to dropped next = false

unfoldable pub can_transition_to : DiskStatus → DiskStatus → Bool
unfolding same_status
can_transition_to a next = if same_status a next then true else moves_to a next

pub record Disk : Type 0 where
  pub disk_id : ℕ
  pub node_id : ℕ
  pub az : List ℕ
  pub rack : List ℕ
  pub path : List ℕ
  pub total : ℕ
  pub status : DiskStatus

pub record RegisterDisk : Type 0 where
  pub node_id : ℕ
  pub az : List ℕ
  pub rack : List ℕ
  pub path : List ℕ
  pub total : ℕ

abbrev pub disk_id_of : Disk → ℕ
disk_id_of d = d.disk_id

-- `values().find(..)`.
unfoldable pub find_by_node_path : ℕ → List ℕ → Map Disk → Option ℕ
find_by_node_path node path [] = none
find_by_node_path node path ((j, d) ∷ m) =
    if d.node_id == node && bytes_eq d.path path
    then some d.disk_id
    else find_by_node_path node path m

abbrev pub new_disk : ℕ → RegisterDisk → Disk
new_disk id cmd = record {
  disk_id = id;
  node_id = cmd.node_id;
  az = cmd.az;
  rack = cmd.rack;
  path = cmd.path;
  total = cmd.total;
  status = normal;
}

module _ (codec : Codec Disk) (opened : Bool) where
  unfoldable pub restore : Entries → Table Disk → Result SmError (Table Disk)
  unfolding load_records
  restore es index = elim (load_records codec opened es) [
    | err e ↦ err e
    | ok (records, next_id) ↦
        ok (record { rows = collect disk_id_of [] records; next_id = next_id })
  ]

  unfoldable pub apply_register : RegisterDisk → Pending Disk → Pending Disk × Result SmError ℕ
  apply_register cmd s = elim (open_cf opened) [
    | err e ↦ (s, err e)
    | ok _ ↦ elim (find_by_node_path cmd.node_id cmd.path s.index.rows) [
      | some existing ↦ (s, ok existing)
      | none ↦ elim (advance_counter s.index.next_id) [
        | err e ↦ (s, err e)
        | ok next_id ↦
            let disk : Disk = new_disk s.index.next_id cmd in
            elim (stage_put_record codec s.batch Cf.disk s.index.next_id disk) [
              | err e ↦ (s, err e)
              | ok batch ↦ (
                record {
                  batch = stage_put_counter batch Cf.disk next_id;
                  index = record {
                    rows = insert s.index.next_id disk s.index.rows;
                    next_id = next_id;
                  };
                },
                ok s.index.next_id,
              )
            ]
      ]
    ]
  ]

  unfoldable pub set_status :
      ℕ → DiskStatus → Disk → Pending Disk → Pending Disk × Result SmError (Option RejectReason)
  set_status id status current s =
      let updated : Disk = record current { status = status } in
      elim (stage_put_record codec s.batch Cf.disk id updated) [
        | err e ↦ (s, err e)
        | ok batch ↦ (
          record {
            batch = batch;
            index = record { rows = insert id updated s.index.rows; next_id = s.index.next_id };
          },
          ok none,
        )
      ]

  unfoldable pub apply_update_status :
      ℕ → DiskStatus → Pending Disk → Pending Disk × Result SmError (Option RejectReason)
  unfolding set_status
  apply_update_status id status s = elim (open_cf opened) [
    | err e ↦ (s, err e)
    | ok _ ↦ elim (lookup id s.index.rows) [
      | none ↦ (s, ok (some not_found))
      | some current ↦ elim (same_status current.status status) [
        | true ↦ (s, ok none)
        | false ↦ elim (can_transition_to current.status status) [
          | false ↦ (s, ok (some invalid_transition))
          | true ↦ set_status id status current s
        ]
      ]
    ]
  ]

  -- What an aborted install has staged by then is dropped with the batch.
  unfoldable pub stage_and_apply_snapshot :
      Entries → List Disk → ℕ → Pending Disk → Result SmError (Pending Disk)
  unfolding stage_records
  stage_and_apply_snapshot es disks next_id s = elim (open_cf opened) [
    | err e ↦ err e
    | ok _ ↦ elim (stage_records codec disk_id_of Cf.disk (stage_clear s.batch Cf.disk es) disks) [
      | err e ↦ err e
      | ok batch ↦ ok (record {
        batch = stage_put_counter batch Cf.disk next_id;
        index = record { rows = collect disk_id_of [] disks; next_id = next_id };
      })
    ]
  ]

-- The read paths.
unfoldable pub snapshot_view : Table Disk → List Disk × ℕ
snapshot_view t = (values t.rows, t.next_id)

unfoldable pub get_disk : ℕ → Table Disk → Option Disk
get_disk id t = lookup id t.rows

unfoldable pub list : Table Disk → List Disk
list t = values t.rows
