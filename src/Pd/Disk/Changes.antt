-- ===== src/Pd/Disk/Changes.antt =====
-- How the commands of the disk manager of crates/epoch-pd/src/cluster/disk.rs can end, and that each,
-- answered or failed, changes the batch and the index together.
use epoch_io.Common.{
  ℕ, ◌+◌, ◌^◌, ◌<◌, ◌≡◌, refl, sym, ap, subst, Bool, true, false, Option, none, some, Result, ok,
  err, ◌⊎◌, inl, inr, Bool-cases, Option-cases,
}
use epoch_io.Common.Map.{lookup, insert}
use epoch_io.Pd.Records.{
  SmError, missing_cf, write_failed, counter_overflow, Codec, Cf, Pending, Bytes, open_cf,
  stage_put_counter,
}
use epoch_io.Pd.Records.View.{stage_put_record-cases, advance_counter-cases}
use epoch_io.Pd.Records.Change.{Change, kept, replaced, added, put_row, put_next, with_row}
use epoch_io.Pd.Reject.{RejectReason}
use epoch_io.Pd.Disk.{
  Disk, DiskStatus, can_transition_to, RegisterDisk, disk_id_of, new_disk, find_by_node_path,
  same_status, set_status, apply_register, apply_update_status,
}

module _ (codec : Codec Disk) (s : Pending Disk) where
  abbrev pub DiskChange : Pending Disk → Type 0
  DiskChange s' = Change codec disk_id_of Cf.disk s s'

  abbrev pub with_added : Disk → Bytes → Pending Disk
  with_added n bytes = record {
    batch =
        put_next codec disk_id_of Cf.disk
          (put_row codec disk_id_of Cf.disk s.batch s.index.next_id bytes) (s.index.next_id + 1);
    index = record { rows = insert s.index.next_id n s.index.rows; next_id = s.index.next_id + 1 };
  }

  -- A registration finds the path, records it under the next id, or fails and changes nothing.
  abbrev pub Registered : RegisterDisk → Pending Disk × Result SmError ℕ → Type 0
  Registered cmd res =
      ((id : ℕ) × (find_by_node_path cmd.node_id cmd.path s.index.rows ≡ some id)
        × (res ≡ (s, ok id)))
      ⊎ ((bytes : Bytes) × (find_by_node_path cmd.node_id cmd.path s.index.rows ≡ none)
          × (s.index.next_id + 1 < 2 ^ 32)
          × (codec.to_vec (new_disk s.index.next_id cmd) ≡ some bytes)
          × (res ≡ (with_added (new_disk s.index.next_id cmd) bytes, ok s.index.next_id)))
      ⊎ ((e : SmError) × (res ≡ (s, err e)))

  pub apply_register-cases :
      (opened : Bool) (cmd : RegisterDisk) → Registered cmd (apply_register codec opened cmd s)
  apply_register-cases false cmd = inr (inr (missing_cf, unfold apply_register open_cf in refl))
  apply_register-cases true cmd =
      elim (Option-cases (find_by_node_path cmd.node_id cmd.path s.index.rows)) [
        | inr (id, f) ↦ inl (id, f, unfold apply_register open_cf in rw (f, apply_register))
        | inl f ↦ elim (advance_counter-cases s.index.next_id) [
          | inr (h, a) ↦ inr (
              inr (
                counter_overflow,
                unfold apply_register open_cf in rw (f, apply_register) (rw (a, apply_register)),
              ))
          | inl (h, a) ↦
              elim (stage_put_record-cases codec s.batch Cf.disk s.index.next_id
                (new_disk s.index.next_id cmd)) [
                  | inl (v, p) ↦ inr (
                      inr (
                        write_failed,
                        unfold apply_register open_cf in
                            rw (f, apply_register)
                              (rw (a, apply_register) (rw (p, apply_register))),
                      ))
                  | inr (bytes, v, p) ↦ inr (
                      inl (
                        bytes,
                        f,
                        h,
                        v,
                        unfold apply_register open_cf stage_put_counter in
                            rw (f, apply_register)
                              (rw (a, apply_register) (rw (p, apply_register))),
                      ))
                ]
        ]
      ]

  pub register-Change :
      (opened : Bool) (cmd : RegisterDisk) → DiskChange (apply_register codec opened cmd s).0
  register-Change opened cmd = elim (apply_register-cases opened cmd) [
    | inl (id, f, e) ↦ subst DiskChange (sym (ap (λ r. r.0) e)) kept
    | inr (inl (bytes, f, h, v, e)) ↦
        subst DiskChange (sym (ap (λ r. r.0) e))
          (added (new_disk s.index.next_id cmd) bytes h refl v)
    | inr (inr (x, e)) ↦ subst DiskChange (sym (ap (λ r. r.0) e)) kept
  ]

  abbrev pub with_status : ℕ → Disk → DiskStatus → Bytes → Pending Disk
  with_status id n status bytes = record {
    batch = put_row codec disk_id_of Cf.disk s.batch id bytes;
    index = with_row codec disk_id_of s.index id (record n { status = status });
  }

  -- A change of status follows the lifecycle, or nothing is changed.
  abbrev pub Updated : ℕ → DiskStatus → Pending Disk × Result SmError (Option RejectReason) → Type 0
  Updated id status res =
      ((n : Disk) × (bytes : Bytes) × (lookup id s.index.rows ≡ some n)
        × (can_transition_to n.status status ≡ true)
        × (codec.to_vec (record n { status = status }) ≡ some bytes)
        × (res ≡ (with_status id n status bytes, ok none)))
      ⊎ (res.0 ≡ s)

  pub apply_update_status-cases :
      (opened : Bool) (id : ℕ) (status : DiskStatus)
      → Updated id status (apply_update_status codec opened id status s)
  apply_update_status-cases false id status = inr (unfold apply_update_status open_cf in refl)
  apply_update_status-cases true id status = elim (Option-cases (lookup id s.index.rows)) [
    | inl f ↦ inr (unfold apply_update_status open_cf in rw (f, apply_update_status))
    | inr (n, f) ↦ elim (Bool-cases (same_status n.status status)) [
      | inl q ↦ inr (
          unfold apply_update_status open_cf in
          rw (f, apply_update_status) (rw (q, apply_update_status)))
      | inr q ↦ elim (Bool-cases (can_transition_to n.status status)) [
        | inr t ↦ inr (
            unfold apply_update_status open_cf in
            rw (f, apply_update_status) (rw (q, apply_update_status) (rw (t, apply_update_status))))
        | inl t ↦
            elim (stage_put_record-cases codec s.batch Cf.disk id (record n { status = status })) [
              | inl (v, p) ↦ inr (
                  unfold apply_update_status set_status open_cf in
                  rw (f, apply_update_status)
                    (rw (q, apply_update_status)
                      (rw (t, apply_update_status) (rw (p, set_status)))))
              | inr (bytes, v, p) ↦ inl (
                n,
                bytes,
                f,
                t,
                v,
                unfold apply_update_status set_status open_cf in
                    rw (f, apply_update_status)
                      (rw (q, apply_update_status)
                        (rw (t, apply_update_status) (rw (p, set_status)))),
              )
            ]
      ]
    ]
  ]

  pub update_status-Change :
      (opened : Bool) (id : ℕ) (status : DiskStatus)
      → id < 2 ^ 32
      → DiskChange (apply_update_status codec opened id status s).0
  update_status-Change opened id status h = elim (apply_update_status-cases opened id status) [
    | inl (n, bytes, f, t, v, e) ↦
        subst DiskChange (sym (ap (λ r. r.0) e))
          (replaced id n (record n { status = status }) bytes h f refl v)
    | inr e ↦ subst DiskChange (sym e) kept
  ]
