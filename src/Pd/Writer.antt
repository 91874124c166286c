-- ===== src/Pd/Writer.antt =====
-- crates/epoch-pd/src/writer/model.rs and crates/epoch-pd/src/writer/manager.rs: the writer tokens.
-- A handler takes the pending batch and the index, and gives both back with its answer.
pub mod Cases
pub mod Tokens
use epoch_io.Common.{
  ℕ, Bool, true, false, Option, none, some, List, [], ◌∷◌, map, retain, Result, ok, err,
}
use epoch_io.Common.Map.{Map, lookup, insert, values}
use epoch_io.Pd.Records.{
  SmError, BatchOp, Bytes, Entries, Cf, Codec, Table, open_cf, advance_counter, load_records,
  collect, stage_put_record, stage_put_counter, stage_clear, stage_records,
}
use epoch_io.Pd.Reject.{RejectReason, not_found}

pub data WriterStatus : Type 0 where
  live dead : WriterStatus

pub record WriterRecord : Type 0 where
  pub token : ℕ
  pub node_id : ℕ
  pub status : WriterStatus

abbrev pub is_live : WriterStatus → Bool
is_live live = true
is_live dead = false

abbrev pub token_of : WriterRecord → ℕ
token_of w = w.token

pub record Staged : Type 0 where
  pub batch : List BatchOp
  pub index : Table WriterRecord

module _ (codec : Codec WriterRecord) (opened : Bool) where
  -- `restore`, from the entries of the column family.
  unfoldable pub restore : Entries → Table WriterRecord → Result SmError (Table WriterRecord)
  unfolding load_records
  restore es index = elim (load_records codec opened es) [
    | err e ↦ err e
    | ok (records, next_id) ↦ ok (record { rows = collect token_of [] records; next_id = next_id })
  ]

  unfoldable pub apply_register : ℕ → Staged → Staged × Result SmError ℕ
  apply_register node_id s = elim (open_cf opened) [
    | err e ↦ (s, err e)
    | ok _ ↦ elim (advance_counter s.index.next_id) [
      | err e ↦ (s, err e)
      | ok next_id ↦
          let w : WriterRecord = record {
            token = s.index.next_id;
            node_id = node_id;
            status = live;
          } in
          elim (stage_put_record codec s.batch Cf.writer s.index.next_id w) [
            | err e ↦ (s, err e)
            | ok batch ↦ (
              record {
                batch = stage_put_counter batch Cf.writer next_id;
                index = record { rows = insert s.index.next_id w s.index.rows; next_id = next_id };
              },
              ok s.index.next_id,
            )
          ]
    ]
  ]

  unfoldable pub retire : ℕ → WriterRecord → Staged → Staged × Result SmError (Option RejectReason)
  retire token current s = elim (is_live current.status) [
    | false ↦ (s, ok none)
    | true ↦
        let updated : WriterRecord = record current { status = dead } in
        elim (stage_put_record codec s.batch Cf.writer token updated) [
          | err e ↦ (s, err e)
          | ok batch ↦ (
            record {
              batch = batch;
              index = record {
                rows = insert token updated s.index.rows;
                next_id = s.index.next_id;
              };
            },
            ok none,
          )
        ]
  ]

  unfoldable pub apply_mark_dead : ℕ → Staged → Staged × Result SmError (Option RejectReason)
  unfolding retire
  apply_mark_dead token s = elim (open_cf opened) [
    | err e ↦ (s, err e)
    | ok _ ↦ elim (lookup token s.index.rows) [
      | none ↦ (s, ok (some not_found))
      | some current ↦ retire token current s
    ]
  ]

  -- What an aborted install has staged by then is dropped with the batch.
  unfoldable pub stage_and_apply_snapshot :
      Entries → List WriterRecord → ℕ → Staged → Result SmError Staged
  unfolding stage_records
  stage_and_apply_snapshot es writers next_id s = elim (open_cf opened) [
    | err e ↦ err e
    | ok _ ↦
        elim (stage_records codec token_of Cf.writer (stage_clear s.batch Cf.writer es) writers) [
          | err e ↦ err e
          | ok batch ↦ ok (record {
            batch = stage_put_counter batch Cf.writer next_id;
            index = record { rows = collect token_of [] writers; next_id = next_id };
          })
        ]
  ]

-- The read paths; the last is that of the liveness sweep.
unfoldable pub snapshot_view : Table WriterRecord → List WriterRecord × ℕ
snapshot_view t = (values t.rows, t.next_id)

unfoldable pub live_sessions : Table WriterRecord → List (ℕ × ℕ)
live_sessions t = map (λ w. (w.token, w.node_id)) (retain (λ w. is_live w.status) (values t.rows))
