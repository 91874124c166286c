-- ===== src/Tests/Tokens.antt =====
-- The writer registry at work: a token issued, retired, and the next one issued.
use epoch_io.Common.{
  ℕ, zero, suc, ◌≡◌, ◌<◌, refl, sym, ap, ◌∙◌, arith, true, none, some, Option, [], ◌∷◌, ok,
}
use epoch_io.Common.Map.{lookup, insert}
use epoch_io.Pd.Records.{
  Bytes, Codec, advance_counter, open_cf, stage_put_record, stage_put_counter,
}
use epoch_io.Pd.Writer.{WriterRecord, WriterStatus, Staged, apply_register, apply_mark_dead}
use epoch_io.Pd.Writer.Cases.{fresh_writer}
use epoch_io.Pd.Writer.Tokens.{
  Steps, start, next, register, mark_dead, Lasts, Steps-Lasts, register_new,
}

status_tag : WriterStatus → ℕ
status_tag WriterStatus.live = 0
status_tag WriterStatus.dead = 1

status_of : ℕ → WriterStatus
status_of zero = WriterStatus.live
status_of (suc n) = WriterStatus.dead

read_writer : Bytes → Option WriterRecord
read_writer (token ∷ node_id ∷ status ∷ []) =
    some (record { token = token; node_id = node_id; status = status_of status })
read_writer other = none

write_writer : WriterRecord → Option Bytes
write_writer w = some (w.token ∷ w.node_id ∷ status_tag w.status ∷ [])

status_back : (s : WriterStatus) → status_of (status_tag s) ≡ s
unfolding status_of status_tag
status_back WriterStatus.live = refl
status_back WriterStatus.dead = refl

writer_back :
    (w : WriterRecord) (bytes : Bytes) → write_writer w ≡ some bytes → read_writer bytes ≡ some w
unfolding read_writer write_writer
writer_back w bytes e =
    ap (read_some bytes) (sym e) ∙ (λ i. some (record w { status = status_back w.status i }))
  where
    read_some : Bytes → Option Bytes → Option WriterRecord
    read_some d none = none
    read_some d (some b) = read_writer b

pub writer_codec : Codec WriterRecord
writer_codec = record { to_vec = write_writer; from_slice = read_writer; read_back = writer_back }

-- Token 1 is issued and dead, token 2 is next.
abbrev one_dead : Staged
one_dead = record {
  batch = [];
  index = record {
    rows = (1, record { token = 1; node_id = 8; status = WriterStatus.dead }) ∷ [];
    next_id = 2;
  };
}

one_dead-issued :
    (k : ℕ) (w : WriterRecord) → lookup k one_dead.index.rows ≡ some w → (k < 2) × (w.token ≡ k)
unfolding lookup
one_dead-issued k w e = ground arith

one_dead-run :
    Steps writer_codec one_dead
      (apply_mark_dead writer_codec true 1 (apply_register writer_codec true 9 one_dead).0).0
one_dead-run = next (next (start one_dead) (register true 9 one_dead)) (mark_dead true 1 _)

Steps-Lasts_example :
    Lasts
      (record { token = 1; node_id = 8; status = WriterStatus.dead })
      (apply_mark_dead writer_codec true 1 (apply_register writer_codec true 9 one_dead).0).0.index
Steps-Lasts_example =
    Steps-Lasts writer_codec one_dead
      (apply_mark_dead writer_codec true 1 (apply_register writer_codec true 9 one_dead).0).0
      (record { token = 1; node_id = 8; status = WriterStatus.dead }) one_dead-run one_dead-issued
      (unfold lookup in refl)

issued : (apply_register writer_codec true 9 one_dead).1 ≡ ok 2
unfolding apply_register writer_codec write_writer status_tag advance_counter open_cf
    stage_put_record stage_put_counter insert
issued = refl

register_new_example :
    (lookup 2 one_dead.index.rows ≡ none)
    × (lookup 2 (apply_register writer_codec true 9 one_dead).0.index.rows
        ≡ some (fresh_writer 2 9))
register_new_example =
    register_new writer_codec one_dead one_dead true 9 2 (start one_dead) one_dead-issued issued
