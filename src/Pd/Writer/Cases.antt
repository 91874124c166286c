-- ===== src/Pd/Writer/Cases.antt =====
-- The ways in which the handlers of crates/epoch-pd/src/writer/manager.rs can end.
use epoch_io.Common.{
  ℕ, ◌+◌, ◌^◌, ◌<◌, ◌≡◌, refl, Bool, true, false, Option, none, some, List, [], ◌∷◌, ◌++◌, Result,
  ok, err, ◌⊎◌, inl, inr, Option-cases, Bool-cases,
}
use epoch_io.Common.Bytes.{to_be_bytes}
use epoch_io.Common.Map.{lookup, insert}
use epoch_io.Pd.Records.{
  SmError, missing_cf, write_failed, counter_overflow, BatchOp, put, Cf, Codec, Bytes, open_cf,
  record_key, next_id_key, stage_put_counter,
}
use epoch_io.Pd.Records.View.{stage_put_record-cases, advance_counter-cases}
use epoch_io.Pd.Reject.{RejectReason, not_found}
use epoch_io.Pd.Writer.{
  WriterRecord, WriterStatus, live, dead, is_live, Staged, apply_register, retire, apply_mark_dead,
}

-- The record of a new token, and a retired one.
abbrev pub fresh_writer : ℕ → ℕ → WriterRecord
fresh_writer token node_id = record { token = token; node_id = node_id; status = live }

abbrev pub retired : WriterRecord → WriterRecord
retired w = record w { status = dead }

abbrev pub put_writer : List BatchOp → ℕ → Bytes → List BatchOp
put_writer batch token bytes = batch ++ (put Cf.writer (record_key token) bytes ∷ [])

abbrev pub put_next_token : List BatchOp → ℕ → List BatchOp
put_next_token batch n = batch ++ (put Cf.writer next_id_key (to_be_bytes 4 n) ∷ [])

module _ (codec : Codec WriterRecord) (s : Staged) where
  abbrev pub Registered : Staged × Result SmError ℕ → ℕ → Type 0
  Registered res node_id =
      (bytes : Bytes) × (s.index.next_id + 1 < 2 ^ 32)
      × (codec.to_vec (fresh_writer s.index.next_id node_id) ≡ some bytes)
      × (res ≡ (
        record {
          batch = put_next_token (put_writer s.batch s.index.next_id bytes) (s.index.next_id + 1);
          index = record {
            rows = insert s.index.next_id (fresh_writer s.index.next_id node_id) s.index.rows;
            next_id = s.index.next_id + 1;
          };
        },
        ok s.index.next_id,
      ))

  -- The token is unknown, was dead before, or is set dead.
  abbrev pub Marked : Staged × Result SmError (Option RejectReason) → ℕ → Type 0
  Marked res token =
      ((lookup token s.index.rows ≡ none) × (res ≡ (s, ok (some not_found))))
      ⊎ (((w : WriterRecord) × (lookup token s.index.rows ≡ some w)
            × (w.status ≡ dead)
            × (res ≡ (s, ok none)))
          ⊎ ((w : WriterRecord) × (bytes : Bytes) × (lookup token s.index.rows ≡ some w)
              × (codec.to_vec (retired w) ≡ some bytes)
              × (res ≡ (
                record {
                  batch = put_writer s.batch token bytes;
                  index = record {
                    rows = insert token (retired w) s.index.rows;
                    next_id = s.index.next_id;
                  };
                },
                ok none,
              ))))

  abbrev pub Failed : {A : Type 0} → Staged × Result SmError A → Type 0
  Failed res = (e : SmError) × (res ≡ (s, err e))

  pub apply_register-cases :
      (opened : Bool) (node_id : ℕ)
      → Registered (apply_register codec opened node_id s) node_id
        ⊎ Failed (apply_register codec opened node_id s)
  apply_register-cases false node_id = inr (missing_cf, unfold apply_register open_cf in refl)
  apply_register-cases true node_id = elim (advance_counter-cases s.index.next_id) [
    | inr (h, a) ↦ inr (counter_overflow, unfold apply_register open_cf in rw (a, apply_register))
    | inl (h, a) ↦
        elim (stage_put_record-cases codec s.batch Cf.writer s.index.next_id
          (fresh_writer s.index.next_id node_id)) [
            | inl (v, p) ↦ inr (
              write_failed,
              unfold apply_register open_cf in rw (a, apply_register) (rw (p, apply_register)),
            )
            | inr (bytes, v, p) ↦ inl (
              bytes,
              h,
              v,
              unfold apply_register open_cf stage_put_counter in
                  rw (a, apply_register) (rw (p, apply_register)),
            )
          ]
  ]

  dead_of : (st : WriterStatus) → is_live st ≡ false → st ≡ dead
  dead_of WriterStatus.live e = cc
  dead_of WriterStatus.dead e = refl

  pub apply_mark_dead-cases :
      (opened : Bool) (token : ℕ)
      → Marked (apply_mark_dead codec opened token s) token
        ⊎ Failed (apply_mark_dead codec opened token s)
  apply_mark_dead-cases false token = inr (missing_cf, unfold apply_mark_dead open_cf in refl)
  apply_mark_dead-cases true token = elim (Option-cases (lookup token s.index.rows)) [
    | inl e ↦ inl (inl (e, unfold apply_mark_dead open_cf in rw (e, apply_mark_dead)))
    | inr (w, e) ↦ elim (Bool-cases (is_live w.status)) [
      | inr d ↦ inl (
          inr (
            inl (
              w,
              e,
              dead_of w.status d,
              unfold apply_mark_dead open_cf retire in rw (e, apply_mark_dead) (rw (d, retire)),
            )))
      | inl l ↦ elim (stage_put_record-cases codec s.batch Cf.writer token (retired w)) [
        | inl (v, p) ↦ inr (
          write_failed,
          unfold apply_mark_dead open_cf retire in
              rw (e, apply_mark_dead) (rw (l, retire) (rw (p, retire))),
        )
        | inr (bytes, v, p) ↦ inl (
            inr (
              inr (
                w,
                bytes,
                e,
                v,
                unfold apply_mark_dead open_cf retire in
                    rw (e, apply_mark_dead) (rw (l, retire) (rw (p, retire))),
              )))
      ]
    ]
  ]
