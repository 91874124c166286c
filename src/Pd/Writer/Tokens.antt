-- ===== src/Pd/Writer/Tokens.antt =====
-- crates/epoch-pd/src/writer/manager.rs: tokens are issued once, and a dead token stays dead.
use epoch_io.Common.{
  ℕ, ◌+◌, ◌≤◌, ◌<◌, ◌≡◌, ◌≢◌, refl, sym, ap, subst, ◌∙◌, arith, Bool, Option, none, some, ok, inl,
  inr, ◌==◌, Bool-cases,
}
use epoch_io.Common.Map.{Map, lookup, insert, lookup-insert_self, lookup-insert_ne}
use epoch_io.Pd.Records.{Codec, Table}
use epoch_io.Pd.Writer.{WriterRecord, dead, Staged, apply_register, apply_mark_dead}
use epoch_io.Pd.Writer.Cases.{fresh_writer, retired, apply_register-cases, apply_mark_dead-cases}

-- Every token issued is below the next one, and carries its own number.
abbrev pub IsIssued : Table WriterRecord → Type 0
IsIssued t = (k : ℕ) (w : WriterRecord) → lookup k t.rows ≡ some w → (k < t.next_id) × (w.token ≡ k)

-- One step of the registry: a registration or a retirement, whatever it answers.
pub data Step (codec : Codec WriterRecord) : Staged → Staged → Type 0 where
  register :
      (opened : Bool) (node_id : ℕ) (s : Staged)
      → Step codec s (apply_register codec opened node_id s).0
  mark_dead :
      (opened : Bool) (token : ℕ) (s : Staged)
      → Step codec s (apply_mark_dead codec opened token s).0

pub data Steps (codec : Codec WriterRecord) : Staged → Staged → Type 0 where
  start : (s : Staged) → Steps codec s s
  next : {s t u : Staged} → Steps codec s t → Step codec t u → Steps codec s u

-- What holds of an issued token from then on.
abbrev pub Lasts : WriterRecord → Table WriterRecord → Type 0
Lasts w t =
    (w' : WriterRecord) × (lookup w.token t.rows ≡ some w')
    × (w'.token ≡ w.token)
    × (w'.node_id ≡ w.node_id)
    × (w.status ≡ dead → w'.status ≡ dead)

module _ (codec : Codec WriterRecord) where
  insert-IsIssued :
      (t : Table WriterRecord) (n : ℕ) (w : WriterRecord)
      → IsIssued t
      → t.next_id ≤ n
      → w.token < n
      → IsIssued (record { rows = insert w.token w t.rows; next_id = n })
  insert-IsIssued t n w i le lt k w' e = elim (Bool-cases (k == w.token)) [
    | inl q ↦
        let p : k ≡ w.token = ground arith in
        let same : w ≡ w' = cc (
          e,
          ap (λ x. lookup x (insert w.token w t.rows)) p,
          lookup-insert_self w.token w t.rows,
        ) in
        (omega arith, ap (λ x. x.token) (sym same) ∙ sym p)
    | inr q ↦
        let p : k ≢ w.token = ground arith in
        let (a, b) = i k w' (sym (lookup-insert_ne w.token k w t.rows p) ∙ e) in (omega arith, b)
  ]

  step-IsIssued : (s t : Staged) → Step codec s t → IsIssued s.index → IsIssued t.index
  step-IsIssued _ _ (register opened node_id s) i =
      elim (apply_register-cases codec s opened node_id) [
        | inl (bytes, h, v, e) ↦
            subst (λ r. IsIssued r.0.index) (sym e)
              (insert-IsIssued s.index (s.index.next_id + 1) (fresh_writer s.index.next_id node_id)
                i (omega arith) (omega arith))
        | inr (x, e) ↦ subst (λ r. IsIssued r.0.index) (sym e) i
      ]
  step-IsIssued _ _ (mark_dead opened token s) i =
      elim (apply_mark_dead-cases codec s opened token) [
        | inl (inl (_, e)) ↦ subst (λ r. IsIssued r.0.index) (sym e) i
        | inl (inr (inl (_, _, _, e))) ↦ subst (λ r. IsIssued r.0.index) (sym e) i
        | inl (inr (inr (w, bytes, found, v, e))) ↦
            let (lt, own) = i token w found in
            subst (λ r. IsIssued r.0.index) (sym e)
              (subst
                (λ k.
                  IsIssued (record {
                    rows = insert k (retired w) s.index.rows;
                    next_id = s.index.next_id;
                  }))
                own
                (insert-IsIssued s.index s.index.next_id (retired w) i (omega arith) (omega arith)))
        | inr (x, e) ↦ subst (λ r. IsIssued r.0.index) (sym e) i
      ]

  Lasts-here :
      (t : Table WriterRecord) (w : WriterRecord) → lookup w.token t.rows ≡ some w → Lasts w t
  Lasts-here t w e = (w, e, refl, refl, λ d. d)

  retired-Lasts :
      (rows : Map WriterRecord) (n token : ℕ) (w w' : WriterRecord)
      → w'.token ≡ token
      → lookup token rows ≡ some w'
      → lookup w.token rows ≡ some w
      → Lasts w (record { rows = insert token (retired w') rows; next_id = n })
  retired-Lasts rows n token w w' own at_token found = elim (Bool-cases (w.token == token)) [
    | inl q ↦
        let p : w.token ≡ token = ground arith in
        let same : w' ≡ w = cc (at_token, ap (λ x. lookup x rows) p, found) in
        (
          retired w',
          ap (λ x. lookup x (insert token (retired w') rows)) p
              ∙ lookup-insert_self token (retired w') rows,
          own ∙ sym p,
          ap (λ x. x.node_id) same,
          λ d. refl,
        )
    | inr q ↦
        let p : w.token ≢ token = ground arith in
        (w, lookup-insert_ne token w.token (retired w') rows p ∙ found, refl, refl, λ d. d)
  ]

  step-Lasts :
      (s t : Staged) (w : WriterRecord)
      → Step codec s t
      → IsIssued s.index
      → lookup w.token s.index.rows ≡ some w
      → Lasts w t.index
  step-Lasts _ _ w (register opened node_id s) i found =
      elim (apply_register-cases codec s opened node_id) [
        | inl (bytes, h, v, e) ↦
            let (lt, _) = i w.token w found in
            let ne : w.token ≢ s.index.next_id = λ p. omega arith in
            subst (λ r. Lasts w r.0.index) (sym e)
              (
                w,
                lookup-insert_ne s.index.next_id w.token (fresh_writer s.index.next_id node_id)
                      s.index.rows ne
                    ∙ found,
                refl,
                refl,
                λ d. d,
              )
        | inr (x, e) ↦ subst (λ r. Lasts w r.0.index) (sym e) (Lasts-here s.index w found)
      ]
  step-Lasts _ _ w (mark_dead opened token s) i found =
      elim (apply_mark_dead-cases codec s opened token) [
        | inl (inl (_, e)) ↦ subst (λ r. Lasts w r.0.index) (sym e) (Lasts-here s.index w found)
        | inl (inr (inl (_, _, _, e))) ↦
            subst (λ r. Lasts w r.0.index) (sym e) (Lasts-here s.index w found)
        | inl (inr (inr (w', bytes, at_token, v, e))) ↦
            let (_, own) = i token w' at_token in
            subst (λ r. Lasts w r.0.index) (sym e)
              (retired-Lasts s.index.rows s.index.next_id token w w' own at_token found)
        | inr (x, e) ↦ subst (λ r. Lasts w r.0.index) (sym e) (Lasts-here s.index w found)
      ]

  Steps-IsIssued : (s t : Staged) → Steps codec s t → IsIssued s.index → IsIssued t.index
  Steps-IsIssued _ _ (start s) i = i
  Steps-IsIssued _ _ (next {s} {t} {u} before last) i =
      step-IsIssued t u last (Steps-IsIssued s t before i)

  Lasts-step :
      (m t : Staged) (w : WriterRecord)
      → IsIssued m.index
      → Lasts w m.index
      → Step codec m t
      → Lasts w t.index
  Lasts-step m t w i (w', found, tok, node, d) st =
      let (w'', found', tok', node', d') =
        step-Lasts m t w' st i (ap (λ x. lookup x m.index.rows) tok ∙ found) in
      (
        w'',
        ap (λ x. lookup x t.index.rows) (sym tok) ∙ found',
        tok' ∙ tok,
        node' ∙ node,
        λ q. d' (d q),
      )

  -- Through any run of registrations and retirements an issued token keeps its record, under the
  -- same token and node, and once dead it is dead for good.
  pub Steps-Lasts :
      (s t : Staged) (w : WriterRecord)
      → Steps codec s t
      → IsIssued s.index
      → lookup w.token s.index.rows ≡ some w
      → Lasts w t.index
  Steps-Lasts _ _ w (start s) i found = Lasts-here s.index w found
  Steps-Lasts _ _ w (next {s} {t} {u} before last) i found =
      Lasts-step t u w (Steps-IsIssued s t before i) (Steps-Lasts s t w before i found) last

  -- A registration after any run answers a token that none of the run's tokens is, and records it
  -- live for the node that asked.
  pub register_new :
      (s t : Staged) (opened : Bool) (node_id token : ℕ)
      → Steps codec s t
      → IsIssued s.index
      → (apply_register codec opened node_id t).1 ≡ ok token
      → (lookup token t.index.rows ≡ none)
        × (lookup token (apply_register codec opened node_id t).0.index.rows
            ≡ some (fresh_writer token node_id))
  register_new s t opened node_id token run i e =
      elim (apply_register-cases codec t opened node_id) [
        | inl (bytes, h, v, q) ↦
            let p : t.index.next_id ≡ token = cc (e, ap (λ r. r.1) q) in
            let j = Steps-IsIssued s t run i in
            (
              unknown j token (omega arith),
              ap (λ r. lookup token r.0.index.rows) q
                  ∙ ap
                      (λ x. lookup x (
                        insert t.index.next_id (fresh_writer t.index.next_id node_id) t.index.rows))
                      (sym p)
                  ∙ lookup-insert_self t.index.next_id (fresh_writer t.index.next_id node_id)
                      t.index.rows
                  ∙ ap (λ x. some (fresh_writer x node_id)) p,
            )
        | inr (x, q) ↦ cc (e, ap (λ r. r.1) q)
      ]
    where
      unknown : IsIssued t.index → (k : ℕ) → t.index.next_id ≤ k → lookup k t.index.rows ≡ none
      unknown j k le = by_lookup (lookup k t.index.rows) refl
        where
          by_lookup : (o : Option WriterRecord) → lookup k t.index.rows ≡ o → o ≡ none
          by_lookup none q = refl
          by_lookup (some w) q = let (lt, _) = j k w q in absurd (omega arith)
