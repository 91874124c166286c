-- ===== src/Pd/Records/Unique.antt =====
-- Records that are registered under a key of their own besides the id, an address or a path: the key
-- names the id.
use epoch_io.Common.{ℕ, ◌≡◌, ◌≢◌, sym, ap, ◌∙◌, arith, some, inl, inr, ◌==◌, Bool-cases}
use epoch_io.Common.Map.{
  Map, lookup, insert, remove, lookup-insert_self, lookup-insert_ne, lookup-remove,
}

-- What is found after a removal was there before.
pub remove-found :
    {V : Type 0} (i k : ℕ) (v : V) (m : Map V)
    → lookup k (remove i m) ≡ some v
    → lookup k m ≡ some v
remove-found i k v m e = elim (Bool-cases (k == i)) [
  | inl q ↦ cc (rw q at (lookup-remove i k m), e)
  | inr q ↦ sym (rw q at (lookup-remove i k m)) ∙ e
]

module _ {V K : Type 0} (key_of : V → K) where
  -- No two entries share a key.
  abbrev pub IsUnique : Map V → Type 0
  IsUnique m =
      (i j : ℕ) (v w : V) → lookup i m ≡ some v → lookup j m ≡ some w → key_of v ≡ key_of w → i ≡ j

  inserted : (k i : ℕ) (r v : V) (m : Map V) → k ≡ i → lookup k (insert i r m) ≡ some v → r ≡ v
  inserted k i r v m p e = cc (ap (λ x. lookup x (insert i r m)) p, lookup-insert_self i r m, e)

  -- Where a record is written, whoever else has its key has its id.
  pub insert-IsUnique :
      (id : ℕ) (r : V) (m : Map V)
      → IsUnique m
      → ((k : ℕ) (v : V) → lookup k m ≡ some v → key_of v ≡ key_of r → k ≡ id)
      → IsUnique (insert id r m)
  insert-IsUnique id r m old alone i j v w ei ej p = elim (Bool-cases (i == id)) [
    | inl a ↦
        let at_i : i ≡ id = ground arith in
        let same_i = inserted i id r v m at_i ei in
        elim (Bool-cases (j == id)) [
          | inl b ↦ let at_j : j ≡ id = ground arith in at_i ∙ sym at_j
          | inr b ↦
              let ne : j ≢ id = ground arith in
              at_i
              ∙ sym (
                  alone j w (sym (lookup-insert_ne id j r m ne) ∙ ej)
                    (sym p ∙ sym (ap key_of same_i)))
        ]
    | inr a ↦
        let ne : i ≢ id = ground arith in
        let found = sym (lookup-insert_ne id i r m ne) ∙ ei in
        elim (Bool-cases (j == id)) [
          | inl b ↦
              let at_j : j ≡ id = ground arith in
              alone i v found (p ∙ sym (ap key_of (inserted j id r w m at_j ej))) ∙ sym at_j
          | inr b ↦
              let ne' : j ≢ id = ground arith in
              old i j v w found (sym (lookup-insert_ne id j r m ne') ∙ ej) p
        ]
  ]

  pub remove-IsUnique : (id : ℕ) (m : Map V) → IsUnique m → IsUnique (remove id m)
  remove-IsUnique id m old i j v w ei ej p =
      old i j v w (remove-found id i v m ei) (remove-found id j w m ej) p
