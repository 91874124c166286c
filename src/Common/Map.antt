-- ===== src/Common/Map.antt =====
-- `BTreeMap` with a numeric key, as an association list in key order. The laws hold of any list,
-- so no proof carries the order; `Ascending` is what makes `values` come out in key order.
use epoch_io.Common.Tests.{ltb, ◌==◌, if◌then◌else◌, Bool-cases}
use Prim.Native.Nat.{ℕ, suc, ◌≤◌}
use mathlib.Core.Path.{◌≡◌, refl, sym, ap, subst, ◌∙◌}
use mathlib.Core.Logic.{◌≢◌, ◌⊎◌, inl, inr}
use mathlib.Core.Bool.{false}
use mathlib.Core.Option.{Option, none, some}
use mathlib.Core.List.{List, [], ◌∷◌}
use native.Mathlib.Omega.{arith}

abbrev pub Map {ℓ} : Type ℓ → Type ℓ
Map V = List (ℕ × V)

module _ {ℓ} {V : Type ℓ} where
  unfoldable pub lookup : ℕ → Map V → Option V
  lookup k [] = none
  lookup k ((j, v) ∷ m) = if k == j then some v else lookup k m

  unfoldable pub insert : ℕ → V → Map V → Map V
  insert k v [] = (k, v) ∷ []
  insert k v ((j, w) ∷ m) =
      let rest = insert k v m in
      if k == j then (k, v) ∷ m else if ltb k j then (k, v) ∷ ((j, w) ∷ m) else (j, w) ∷ rest

  unfoldable pub remove : ℕ → Map V → Map V
  remove k [] = []
  remove k ((j, w) ∷ m) = let rest = remove k m in if k == j then rest else (j, w) ∷ rest

  unfoldable pub values : Map V → List V
  values [] = []
  values ((j, v) ∷ m) = v ∷ values m

  pub lookup-insert :
      (k j : ℕ) (v : V) (m : Map V)
      → lookup j (insert k v m) ≡ (if j == k then some v else lookup j m)
  unfolding lookup insert
  lookup-insert k j v [] = refl
  lookup-insert k j v ((i, w) ∷ m) = ground (arith, lookup-insert k j v m)

  pub lookup-insert_self : (k : ℕ) (v : V) (m : Map V) → lookup k (insert k v m) ≡ some v
  lookup-insert_self k v m = ground (arith, lookup-insert k k v m)

  pub lookup-insert_ne :
      (k j : ℕ) (v : V) (m : Map V) → j ≢ k → lookup j (insert k v m) ≡ lookup j m
  lookup-insert_ne k j v m h = ground (arith, lookup-insert k j v m)

  pub lookup-insert-cases :
      (k j : ℕ) (v w : V) (m : Map V)
      → lookup j (insert k v m) ≡ some w
      → ((j ≡ k) × (v ≡ w)) ⊎ ((j ≢ k) × (lookup j m ≡ some w))
  lookup-insert-cases k j v w m e = elim (Bool-cases (j == k)) [
    | inl q ↦
        let h : some v ≡ some w = sym (lookup-insert k j v m ∙ rw q refl) ∙ e in
        inl (ground arith, cc h)
    | inr q ↦ inr (ground arith, sym (lookup-insert k j v m ∙ rw q refl) ∙ e)
  ]

  pub lookup-remove :
      (k j : ℕ) (m : Map V) → lookup j (remove k m) ≡ (if j == k then none else lookup j m)
  unfolding lookup remove
  lookup-remove k j [] = ground arith
  lookup-remove k j ((i, w) ∷ m) = ground (arith, lookup-remove k j m)

  -- Keys rise along the list, from `n` on.
  abbrev pub Ascending : ℕ → Map V → Type 0
  Ascending n [] = Unit {0}
  Ascending n ((j, v) ∷ m) = (n ≤ j) × Ascending (suc j) m

  Ascending-mono : (n n' : ℕ) (m : Map V) → n ≤ n' → Ascending n' m → Ascending n m
  Ascending-mono n n' [] h a = tt
  Ascending-mono n n' ((j, v) ∷ m) h (b, a) = (omega arith, a)

  pub insert-Ascending :
      (n k : ℕ) (v : V) (m : Map V) → n ≤ k → Ascending n m → Ascending n (insert k v m)
  unfolding insert
  insert-Ascending n k v [] h a = (h, tt)
  insert-Ascending n k v ((j, w) ∷ m) h (b, a) = ground (arith, insert-Ascending (suc j) k v m, a)

  pub remove-Ascending : (n k : ℕ) (m : Map V) → Ascending n m → Ascending n (remove k m)
  unfolding remove
  remove-Ascending n k [] a = tt
  remove-Ascending n k ((j, v) ∷ m) (b, a) =
      let rest = remove-Ascending (suc j) k m a in
      elim (Bool-cases (k == j)) [
        | inl e ↦ rw e (Ascending-mono n (suc j) (remove k m) (omega arith) rest)
        | inr e ↦ rw e (b, rest)
      ]

  pub Ascending-ge : (n k : ℕ) (v : V) (m : Map V) → Ascending n m → lookup k m ≡ some v → n ≤ k
  unfolding lookup
  Ascending-ge n k v [] a e = cc
  Ascending-ge n k v ((j, w) ∷ m) (b, a) e = ground (arith, Ascending-ge (suc j) k v m a)

  -- Below its first key an ordered map has no entry.
  pub Ascending-below : (n k : ℕ) (m : Map V) → suc k ≤ n → Ascending n m → lookup k m ≡ none
  unfolding lookup
  Ascending-below n k [] h a = refl
  Ascending-below n k ((j, w) ∷ m) h (b, a) =
      let other : (k == j) ≡ false = ground arith in
      rw other (Ascending-below (suc j) k m (omega arith) a)

  -- In key order the entries behind the first are found through it.
  pub lookup_behind :
      (n j k : ℕ) (v w : V) (m : Map V)
      → Ascending n ((j, v) ∷ m)
      → lookup k m ≡ some w
      → lookup k ((j, v) ∷ m) ≡ some w
  unfolding lookup
  lookup_behind n j k v w m (b, a) e =
      let far = Ascending-ge (suc j) k w m a e in
      let other : (k == j) ≡ false = ground arith in rw other e

  pub lookup_first : (j : ℕ) (v : V) (m : Map V) → lookup j ((j, v) ∷ m) ≡ some v
  unfolding lookup
  lookup_first j v m = ground arith

  -- What holds of every entry that a map answers.
  abbrev pub Every {κ} : (ℕ → V → Type κ) → Map V → Type (ℓ ⊔ κ)
  Every P m = (k : ℕ) (v : V) → lookup k m ≡ some v → P k v

  pub insert-Every {κ} :
      (P : ℕ → V → Type κ) (i : ℕ) (w : V) (m : Map V) → P i w → Every P m → Every P (insert i w m)
  insert-Every P i w m h every k v e = elim (Bool-cases (k == i)) [
    | inl q ↦
        let p : k ≡ i = ground arith in
        let same : w ≡ v = cc (e, ap (λ x. lookup x (insert i w m)) p, lookup-insert_self i w m) in
        subst (λ x. P k x) same (subst (λ n. P n w) (sym p) h)
    | inr q ↦ let p : k ≢ i = ground arith in every k v (sym (lookup-insert_ne i k w m p) ∙ e)
  ]

  -- An entry of a map without a key has another key.
  pub remove-Every {κ} :
      (P : ℕ → V → Type κ) (i : ℕ) (m : Map V)
      → ((k : ℕ) (v : V) → k ≢ i → lookup k m ≡ some v → P k v)
      → Every P (remove i m)
  remove-Every P i m every k v e = elim (Bool-cases (k == i)) [
    | inl q ↦ cc (rw q at (sym (lookup-remove i k m) ∙ e))
    | inr q ↦ every k v (ground arith) (rw q at (sym (lookup-remove i k m) ∙ e))
  ]
