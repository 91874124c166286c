-- ===== src/Common/KeyMap.antt =====
-- `BTreeMap` with a byte string, or a tuple of numbers and one, as its key: an association list in the
-- order of the keys.
use epoch_io.Common.Tests.{if◌then◌else◌, Bool-cases}
use epoch_io.Common.Bytes.{bytes_eq, bytes_eq→eq, bytes_eq_refl, bytes_eq_at, bytes_eq_other}
use epoch_io.Common.Lex.{lex_ltb, lex_ltb_irrefl, lex_ltb_connex, lex_ltb_trans, lex_ltb_asym}
use Prim.Native.Nat.{ℕ}
use mathlib.Core.Path.{◌≡◌, refl, sym, ap, subst, ◌∙◌}
use mathlib.Core.Logic.{inl, inr}
use mathlib.Core.Bool.{true, false}
use mathlib.Core.Option.{Option, none, some}
use mathlib.Core.List.{List, [], ◌∷◌}
use native.Mathlib.Omega.{arith}

abbrev pub KeyMap : Type 0 → Type 0
KeyMap V = List (List ℕ × V)

not_equal : (a b : List ℕ) → lex_ltb a b ≡ true → bytes_eq b a ≡ false
not_equal a b lt = elim (Bool-cases (bytes_eq b a)) [
  | inl e ↦ cc (ap (λ x. lex_ltb a x) (bytes_eq→eq b a e), lt, lex_ltb_irrefl a)
  | inr e ↦ e
]

behind : (a b : List ℕ) → bytes_eq a b ≡ false → lex_ltb a b ≡ false → lex_ltb b a ≡ true
behind a b ne ge = elim (Bool-cases (lex_ltb b a)) [
  | inl e ↦ e
  | inr e ↦ cc (ap (λ x. bytes_eq x b) (lex_ltb_connex a b ge e), ne, bytes_eq_refl b)
]

not_below : (k i j : List ℕ) → lex_ltb k j ≡ false → lex_ltb i j ≡ true → lex_ltb k i ≡ false
not_below k i j ge lt = elim (Bool-cases (lex_ltb k i)) [
  | inl e ↦ cc (ge, lex_ltb_trans k i j e lt)
  | inr e ↦ e
]

module _ {V : Type 0} where
  unfoldable pub at_key : List ℕ → KeyMap V → Option V
  at_key k [] = none
  at_key k ((j, v) ∷ m) = if bytes_eq k j then some v else at_key k m

  unfoldable pub insert_key : List ℕ → V → KeyMap V → KeyMap V
  insert_key k v [] = (k, v) ∷ []
  insert_key k v ((j, w) ∷ m) =
      let rest = insert_key k v m in
      if bytes_eq k j
      then (k, v) ∷ m
      else if lex_ltb k j
      then (k, v) ∷ ((j, w) ∷ m)
      else (j, w) ∷ rest

  unfoldable pub remove_key : List ℕ → KeyMap V → KeyMap V
  remove_key k [] = []
  remove_key k ((j, w) ∷ m) =
      let rest = remove_key k m in if bytes_eq k j then rest else (j, w) ∷ rest

  -- `range(..=k).next_back()`: the value of the greatest key that is not above `k`.
  unfoldable pub floor : List ℕ → KeyMap V → Option V
  floor k [] = none
  floor k ((j, v) ∷ m) =
      let rest = floor k m in
      if lex_ltb k j then none else elim rest [ none ↦ some v | some w ↦ some w ]

  -- Every key is above `b`, and they rise along the list.
  abbrev pub Above : List ℕ → KeyMap V → Type 0
  Above b [] = Unit {0}
  Above b ((j, v) ∷ m) = (lex_ltb b j ≡ true) × Above j m

  abbrev pub Rising : KeyMap V → Type 0
  Rising [] = Unit {0}
  Rising ((j, v) ∷ m) = Above j m

  Above-mono : (a b : List ℕ) (m : KeyMap V) → lex_ltb a b ≡ true → Above b m → Above a m
  Above-mono a b [] lt h = tt
  Above-mono a b ((j, v) ∷ m) lt (h, rest) = (lex_ltb_trans a b j lt h, rest)

  Above-Rising : (b : List ℕ) (m : KeyMap V) → Above b m → Rising m
  Above-Rising b [] h = tt
  Above-Rising b ((j, v) ∷ m) (h, rest) = rest

  Above-at_key :
      (b k : List ℕ) (v : V) (m : KeyMap V) → Above b m → at_key k m ≡ some v → lex_ltb b k ≡ true
  unfolding at_key
  Above-at_key b k v [] h e = cc
  Above-at_key b k v ((j, w) ∷ m) (h, rest) e = elim (Bool-cases (bytes_eq k j)) [
    | inl q ↦ ap (lex_ltb b) (bytes_eq→eq k j q) ∙ h
    | inr q ↦ lex_ltb_trans b j k h (Above-at_key j k v m rest (rw q at e))
  ]

  pub at_key-insert_key :
      (k j : List ℕ) (v : V) (m : KeyMap V)
      → at_key j (insert_key k v m) ≡ (if bytes_eq j k then some v else at_key j m)
  unfolding at_key insert_key
  at_key-insert_key k j v [] = refl
  at_key-insert_key k j v ((i, w) ∷ m) = elim (Bool-cases (bytes_eq k i)) [
    | inl e ↦ rw e (ground (arith, bytes_eq_at k j i e))
    | inr e ↦ elim (Bool-cases (lex_ltb k i)) [
      | inl l ↦ rw (e, l) refl
      | inr l ↦ rw (e, l) (ground (arith, bytes_eq_other k j i e, at_key-insert_key k j v m))
    ]
  ]

  pub at_key-insert_key_same :
      (k j : List ℕ) (v : V) (m : KeyMap V)
      → bytes_eq j k ≡ true
      → at_key j (insert_key k v m) ≡ some v
  at_key-insert_key_same k j v m q = ground (arith, at_key-insert_key k j v m)

  pub at_key-insert_key_other :
      (k j : List ℕ) (v : V) (m : KeyMap V)
      → bytes_eq j k ≡ false
      → at_key j (insert_key k v m) ≡ at_key j m
  at_key-insert_key_other k j v m q = ground (arith, at_key-insert_key k j v m)

  insert_key-Above :
      (b k : List ℕ) (v : V) (m : KeyMap V)
      → lex_ltb b k ≡ true
      → Above b m
      → Above b (insert_key k v m)
  unfolding insert_key
  insert_key-Above b k v [] lt h = (lt, tt)
  insert_key-Above b k v ((j, w) ∷ m) lt (h, rest) = elim (Bool-cases (bytes_eq k j)) [
    | inl e ↦ rw e (lt, subst (λ x. Above x m) (sym (bytes_eq→eq k j e)) rest)
    | inr e ↦ elim (Bool-cases (lex_ltb k j)) [
      | inl l ↦ rw (e, l) (lt, (l, rest))
      | inr l ↦ rw (e, l) (h, insert_key-Above j k v m (behind k j e l) rest)
    ]
  ]

  pub insert_key-Rising : (k : List ℕ) (v : V) (m : KeyMap V) → Rising m → Rising (insert_key k v m)
  unfolding insert_key
  insert_key-Rising k v [] h = tt
  insert_key-Rising k v ((j, w) ∷ m) h = elim (Bool-cases (bytes_eq k j)) [
    | inl e ↦ rw e (subst (λ x. Above x m) (sym (bytes_eq→eq k j e)) h)
    | inr e ↦ elim (Bool-cases (lex_ltb k j)) [
      | inl l ↦ rw (e, l) (l, h)
      | inr l ↦ rw (e, l) (insert_key-Above j k v m (behind k j e l) h)
    ]
  ]

  hit : (i : List ℕ) (w : V) (m : KeyMap V) → at_key i ((i, w) ∷ m) ≡ some w
  unfolding at_key
  hit i w m = rw (bytes_eq_refl i) refl

  pass :
      (i j : List ℕ) (v w : V) (m : KeyMap V)
      → lex_ltb j i ≡ true
      → at_key i m ≡ some v
      → at_key i ((j, w) ∷ m) ≡ some v
  unfolding at_key
  pass i j v w m lt e = rw (not_equal j i lt) e

  floor-some :
      (b k : List ℕ) (w : V) (m : KeyMap V)
      → Above b m
      → floor k m ≡ some w
      → (i : List ℕ) × (at_key i m ≡ some w) × (lex_ltb k i ≡ false) × (lex_ltb b i ≡ true)
  unfolding floor
  floor-some b k w [] h e = cc
  floor-some b k w ((j, v) ∷ m) (h, rest) e = elim (Bool-cases (lex_ltb k j)) [
    | inl l ↦ cc (rw l at e)
    | inr l ↦ by_rest (λ x q. floor-some j k x m rest q) (floor k m) refl l (rw l at e)
  ]
    where
      by_rest :
          ((x : V)
            → floor k m ≡ some x
            → (i : List ℕ) × (at_key i m ≡ some x) × (lex_ltb k i ≡ false) × (lex_ltb j i ≡ true))
          → (o : Option V) → floor k m ≡ o
          → lex_ltb k j ≡ false
          → (elim o as (λ x. Option V) [ none ↦ some v | some x ↦ some x ]) ≡ some w
          → (i : List ℕ) × (at_key i ((j, v) ∷ m) ≡ some w)
            × (lex_ltb k i ≡ false)
            × (lex_ltb b i ≡ true)
      by_rest later none q l e = (j, hit j v m ∙ e, l, h)
      by_rest later (some x) q l e =
          let (i, at, ge, lt) = later x q in
          (i, pass i j x v m lt at ∙ e, ge, lex_ltb_trans b j i h lt)

  -- The floor of a key is the value of a key that is not above it, and no key is between them.
  pub floor-greatest :
      (k j : List ℕ) (v : V) (m : KeyMap V)
      → Rising m
      → at_key j m ≡ some v
      → lex_ltb k j ≡ false
      → (i : List ℕ) × (w : V) × (floor k m ≡ some w)
        × (at_key i m ≡ some w)
        × (lex_ltb k i ≡ false)
        × (lex_ltb i j ≡ false)
  unfolding floor at_key
  floor-greatest k j v [] h e ge = cc
  floor-greatest k j v ((i, w) ∷ m) h e ge = elim (Bool-cases (bytes_eq j i)) [
    | inl q ↦
        let same : i ≡ j = sym (bytes_eq→eq j i q) in
        here same (ap (lex_ltb k) same ∙ ge) (floor k m) refl
    | inr q ↦
        let e' : at_key j m ≡ some v = rw q at e in
        let lt = Above-at_key i j v m h e' in
        let ge_i = not_below k i j ge lt in
        let (n, x, f, at, ge_n, last) = floor-greatest k j v m (Above-Rising i m h) e' ge in
        let lt_n = Above-at_key i n x m h at in
        (n, x, rw (ge_i, f) refl, pass n i x w m lt_n at, ge_n, last)
  ]
    where
      here :
          i ≡ j
          → lex_ltb k i ≡ false
          → (o : Option V) → floor k m ≡ o
          → (n : List ℕ) × (x : V) × (floor k ((i, w) ∷ m) ≡ some x)
            × (at_key n ((i, w) ∷ m) ≡ some x)
            × (lex_ltb k n ≡ false)
            × (lex_ltb n j ≡ false)
      here same ge_i none q =
          (i, w, rw (ge_i, q) refl, hit i w m, ge_i, ap (lex_ltb i) (sym same) ∙ lex_ltb_irrefl i)
      here same ge_i (some x) q =
          let (n, at, ge_n, lt) = floor-some i k x m h q in
          (
            n,
            x,
            rw (ge_i, q) refl,
            pass n i x w m lt at,
            ge_n,
            ap (lex_ltb n) (sym same) ∙ lex_ltb_asym i n lt,
          )
