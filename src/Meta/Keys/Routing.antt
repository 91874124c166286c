-- ===== src/Meta/Keys/Routing.antt =====
-- What the keys of crates/epoch-meta/src/store/keys.rs give back, and the end of a prefix.
use epoch_io.Common.{
  ℕ, suc, ◌+◌, ◌^◌, ◌<◌, ◌≡◌, ◌≢◌, ◌↔◌, ◌⊎◌, inl, inr, subst, refl, sym, ap, ◌∙◌, arith, true,
  false, none, some, List, [], ◌∷◌, ◌++◌, ltb, ◌==◌, if◌then◌else◌, Bool-cases, length, All,
}
use epoch_io.Common.Bytes.{to_be_bytes, from_be_bytes, IsByte, from_be_bytes-to_be_bytes}
use epoch_io.Common.Lex.{lex_ltb}
use mathlib.Core.List.{append-nil}
use epoch_io.Meta.Keys.{
  MetaCf, tag, flat_key, hier_key, hier_routing_key, routing_key, routed, rev_onto, end_loop,
  prefix_end,
}

-- A key of a column family that routes by its bytes as they stand.
abbrev pub IsPlain : MetaCf → Type 0
IsPlain cf = (cf ≢ MetaCf.ttl) × (cf ≢ MetaCf.applied)

routed-plain :
    (cf : MetaCf) (bucket : ℕ) (routing : List ℕ)
    → IsPlain cf
    → routed (tag cf) bucket routing ≡ some (bucket, routing)
unfolding routed
routed-plain MetaCf.meta b r h = refl
routed-plain MetaCf.fs b r h = refl
routed-plain MetaCf.meta_seg b r h = refl
routed-plain MetaCf.upload b r h = refl
routed-plain MetaCf.delq b r h = refl
routed-plain MetaCf.ttl b r (h, _) = absurd (h refl)
routed-plain MetaCf.applied b r (_, h) = absurd (h refl)

eight_or_more : (n : ℕ) → ltb (suc (suc (suc (suc (suc (suc (suc (suc n)))))))) 8 ≡ false
eight_or_more n = ground arith

routing_key-tagged :
    (cf : MetaCf) (bucket : ℕ) (rest : List ℕ)
    → bucket < 2 ^ 64
    → routing_key (tag cf ∷ (to_be_bytes 8 bucket ++ rest)) ≡ routed (tag cf) bucket rest
unfolding routing_key
routing_key-tagged cf b rest h =
    ap (λ short. if short then none else routed (tag cf) (from_be_bytes (to_be_bytes 8 b)) rest)
      (eight_or_more (length rest))
    ∙ ap (λ n. routed (tag cf) n rest) (from_be_bytes-to_be_bytes 8 b h)

-- Outside the ttl family a flat key routes by its bucket and the object key with the suffix behind
-- it.
pub routing_key-flat_key :
    (cf : MetaCf) (bucket : ℕ) (object_key suffix : List ℕ)
    → IsPlain cf
    → bucket < 2 ^ 64
    → routing_key (flat_key cf bucket object_key suffix) ≡ some (bucket, object_key ++ suffix)
unfolding flat_key
routing_key-flat_key cf b k s p h =
    routing_key-tagged cf b (k ++ s) h ∙ routed-plain cf b (k ++ s) p

-- Outside the ttl family a hierarchical key routes by its bucket and the parent's inode before the
-- name and the suffix.
pub routing_key-hier_key :
    (cf : MetaCf) (bucket parent_ino : ℕ) (name suffix : List ℕ)
    → IsPlain cf
    → bucket < 2 ^ 64
    → routing_key (hier_key cf bucket parent_ino name suffix)
      ≡ some (bucket, hier_routing_key parent_ino (name ++ suffix))
unfolding hier_key hier_routing_key
routing_key-hier_key cf b ino n s p h =
    routing_key-tagged cf b _ h ∙ routed-plain cf b (to_be_bytes 8 ino ++ (n ++ s)) p

-- A ttl key routes by what follows its expiry time.
pub routing_key-ttl :
    (bucket expire_ts : ℕ) (routing : List ℕ)
    → bucket < 2 ^ 64
    → routing_key (flat_key MetaCf.ttl bucket (to_be_bytes 8 expire_ts) routing)
      ≡ some (bucket, routing)
unfolding flat_key routed
routing_key-ttl b ts r h =
    routing_key-tagged MetaCf.ttl b (to_be_bytes 8 ts ++ r) h ∙ rw (eight_or_more (length r)) refl

same_head : (p : ℕ) (xs ys : List ℕ) → lex_ltb (p ∷ xs) (p ∷ ys) ≡ lex_ltb xs ys
unfolding lex_ltb
same_head p xs ys = ground arith

pub never_below : (ps zs : List ℕ) → lex_ltb (ps ++ zs) ps ≡ false
unfolding lex_ltb
never_below [] [] = refl
never_below [] (z ∷ zs) = refl
never_below (p ∷ ps) zs = ground (arith, never_below ps zs)

lex_ltb-rev_onto : (ps xs ys : List ℕ) → lex_ltb (rev_onto ps xs) (rev_onto ps ys) ≡ lex_ltb xs ys
lex_ltb-rev_onto [] xs ys = refl
lex_ltb-rev_onto (p ∷ ps) xs ys = lex_ltb-rev_onto ps (p ∷ xs) (p ∷ ys) ∙ same_head p xs ys

rev_onto_twice : (xs ys zs : List ℕ) → rev_onto (rev_onto xs ys) zs ≡ rev_onto ys (xs ++ zs)
rev_onto_twice [] ys zs = refl
rev_onto_twice (x ∷ xs) ys zs = rev_onto_twice xs (x ∷ ys) zs

above_head : (x : ℕ) (zs : List ℕ) → lex_ltb (x ∷ zs) ((x + 1) ∷ []) ≡ true
unfolding lex_ltb
above_head x zs = ground arith

end_loop-nil {ℓ} : {A : Type ℓ} (e : List ℕ) → end_loop [] ≡ some e → A
unfolding end_loop
end_loop-nil e h = cc

-- One round of the loop.
end_loop-cases :
    (last : ℕ) (init e : List ℕ)
    → end_loop (last ∷ init) ≡ some e
    → ((last ≡ 0xff) × (end_loop init ≡ some e)) ⊎ (e ≡ rev_onto init ((last + 1) ∷ []))
unfolding end_loop
end_loop-cases last init e h = elim (Bool-cases (last == 0xff)) [
  | inl q ↦ inl (ground arith, ground arith)
  | inr q ↦ inr (ground arith)
]

end_loop-above : (r e zs : List ℕ) → end_loop r ≡ some e → lex_ltb (rev_onto r zs) e ≡ true
end_loop-above [] e zs h = end_loop-nil e h
end_loop-above (last ∷ init) e zs h = elim (end_loop-cases last init e h) [
  | inl (q, rest) ↦ end_loop-above init e (last ∷ zs) rest
  | inr found ↦
      ap (lex_ltb (rev_onto init (last ∷ zs))) found
      ∙ lex_ltb-rev_onto init (last ∷ zs) ((last + 1) ∷ [])
      ∙ above_head last zs
]

-- Between two lists that begin alike, every list begins so.
between_heads :
    (p : ℕ) (xs ys key : List ℕ)
    → lex_ltb key (p ∷ xs) ≡ false
    → lex_ltb key (p ∷ ys) ≡ true
    → (zs : List ℕ) × (key ≡ p ∷ zs)
unfolding lex_ltb
between_heads p xs ys [] lo hi = cc
between_heads p xs ys (k ∷ key) lo hi = (key, ap (λ t. t ∷ key) (ground arith))

between :
    (ps xs ys key : List ℕ)
    → lex_ltb key (rev_onto ps xs) ≡ false
    → lex_ltb key (rev_onto ps ys) ≡ true
    → (zs : List ℕ) × (key ≡ rev_onto ps zs)
between [] xs ys key lo hi = (key, refl)
between (p ∷ ps) xs ys key lo hi =
    let (ws, e) = between ps (p ∷ xs) (p ∷ ys) key lo hi in
    let (zs, e') =
      between_heads p xs ys ws
        (sym (ap (λ t. lex_ltb t (rev_onto ps (p ∷ xs))) e ∙ lex_ltb-rev_onto ps ws (p ∷ xs)) ∙ lo)
        (sym (ap (λ t. lex_ltb t (rev_onto ps (p ∷ ys))) e ∙ lex_ltb-rev_onto ps ws (p ∷ ys))
          ∙ hi) in
    (zs, e ∙ ap (rev_onto ps) e')

head_top :
    (x : ℕ) (xs key : List ℕ)
    → x ≡ 0xff
    → All IsByte key
    → lex_ltb key (x ∷ xs) ≡ false
    → (zs : List ℕ) × (key ≡ x ∷ zs)
unfolding lex_ltb
head_top x xs [] q b h = cc
head_top x xs (k ∷ key) q (hk, b) h = (key, ap (λ t. t ∷ key) (ground arith))

head_step :
    (x : ℕ) (xs key : List ℕ)
    → lex_ltb key (x ∷ xs) ≡ false
    → lex_ltb key ((x + 1) ∷ []) ≡ true
    → (zs : List ℕ) × (key ≡ x ∷ zs)
unfolding lex_ltb
head_step x xs [] lo hi = cc
head_step x xs (k ∷ key) lo hi = (key, ap (λ t. t ∷ key) (step key hi))
  where
    step : (ks : List ℕ) → lex_ltb (k ∷ ks) ((x + 1) ∷ []) ≡ true → k ≡ x
    step [] h = ground arith
    step (j ∷ js) h = ground arith

All-rev_onto : (ps zs : List ℕ) → All IsByte (rev_onto ps zs) → All IsByte zs
All-rev_onto [] zs h = h
All-rev_onto (p ∷ ps) zs h = (All-rev_onto ps (p ∷ zs) h).1

end_loop-below :
    (r e ws key : List ℕ)
    → end_loop r ≡ some e
    → All IsByte key
    → lex_ltb key (rev_onto r ws) ≡ false
    → lex_ltb key e ≡ true
    → (zs : List ℕ) × (key ≡ rev_onto r zs)
end_loop-below [] e ws key h b lo hi = end_loop-nil e h
end_loop-below (last ∷ init) e ws key h b lo hi = elim (end_loop-cases last init e h) [
  | inl (q, rest) ↦
      let (vs, k) = end_loop-below init e (last ∷ ws) key rest b lo hi in
      let (zs, k') = head_top last ws vs q (All-rev_onto init vs (subst (All IsByte) k b)) (
        sym
          (ap (λ t. lex_ltb t (rev_onto init (last ∷ ws))) k ∙ lex_ltb-rev_onto init vs (last ∷ ws))
        ∙ lo) in
      (zs, k ∙ ap (rev_onto init) k')
  | inr found ↦
      let top = ap (lex_ltb key) (sym found) ∙ hi in
      let (vs, k) = between init (last ∷ ws) ((last + 1) ∷ []) key lo top in
      let (zs, k') =
        head_step last ws vs
          (sym (
              ap (λ t. lex_ltb t (rev_onto init (last ∷ ws))) k
              ∙ lex_ltb-rev_onto init vs (last ∷ ws))
            ∙ lo)
          (sym (
              ap (λ t. lex_ltb t (rev_onto init ((last + 1) ∷ []))) k
              ∙ lex_ltb-rev_onto init vs ((last + 1) ∷ []))
            ∙ top) in
      (zs, k ∙ ap (rev_onto init) k')
]

-- The keys from a prefix up to its end are exactly those that begin with the prefix.
pub prefix_end-exact :
    (prefix e key : List ℕ)
    → prefix_end prefix ≡ some e
    → All IsByte key
    → ((lex_ltb key prefix ≡ false) × (lex_ltb key e ≡ true))
      ↔ ((zs : List ℕ) × (key ≡ prefix ++ zs))
unfolding prefix_end
prefix_end-exact prefix e key h b = (
  λ (lo, hi).
      let (zs, k) =
        end_loop-below (rev_onto prefix []) e [] key h b
          (ap (lex_ltb key) (rev_onto_twice prefix [] [] ∙ append-nil prefix) ∙ lo) hi in
      (zs, k ∙ rev_onto_twice prefix [] zs),
  λ (zs, k). (
    ap (λ t. lex_ltb t prefix) k ∙ never_below prefix zs,
    ap (λ t. lex_ltb t e) (k ∙ sym (rev_onto_twice prefix [] zs))
        ∙ end_loop-above (rev_onto prefix []) e zs h,
  ),
)
