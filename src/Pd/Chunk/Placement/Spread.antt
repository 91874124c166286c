-- ===== src/Pd/Chunk/Placement/Spread.antt =====
-- How far apart crates/epoch-pd/src/chunk/placement.rs keeps the shards of a chunk.
use epoch_io.Common.{
  ℕ, ◌≡◌, ◌≢◌, refl, sym, ap, ◌∙◌, subst, arith, Bool, true, false, some, List, [], ◌∷◌, ◌++◌, map,
  length, any, All, Occurs, Bool-cases, inl, inr, ◌==◌, if◌then◌else◌,
}
use epoch_io.Common.Bytes.{bytes_eq, bytes_eq_refl}
use epoch_io.Common.Sort.{sort_by, sort_by-All}
use epoch_io.Pd.Chunk.Placement.{
  DiskCandidate, AntiAffinity, is_rack_aware, precedes, skipped, place, plan_placement, SlotDomain,
  rebind_preserves_affinity,
}

-- No value twice.
abbrev pub AllApart : {A : Type 0} → List A → Type 0
AllApart [] = Unit {0}
AllApart (x ∷ xs) = All (λ y. y ≢ x) xs × AllApart xs

-- The fault domains of a group are apart: its nodes, and under rack awareness its racks.
abbrev pub IsSpread : AntiAffinity → List (ℕ × List ℕ) → Type 0
IsSpread affinity ds =
    AllApart (map (λ d. d.0) ds) × (is_rack_aware affinity ≡ true → AllApart (map (λ d. d.1) ds))

abbrev pub domain : DiskCandidate → ℕ × List ℕ
domain c = (c.node_id, c.rack)

All-append : {A : Type 0} (P : A → Type 0) (xs ys : List A) → All P xs → All P ys → All P (xs ++ ys)
All-append P [] ys h k = k
All-append P (x ∷ xs) ys (h, hs) k = (h, All-append P xs ys hs k)

AllApart-snoc :
    {A : Type 0} (x : A) (xs : List A)
    → AllApart xs
    → All (λ y. y ≢ x) xs
    → AllApart (xs ++ (x ∷ []))
AllApart-snoc x [] h k = (tt, tt)
AllApart-snoc x (y ∷ ys) (h, hs) (k, ks) =
    (All-append (λ z. z ≢ y) ys (x ∷ []) h ((λ e. k (sym e)), tt), AllApart-snoc x ys hs ks)

map-append : {A B : Type 0} (f : A → B) (xs ys : List A) → map f (xs ++ ys) ≡ map f xs ++ map f ys
map-append f [] ys = refl
map-append f (x ∷ xs) ys = ap (◌∷◌ (f x)) (map-append f xs ys)

nodes_differ : (n : ℕ) (used : List ℕ) → any (λ m. m == n) used ≡ false → All (λ m. m ≢ n) used
nodes_differ n [] h = tt
nodes_differ n (m ∷ used) h = elim (Bool-cases (m == n)) [
  | inl e ↦ cc (rw e at h)
  | inr e ↦ (ground arith, nodes_differ n used (rw e at h))
]

racks_differ :
    (r : List ℕ) (used : List (List ℕ))
    → any (λ q. bytes_eq q r) used ≡ false
    → All (λ q. q ≢ r) used
racks_differ r [] h = tt
racks_differ r (q ∷ used) h = elim (Bool-cases (bytes_eq q r)) [
  | inl e ↦ cc (rw e at h)
  | inr e ↦
      (λ p. cc (e, ap (λ x. bytes_eq x r) p, bytes_eq_refl r), racks_differ r used (rw e at h))
]

-- The candidates picked so far, and what the loop's three lists say of them.
abbrev disks : List DiskCandidate → List ℕ
disks ps = map (λ c. c.disk_id) ps

abbrev nodes : List DiskCandidate → List ℕ
nodes ps = map (λ c. c.node_id) ps

abbrev racks : List DiskCandidate → List (List ℕ)
racks ps = map (λ c. c.rack) ps

abbrev Spread : AntiAffinity → List DiskCandidate → Type 0
Spread affinity ps = AllApart (nodes ps) × (is_rack_aware affinity ≡ true → AllApart (racks ps))

grow-Spread :
    (affinity : AntiAffinity) (ps : List DiskCandidate) (c : DiskCandidate)
    → Spread affinity ps
    → skipped affinity (nodes ps) (racks ps) c ≡ false
    → Spread affinity (ps ++ (c ∷ []))
grow-Spread affinity ps c (by_node, by_rack) h = (
  subst AllApart (sym (map-append (λ x. x.node_id) ps (c ∷ []))) (
      AllApart-snoc c.node_id (nodes ps) by_node
        (nodes_differ c.node_id (nodes ps) (ground arith))),
  λ aware. subst AllApart (sym (map-append (λ x. x.rack) ps (c ∷ []))) (
      AllApart-snoc c.rack (racks ps) (by_rack aware)
        (racks_differ c.rack (racks ps) (ground arith))),
)

-- The picks behind an answer of the loop.
abbrev Picked : ℕ → AntiAffinity → (DiskCandidate → Type 0) → List ℕ → Type 0
Picked total affinity P out =
    (ps : List DiskCandidate) × (out ≡ disks ps)
    × (length out ≡ total)
    × All P ps
    × Spread affinity ps

place-skip :
    (total : ℕ) (affinity : AntiAffinity) (c : DiskCandidate) (cs : List DiskCandidate)
    (ds ns : List ℕ) (rs : List (List ℕ))
    → skipped affinity ns rs c ≡ true
    → place total affinity (c ∷ cs) ds ns rs ≡ place total affinity cs ds ns rs
unfolding place
place-skip total affinity c cs ds ns rs e = rw (e, place) refl

place-done :
    (total : ℕ) (affinity : AntiAffinity) (c : DiskCandidate) (cs : List DiskCandidate)
    (ds ns : List ℕ) (rs : List (List ℕ))
    → skipped affinity ns rs c ≡ false
    → (length (ds ++ (c.disk_id ∷ [])) == total) ≡ true
    → place total affinity (c ∷ cs) ds ns rs ≡ some (ds ++ (c.disk_id ∷ []))
unfolding place
place-done total affinity c cs ds ns rs e f = rw (e, place) (rw (f, place) refl)

place-next :
    (total : ℕ) (affinity : AntiAffinity) (c : DiskCandidate) (cs : List DiskCandidate)
    (ds ns : List ℕ) (rs : List (List ℕ))
    → skipped affinity ns rs c ≡ false
    → (length (ds ++ (c.disk_id ∷ [])) == total) ≡ false
    → place total affinity (c ∷ cs) ds ns rs
      ≡ place total affinity cs
          (ds ++ (c.disk_id ∷ []))
          (ns ++ (c.node_id ∷ []))
          (rs ++ (c.rack ∷ []))
unfolding place
place-next total affinity c cs ds ns rs e f = rw (e, place) (rw (f, place) refl)

place-nil :
    (total : ℕ) (affinity : AntiAffinity) (ds ns : List ℕ) (rs : List (List ℕ)) (out : List ℕ)
    {Q : Type 0}
    → place total affinity [] ds ns rs ≡ some out
    → Q
unfolding place
place-nil total affinity ds ns rs out h = cc

place-Picked :
    (total : ℕ) (affinity : AntiAffinity) (P : DiskCandidate → Type 0) (cs ps : List DiskCandidate)
    (out : List ℕ)
    → All P cs
    → All P ps
    → Spread affinity ps
    → place total affinity cs (disks ps) (nodes ps) (racks ps) ≡ some out
    → Picked total affinity P out
place-Picked total affinity P [] ps out hc hp spread h = place-nil total affinity _ _ _ out h
place-Picked total affinity P (c ∷ cs) ps out (hc, hcs) hp spread h =
    elim (Bool-cases (skipped affinity (nodes ps) (racks ps) c)) [
      | inl e ↦
          place-Picked total affinity P cs ps out hcs hp spread
            (sym (place-skip total affinity c cs (disks ps) (nodes ps) (racks ps) e) ∙ h)
      | inr e ↦
          let more = All-append P ps (c ∷ []) hp (hc, tt) in
          let grown = grow-Spread affinity ps c spread e in
          let here = map-append (λ x. x.disk_id) ps (c ∷ []) in
          elim (Bool-cases (length (disks ps ++ (c.disk_id ∷ [])) == total)) [
            | inl f ↦
                let q : disks ps ++ (c.disk_id ∷ []) ≡ out =
                  cc (h, place-done total affinity c cs (disks ps) (nodes ps) (racks ps) e f) in
                (ps ++ (c ∷ []), sym q ∙ sym here, ap length (sym q) ∙ ground arith, more, grown)
            | inr f ↦ place-Picked total affinity P cs (ps ++ (c ∷ [])) out hcs more grown (
                ap
                  (λ d. place total affinity cs d (nodes (ps ++ (c ∷ []))) (racks (ps ++ (c ∷ []))))
                  here
                ∙ ap
                    (λ n.
                      place total affinity cs (disks ps ++ (c.disk_id ∷ [])) n
                        (racks (ps ++ (c ∷ []))))
                    (map-append (λ x. x.node_id) ps (c ∷ []))
                ∙ ap
                    (place total affinity cs (disks ps ++ (c.disk_id ∷ []))
                      (nodes ps ++ (c.node_id ∷ [])))
                    (map-append (λ x. x.rack) ps (c ∷ []))
                ∙ sym (place-next total affinity c cs (disks ps) (nodes ps) (racks ps) e f)
                ∙ h)
          ]
    ]

All-Occurs : {A : Type 0} (xs : List A) → All (λ x. Occurs x xs) xs
All-Occurs {A} xs = from xs xs (λ x o. o)
  where
    from : (ys zs : List A) → ((x : A) → Occurs x ys → Occurs x zs) → All (λ x. Occurs x zs) ys
    from [] zs f = tt
    from (y ∷ ys) zs f = (f y (inl refl), from ys zs (λ x o. f x (inr o)))

-- An answered placement names as many disks as asked for, those of candidates whose nodes all
-- differ, and whose racks all differ under rack awareness.
pub plan_placement-spread :
    (candidates : List DiskCandidate) (total : ℕ) (affinity : AntiAffinity) (out : List ℕ)
    → plan_placement candidates total affinity ≡ some out
    → (ps : List DiskCandidate) × (out ≡ map (λ c. c.disk_id) ps)
      × (length out ≡ total)
      × All (λ c. Occurs c candidates) ps
      × AllApart (map (λ c. c.node_id) ps)
      × (is_rack_aware affinity ≡ true → AllApart (map (λ c. c.rack) ps))
unfolding plan_placement
plan_placement-spread candidates total affinity out h =
    let (ps, e, len, occur, (by_node, by_rack)) =
      place-Picked total affinity (λ c. Occurs c candidates) (sort_by precedes candidates) [] out
        (sort_by-All precedes (λ c. Occurs c candidates) candidates (All-Occurs candidates)) tt
        (tt, λ e. tt) h in
    (ps, e, len, occur, by_node, by_rack)

abbrev pub slot_nodes : List SlotDomain → List ℕ
slot_nodes others = map (λ s. s.node_id) others

abbrev pub slot_racks : List SlotDomain → List (List ℕ)
slot_racks others = map (λ s. s.rack) others

any-map :
    {A B : Type 0} (f : A → B) (p : B → Bool) (xs : List A)
    → any (λ x. p (f x)) xs ≡ any p (map f xs)
any-map f p [] = refl
any-map f p (x ∷ xs) = ap (λ t. if p (f x) then true else t) (any-map f p xs)

-- A rebind that passes the check keeps a chunk spread: with the target in the moved slot's place no
-- two slots share a node, and none a rack under rack awareness.
rebind_preserves_affinity-spread :
    (others : List SlotDomain) (target : DiskCandidate) (affinity : AntiAffinity)
    → AllApart (slot_nodes others)
    → (is_rack_aware affinity ≡ true → AllApart (slot_racks others))
    → rebind_preserves_affinity others target affinity ≡ true
    → AllApart (slot_nodes others ++ (target.node_id ∷ []))
      × (is_rack_aware affinity ≡ true → AllApart (slot_racks others ++ (target.rack ∷ [])))
unfolding rebind_preserves_affinity
rebind_preserves_affinity-spread others target affinity by_node by_rack h =
    let node : any (λ s. s.node_id == target.node_id) others ≡ false = ground arith in
    (
      AllApart-snoc target.node_id (slot_nodes others) by_node (
          nodes_differ target.node_id (slot_nodes others)
            (sym (any-map (λ s. s.node_id) (λ n. n == target.node_id) others) ∙ node)),
      λ aware.
          let rack : any (λ s. bytes_eq s.rack target.rack) others ≡ false = ground arith in
          AllApart-snoc target.rack (slot_racks others) (by_rack aware) (
            racks_differ target.rack (slot_racks others)
              (sym (any-map (λ s. s.rack) (λ r. bytes_eq r target.rack) others) ∙ rack)),
    )
