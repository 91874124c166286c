-- ===== src/Meta/Keys.antt =====
-- crates/epoch-meta/src/store/keys.rs: the encoded keys of the metadata store. A bucket id is a `u64`.
pub mod Routing
use epoch_io.Common.{
  ℕ, ◌+◌, Bool, true, false, ◌||◌, Option, none, some, List, [], ◌∷◌, ◌++◌, ltb, ◌==◌,
  if◌then◌else◌, length, take, drop,
}
use epoch_io.Common.Bytes.{to_be_bytes, from_be_bytes}

pub data MetaCf : Type 0 where
  meta fs meta_seg upload delq ttl applied : MetaCf

abbrev pub tag : MetaCf → ℕ
tag meta = b'o'
tag fs = b'f'
tag meta_seg = b'g'
tag upload = b'u'
tag delq = b'q'
tag ttl = b't'
tag applied = 0xff

-- `MetaCf::ALL`.
abbrev pub all_cfs : List MetaCf
all_cfs = meta ∷ fs ∷ meta_seg ∷ upload ∷ delq ∷ ttl ∷ []

unfoldable pub bucket_prefix : MetaCf → ℕ → List ℕ
bucket_prefix cf bucket = tag cf ∷ to_be_bytes 8 bucket

unfoldable pub flat_key : MetaCf → ℕ → List ℕ → List ℕ → List ℕ
flat_key cf bucket object_key suffix = tag cf ∷ (to_be_bytes 8 bucket ++ (object_key ++ suffix))

unfoldable pub hier_key : MetaCf → ℕ → ℕ → List ℕ → List ℕ → List ℕ
hier_key cf bucket parent_ino name suffix =
    tag cf ∷ (to_be_bytes 8 bucket ++ (to_be_bytes 8 parent_ino ++ (name ++ suffix)))

unfoldable pub hier_routing_key : ℕ → List ℕ → List ℕ
hier_routing_key parent_ino name = to_be_bytes 8 parent_ino ++ name

-- `b'o' | b'g' | b'u' | b'q' | b'f'`.
abbrev pub is_routed : ℕ → Bool
is_routed t = t == b'o' || t == b'g' || t == b'u' || t == b'q' || t == b'f'

unfoldable pub routed : ℕ → ℕ → List ℕ → Option (ℕ × List ℕ)
routed t bucket routing =
    if is_routed t
    then some (bucket, routing)
    else if t == b't'
    then if ltb (length routing) 8 then none else some (bucket, drop 8 routing)
    else none

unfoldable pub routing_key : List ℕ → Option (ℕ × List ℕ)
unfolding routed
routing_key [] = none
routing_key (t ∷ rest) =
    if ltb (length rest) 8 then none else routed t (from_be_bytes (take 8 rest)) (drop 8 rest)

-- A list turned round in front of another; `Vec::pop` takes from the turned list's head.
abbrev pub rev_onto : List ℕ → List ℕ → List ℕ
rev_onto [] ys = ys
rev_onto (x ∷ xs) ys = rev_onto xs (x ∷ ys)

-- The loop of `prefix_end`, on the bytes from the last to the first.
unfoldable pub end_loop : List ℕ → Option (List ℕ)
end_loop [] = none
end_loop (last ∷ init) =
    let rest = end_loop init in
    if last == 0xff then rest else some (rev_onto init ((last + 1) ∷ []))

unfoldable pub prefix_end : List ℕ → Option (List ℕ)
unfolding end_loop
prefix_end prefix = end_loop (rev_onto prefix [])

-- The tails of the key families; ids of 128 bits take sixteen bytes.
unfoldable pub seg_no : ℕ → List ℕ
seg_no n = to_be_bytes 4 n

unfoldable pub upload_part : ℕ → ℕ → List ℕ
upload_part upload_id part_no = to_be_bytes 16 upload_id ++ to_be_bytes 4 part_no

unfoldable pub delq_seq : ℕ → ℕ → List ℕ
delq_seq seq n = to_be_bytes 8 seq ++ to_be_bytes 4 n
