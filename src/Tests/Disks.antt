-- ===== src/Tests/Disks.antt =====
-- A serialiser of disks, and the disk manager at concrete inputs.
use epoch_io.Common.{
  ℕ, zero, suc, ◌≡◌, ◌<◌, refl, sym, ap, ◌∙◌, arith, ◌==◌, Bool-cases, inl, inr, Option, none, some,
  [], ◌∷◌, ◌++◌, length, take, drop,
}
use epoch_io.Common.Map.{lookup}
use epoch_io.Pd.Records.{Bytes, Codec, Pending}
use epoch_io.Pd.Disk.{Disk, DiskStatus, RegisterDisk}
use epoch_io.Pd.Disk.Lifecycle.{IsSound}
use epoch_io.Tests.ChunkCodec.{take_all, drop_all, some_or}

unfoldable pub disk_status_tag : DiskStatus → ℕ
disk_status_tag DiskStatus.normal = 0
disk_status_tag DiskStatus.broken = 1
disk_status_tag DiskStatus.repairing = 2
disk_status_tag DiskStatus.repaired = 3
disk_status_tag DiskStatus.draining = 4
disk_status_tag DiskStatus.dropped = 5

unfoldable pub disk_status_of : ℕ → DiskStatus
disk_status_of zero = DiskStatus.normal
disk_status_of (suc zero) = DiskStatus.broken
disk_status_of (suc (suc zero)) = DiskStatus.repairing
disk_status_of (suc (suc (suc zero))) = DiskStatus.repaired
disk_status_of (suc (suc (suc (suc zero)))) = DiskStatus.draining
disk_status_of (suc (suc (suc (suc (suc n))))) = DiskStatus.dropped

disk_status_back : (s : DiskStatus) → disk_status_of (disk_status_tag s) ≡ s
unfolding disk_status_of disk_status_tag
disk_status_back DiskStatus.normal = refl
disk_status_back DiskStatus.broken = refl
disk_status_back DiskStatus.repairing = refl
disk_status_back DiskStatus.repaired = refl
disk_status_back DiskStatus.draining = refl
disk_status_back DiskStatus.dropped = refl

unfoldable pub write_disk : Disk → Option Bytes
write_disk d = some (
    d.disk_id
    ∷ d.node_id
    ∷ d.total
    ∷ disk_status_tag d.status
    ∷ length d.path
    ∷ length d.az
    ∷ (d.path ++ (d.az ++ d.rack)))

unfoldable pub read_disk : Bytes → Option Disk
read_disk (id ∷ node ∷ total ∷ status ∷ p ∷ z ∷ rest) = some (record {
  disk_id = id;
  node_id = node;
  az = take z (drop p rest);
  rack = drop z (drop p rest);
  path = take p rest;
  total = total;
  status = disk_status_of status;
})
read_disk other = none

pub disk_back : (d : Disk) (bytes : Bytes) → write_disk d ≡ some bytes → read_disk bytes ≡ some d
unfolding write_disk read_disk some_or
disk_back d bytes e = ap (some_or read_disk) (sym e) ∙ (λ i. some (record d {
  path = take_all d.path (d.az ++ d.rack) i;
  az = (ap (take (length d.az)) (drop_all d.path (d.az ++ d.rack)) ∙ take_all d.az d.rack) i;
  rack = (ap (drop (length d.az)) (drop_all d.path (d.az ++ d.rack)) ∙ drop_all d.az d.rack) i;
  status = disk_status_back d.status i;
}))

abbrev pub disk_codec : Codec Disk
disk_codec = record { to_vec = write_disk; from_slice = read_disk; read_back = disk_back }

-- A broken disk of node 1.
abbrev broken_disk : Disk
broken_disk = record {
  disk_id = 1;
  node_id = 1;
  az = 65 ∷ [];
  rack = 66 ∷ [];
  path = 47 ∷ [];
  total = 900;
  status = DiskStatus.broken;
}

abbrev one_broken : Pending Disk
one_broken = record { batch = []; index = record { rows = (1, broken_disk) ∷ []; next_id = 2 } }

only_one : (k : ℕ) (v : Disk) → lookup k one_broken.index.rows ≡ some v → k ≡ 1
unfolding lookup
only_one k v e = elim (Bool-cases (k == 1)) [ inl q ↦ ground arith | inr q ↦ cc (rw q at e) ]

at_own_id : (k : ℕ) (v : Disk) → lookup k one_broken.index.rows ≡ some v → (k < 2) × (v.disk_id ≡ k)
unfolding lookup
at_own_id k v e =
    let at = only_one k v e in
    let same : broken_disk ≡ v = cc (e, ap (λ n. lookup n one_broken.index.rows) at) in
    (omega arith, ap (λ d. d.disk_id) (sym same) ∙ sym at)

one_broken-IsSound : IsSound disk_codec one_broken.index
one_broken-IsSound = record {
  ordered = (omega arith, tt);
  own = λ k v e. at_own_id k v e;
  places = λ k j a b e f p. only_one k a e ∙ sym (only_one j b f);
}

abbrev same_disk : RegisterDisk
same_disk = record { node_id = 1; az = 70 ∷ []; rack = 71 ∷ []; path = 47 ∷ []; total = 100 }
