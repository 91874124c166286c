-- ===== src/Tests.antt =====
-- Concrete runs, and the theorems at concrete inputs.
mod MemStore
mod Jobs
mod Ids
mod Stripes
mod Ranges
mod Frames
mod Tokens
mod Partitions
mod Guards
mod ChunkCodec
mod Chunks
mod Placements
mod Restarts
mod Limits
mod Sweeps
mod Nodes
mod Disks
mod States
mod Routes
mod Snapshots
