-- ===== src/Lib.antt =====
-- Verification library of epochIO, a distributed object store with erasure coding.
--
-- The program. Clients reach a gateway (crates/epoch-gateway), which cuts objects into blobs and
-- reads byte ranges of them back. A blob is erasure coded into shards (crates/epoch-ec) that data
-- nodes keep in extents on disk (crates/epoch-store) and serve over a framed protocol
-- (crates/epoch-rpc). Object names map to blobs in the metadata service (crates/epoch-meta), whose
-- key space is cut into partitions. The placement driver (crates/epoch-pd), a replicated state
-- machine, issues ids and writer tokens and runs the maintenance jobs. All share the packed ids of
-- crates/epoch-proto.
--
-- The files. A module models the source named here; its child modules hold its theorems.
--   Proto.Id: crates/epoch-proto/src/id.rs (BlobId, ShardId, ExtentId).
--   Ec.Layout: crates/epoch-ec/src/layout.rs, one definition per function.
--   Gateway.Code, Gateway.Range: crates/epoch-gateway/src/code.rs and range.rs (resolve, plan; the
--     loop of plan is scan, one round of it visit).
--   Rpc.Frame: crates/epoch-rpc/src/frame.rs (FrameHeader::encode, decode).
--   Store.Record: crates/epoch-store/src/extent/record.rs (header, footer, padding).
--   Store.Qos: crates/epoch-store/src/qos.rs (RateLimiter is the state, reserve its operation).
--   Pd.Records: crates/epoch-pd/src/cluster/id_record.rs. Pd.Records.View relates a pending write
--     batch over a store to a manager's index, Pd.Records.Restore reads the index back,
--     Pd.Records.Install is about a snapshot written over a store.
--   Pd.Job: crates/epoch-pd/src/job/types.rs, commit.rs and mod.rs. A handler takes the pending batch
--     and the index (Staged) and gives both back with its answer.
--   Pd.Job.Driver: job/driver.rs (sweep, pick_coordinator) over Pd.Node, cluster/node.rs.
--   Pd.Node.Manager and Pd.Disk: the managers of cluster/node.rs and cluster/disk.rs, whose state is a
--     Table of records with the pending batch. Pd.Records.Change says what one command does to a
--     table and its batch, and what is loaded once the batch is written.
--   Pd.ShardRepair: shard_repair.rs. Pd.State.Entries: journal/entry.rs. Pd.State: state.rs
--     (apply_command), which joins the managers; PdState is the state and Applying adds the batch.
--   Pd.Partition: the intervals of meta_mgr.rs and the service's checks of a new one (service.rs).
--     Pd.MetaManager: meta_mgr.rs (PartitionIndex is the route table, apply_create, apply_split and
--     apply_migrate its commands, route the lookup). Pd.MetaManager.Tiled says when it is sound.
--   Pd.Writer: crates/epoch-pd/src/writer/model.rs and manager.rs, in the same way. Pd.Chunk: the slot
--     helpers of chunk/manager.rs and chunk/model.rs, Pd.Chunk.Manager its handlers,
--     Pd.Chunk.Reads its read paths, Pd.Chunk.Stored its restore and snapshot install,
--     Pd.Chunk.Placement chunk/placement.rs.
--   Meta.Keys: crates/epoch-meta/src/store/keys.rs. Meta.Partition: partition/mod.rs beside it.
--   Meta.Guard: crates/epoch-meta/src/guard.rs.
--   Common: lists, bytes, byte order, maps and machine arithmetic; Tests: concrete runs.
--
-- Numbers, bounds and fuel. Unsigned integers are natural numbers, and an operation that wraps,
-- saturates or casts says so; hypotheses say where a value fits its Rust type. Bytes are numbers, a
-- byte slice is a list. Loops are structural recursion; the one loop on fuel finds the unit of a cast
-- to f64, whose twelve rounds reach the width of 64 bits. A BTreeMap is an association list in key
-- order; a tuple that is a key or a coordinate is the list of its parts, whose order is the same.
--
-- What stands outside. RocksDB, serde_json and the checksum crate are parameters with the behaviour
-- that the code relies on: a batch acts in order, an iterator yields each key once, a record that
-- was written reads back, a checksum is 32 bits wide. Locks are left out, since each handler holds
-- its manager's lock from start to end. Not modelled: network and disk I/O, the consensus library,
-- the erasure arithmetic of a third-party crate, the console and the process wiring; of the entries of
-- the placement driver, those of buckets, configuration and credentials.
pub mod Common
pub mod Proto
pub mod Ec
pub mod Gateway
pub mod Pd
pub mod Meta
pub mod Rpc
pub mod Store
mod Tests
