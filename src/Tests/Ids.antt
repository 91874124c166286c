-- ===== src/Tests/Ids.antt =====
-- The packed ids at concrete inputs.
use epoch_io.Common.{◌≡◌, ◌≤◌, ◌<◌, ◌^◌, arith, ok}
use epoch_io.Proto.Id.{try_new, chunk_id, index, epoch, shard_prefix, max_shard_epoch}
use epoch_io.Proto.Id.Fields.{packed, try_new-packed, try_new_fields}

composed : try_new 5 2 4 ≡ ok (packed 5 2 4)
composed = try_new-packed 5 2 4 (omega arith) (omega arith) (omega arith)

try_new_fields_example :
    (4 ≤ max_shard_epoch)
    × (packed 5 2 4 < 2 ^ 64)
    × (chunk_id (packed 5 2 4) ≡ 5)
    × (index (packed 5 2 4) ≡ 2)
    × (epoch (packed 5 2 4) ≡ 4)
    × (shard_prefix (packed 5 2 4) ≡ packed 5 2 0)
try_new_fields_example = try_new_fields 5 2 4 (packed 5 2 4) (omega arith) (omega arith) composed
