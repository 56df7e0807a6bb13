-- ===== src/Examples/WireRuns.antt =====
-- Runs of the messages of src/mpi_wire.rs and of the blocks of src/mpi_ingest.rs.
use readcon_db.Base.{ℕ, Bool, leb, ◌+◌, ◌+◌, ◌-◌, ◌≡◌, [], ◌∷◌, ◌++◌, leb, arith}
use readcon_db.Error.{ok}
use readcon_db.Wire.{push_record}
use readcon_db.Wire.Batches.{batch_ends, batch_ends-IsCovered, IsCovered}
use readcon_db.Wire.Blocks.{block_range, block_range_tiles}
use readcon_db.Wire.Records.{read_record-push_record, read_record}

-- Frames 0 to 9 in batches of four, of which only two fit a message.
abbrev fits_two : ℕ → ℕ → Bool
fits_two b0 b1 = leb b1 (b0 + 2)

batch_ends-IsCovered_example : IsCovered fits_two 0 10 (batch_ends fits_two 10 0 4 10)
batch_ends-IsCovered_example =
    batch_ends-IsCovered fits_two 10 0 4 10 (omega arith) (omega arith) (omega arith)

block_range_tiles_example :
    ((block_range 10 3 0).0 ≡ 0)
    × ((block_range 10 3 1).1 ≡ (block_range 10 3 (1 + 1)).0)
    × ((block_range 10 3 (3 - 1)).1 ≡ 10)
block_range_tiles_example = block_range_tiles 10 3 1 (omega arith)

read_record-push_record_example :
    read_record (push_record [] 7 (1 ∷ 2 ∷ []) (9 ∷ []) ++ (5 ∷ []))
    ≡ ok (7, 1 ∷ 2 ∷ [], 9 ∷ [], 5 ∷ [])
read_record-push_record_example =
    read_record-push_record 7 (1 ∷ 2 ∷ []) (9 ∷ []) (5 ∷ []) (omega arith) (omega arith)
      (omega arith)
