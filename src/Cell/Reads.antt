-- ===== src/Cell/Reads.antt =====
-- Where `cell_get_chunk` and `cell_has_chunk` read.
use theo.Checksum.{Checksum}
use theo.CellDirEntry.{CellDirEntry}
use theo.CellState.{Cell}
use theo.Chunk.{Chunk}
