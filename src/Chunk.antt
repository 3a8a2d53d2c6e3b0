-- ===== src/Chunk.antt =====
-- src/theo/chunk.c and chunk.h: a copy of a cached chunk.
use theo.Base.{ℕ, ◌%◌, ◌^◌, Option, some, List, ◌++◌, drop, length, replicate, leb, ◌>>◌, always}
use theo.Checksum.{Checksum, checksum_init}

abbrev pub chunk_max_buffer_size : ℕ
chunk_max_buffer_size = 32768

-- `buffer` is the whole array, of which the first `buffer_size` bytes are the chunk's.
pub record Chunk : Type 0 where
  pub checksum : Checksum
  pub buffer : List ℕ
  pub buffer_size : ℕ

unfoldable pub chunk_init : Chunk
chunk_init = record {
  checksum = checksum_init;
  buffer = replicate chunk_max_buffer_size 0;
  buffer_size = 0;
}

-- `bytes` are the `buffer_size` bytes at the source of the copy; `none` is an abort. `buffer_size`
-- is a `uint16_t` in the structure.
unfoldable pub chunk_set : Chunk → Checksum → List ℕ → Option Chunk
chunk_set chunk c bytes =
    always (leb (length bytes) chunk_max_buffer_size)
    >> some (record {
      checksum = c;
      buffer = bytes ++ drop (length bytes) chunk.buffer;
      buffer_size = length bytes % 2 ^ 16;
    })
