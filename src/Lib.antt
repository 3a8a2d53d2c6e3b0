-- ===== src/Lib.antt =====
-- Libtheo, a cache of chunks in a memory-mapped file (src/theo).
--
-- A cache file is a whole number of areas of 1 MiB. The first holds the cache header, each other one a
-- cell. A cell is a slab of bytes: from its start a ring of entries, each a header and the bytes of a
-- chunk; at its end the cell header, with a directory from checksums to offsets; and below the cell
-- header the overflow of the directory, which grows down towards the ring. A chunk streamer cuts a
-- buffer into chunks by a rolling hash and hands those that are not cached to the cache manager, which
-- maps the file and sends each chunk to the cell that the front of its checksum picks.
--
-- Files and what they model:
--   Base            names of the libraries, Boolean tests, lists over native numbers
--   Memory          the bytes of a slab, and memcpy on them
--   Checksum        src/theo/checksum.c
--   CellDirEntry    src/theo/cell_dir_entry.c; Layout: entries as bytes; Lookup, Change: lists of entries
--   CellDirBlock    src/theo/cell_dir_block.c
--   CellDirOverflow src/theo/cell_dir_overflow.c; Rows: the bytes as a list; Swap: the order of removal
--   CellDir         src/theo/cell_dir.c; View: the invariant and the map; Add, Remove, Empty, Frame
--   CellBodyEntry   src/theo/cell_body_entry.c; Layout, Store: entries as bytes
--   CellIc          src/theo/cell_ic.c
--   CellState       the structures of cell.h, cell_header.h and cell_body.h
--   CellHeader      src/theo/cell_header.c, and cell_body_init and cell_body_set_top of cell_body.c;
--                   Remove: taking an entry off
--   CellBody        src/theo/cell_body.c; Codes: the integrity counters
--   Chunk           src/theo/chunk.c
--   Cell            src/theo/cell.c and cache_metrics.c; Valid: the invariant; Top, Writes: additions at
--                   the top; Replace: a chunk in the place of another; Chunks, Reads: adding and
--                   getting; Recover: mapping after a crash; Threads: the functions under the
--                   mutex step by step, on any number of threads. Inside: one call; Sequence: whole
--                   calls and crashes; Locking, Reached, Leave: what threads reach
--   Ring            the slab of src/theo/cell_body.c as lists of chunks. Chain, Place: the entries and the
--                   directory as lists; Gap: the invariant, in the midst of an addition and between two;
--                   Evict, Listed, Lower, Room: the directory; Store, Fill, Finish, Part, Top, Push: the
--                   places for a chunk; Merge: the loop; Rest, Stuck, Offset: cell_body_add_offset; Add:
--                   cell_body_add; Left: what is left; Find, Metrics: reading; Cells, Contents, Taken:
--                   cell_add_chunk; Fresh, Past, History: a cell from its start on
--   ChunkRef        src/theo/chunk_ref.c
--   Chunker         src/theo/chunker.c; Laws: a call; Cuts: where the bytes are cut; Follow: calls against
--                   that
--   ChunkStreamer   src/theo/chunk_streamer.c; Streamed, Stream: a run over a buffer; Resume: the
--                   next buffer; Offers, Follow: a run against the cuts of the bytes; Divide: a stream in
--                   buffers of any sizes
--   CacheHeader     src/theo/cache_header.c
--   Cache           src/theo/cache.c; Chunks: adding and getting; Remap, History, Metrics: a cache from its
--                   file on
--   Msys            src/theo/msys.c and msys.h: the system calls, and the interface over them
--   Xmalloc         src/theo/xmalloc.c
--   CacheManager    src/theo/cache_manager.c; Files: the file and what is held; Release: releasing it; Opens: opening; Store: what a
--                   chunk streamer takes; Life: a cache file from its first opening on
--   Tests           concrete states, and the theorems at them
--
-- How the code is read:
--   - A structure is a record, an operation a function from the state before it to the state after it.
--     A function that can abort by ALWAYS, or that would leave an array of a structure or of cells, returns
--     an Option, `none` there.
--     ALWAYS is taken to be compiled in.
--   - Fields keep their widths: 32-bit sums and differences wrap by `% 2 ^ 32`, bit-fields by their own
--     widths. An `int32_t` is its 32-bit pattern. Words lie in the slab least significant byte first.
--   - The slab is a function from offsets to bytes; entries of the ring and of the overflow are read from
--     it and written to it. A read outside the slab, as C code could do it after a header was corrupted, is
--     not told apart; `IsCell` has the offsets inside. The cell header, at the end of the slab, is a record of its own; `IsCell` has
--     the ring and the overflow below it.
--   - Chunks of 2 to 24 KiB, as the chunker cuts them, in a cell of 1 MiB are a ring: chunks from the start
--     of the slab up to the next entry, then at most one free entry, then chunks up to the top entry.
--   - A NULL pointer and a negative descriptor are `none`. The directory entry that a function fills is
--     its result.
--   - Threads are steps in any order: each call between the lock and the unlock of a function of cell.c is
--     one step. A crash may fall between any two; one within cell_body_add leaves any bytes in the file, but
--     the integrity counters as they are.
--
-- Bounds and fuel: the merge loop of `cell_body_add_offset` runs on the number of 36-byte entries in a
-- slab, and one more; each round passes one entry. The loop of `chunk_streamer_process_buffer` runs on
-- the length of the buffer and one more; each chunk takes at least 2048 bytes of it. The loop that writes
-- an area of the file runs on the bytes of an area and one more; each write takes at least one.
--
-- Parameters: the SHA-256 digest and the rolling hash of isa-l_crypto (`Sha256`, `RollingHash`), whose
-- laws give the length of a digest and the range of a match; what else is documented of the rolling hash
-- (`IsRolling`); pthread_mutex (`Mutex`); malloc and free; and the operating system (`Os`), with the words
-- of its flags (`Words`). pthread_mutex_init is taken to succeed where the cells of a cache are made. The streamer takes the two functions of the cache manager that it calls as an interface
-- (`ChunkStore`); CacheManager/Store makes the cache manager one.
--
-- Not modelled: memory barriers; the heap that the cells of a cache are allocated on; the tests and third-party
-- code.
pub mod Base
pub mod Memory
pub mod Checksum
pub mod CellDirEntry
pub mod CellDirBlock
pub mod CellDirOverflow
pub mod CellDir
pub mod CellBodyEntry
pub mod CellIc
pub mod CellState
pub mod CellHeader
pub mod CellBody
pub mod Chunk
pub mod Ring
pub mod Cell
pub mod ChunkRef
pub mod Chunker
pub mod ChunkStreamer
pub mod CacheHeader
pub mod Cache
pub mod Msys
pub mod Xmalloc
pub mod CacheManager
pub mod Tests
