-- ===== src/ChunkRef.antt =====
-- src/theo/chunk_ref.c, and checksum_gen of src/theo/checksum.c: a stretch of a buffer with its
-- checksum. The digest is that of the mh_sha256 functions of isa-l_crypto.
use theo.Base.{ℕ, List, [], length, take, ◌≡◌, ◌<◌}
use theo.Checksum.{Checksum, checksum_init}
use theo.CellDir.{block_no}

-- mh_sha256_init, mh_sha256_update and mh_sha256_finalize on the bytes of one buffer. A digest has
-- 32 bytes, each below 256.
pub record Sha256 : Type 0 where
  pub digest : List ℕ → Checksum
  pub digest_length : (bytes : List ℕ) → length (digest bytes) ≡ 32
  pub digest_byte : (bytes : List ℕ) → block_no (digest bytes) < 256

-- `buffer` holds the `buffer_size` bytes that the pointer of the structure leads to.
pub record ChunkRef : Type 0 where
  pub checksum : Checksum
  pub buffer : List ℕ
  pub buffer_size : ℕ

unfoldable pub chunk_ref_init : ChunkRef
chunk_ref_init = record { checksum = checksum_init; buffer = []; buffer_size = 0 }

unfoldable pub checksum_gen : Sha256 → List ℕ → Checksum
checksum_gen sha bytes = sha.digest bytes

unfoldable pub chunk_ref_set : Sha256 → List ℕ → ℕ → ChunkRef
unfolding checksum_gen
chunk_ref_set sha buffer size = record {
  checksum = checksum_gen sha (take size buffer);
  buffer = take size buffer;
  buffer_size = size;
}
