-- ===== src/CacheManager/Store.antt =====
-- The cache manager of src/theo/cache_manager.c as the store of a chunk streamer.
use theo.Base.{
  ℕ, ◌≤◌, ◌<◌, ◌≡◌, ◌⊎◌, refl, sym, ap, ◌∙◌, inl, inr, Bool, true, false, Option, none, some, List,
  ◌∷◌, length, ◌>>=◌,
}
use mathlib.Core.List.{Mem, mem-cons}
use mathlib.Core.Logic.Or
use native.Mathlib.Nat.{ℕ_set}
use theo.Checksum.{Checksum}
use theo.CellDir.{block_no}
use theo.CellState.{Cell}
use theo.Chunk.{Chunk}
use theo.ChunkRef.{Sha256}
use theo.Chunker.{RollingHash}
use theo.ChunkStreamer.{
  ChunkStore, ChunkStreamer, Run, done, aborted, chunk_streamer_process_buffer,
}
use theo.ChunkStreamer.Stream.{chunk_streamer_process_buffer_lem}
use theo.ChunkStreamer.Streamed.{IsStreamer, Streamed, Stopped, Finished, finished, stopped}
use theo.Cell.Chunks.{filled}
use theo.Cache.{Cache, cache_get_cell_index, cell_at, cache_add_chunk}
use theo.Cache.History.{CacheFilling, CacheFilling-cache_add_chunk, CacheFilling-cache_get_chunk}
use theo.CacheManager.{
  CacheManager, with_cache, cache_manager_add_chunk, cache_manager_has_chunk,
  cache_manager_get_chunk,
}
use theo.Ring.Chain.{Item, IsItem}
use theo.Ring.Offset.{IsStuck}

checksum_prop : (a b : Checksum) → IsProp (a ≡ b)
checksum_prop a b = hlevel (ℕ_set)

-- What `cache_manager_has_chunk` returns. On a valid cache it always returns.
abbrev pub or_false : Option Bool → Bool
or_false none = false
or_false (some b) = b

module _ (sha : Sha256) where
  abbrev pub item_of : List ℕ → Item
  item_of bytes = record { checksum = sha.digest bytes; bytes = bytes }

  -- The cache has a history of chunks under their own checksums.
  pub record IsFilled (manager : CacheManager) : Type 0 where
    pub past : List Item
    pub filling : CacheFilling past manager.cache
    pub own : (i : Item) → Mem i past → i.checksum ≡ sha.digest i.bytes

  -- The cell of the checksum is stuck for the chunk.
  abbrev pub CellStuck : CacheManager → Checksum → List ℕ → Type 0
  CellStuck manager c bytes =
      (cell : Cell) × (post : List Item) × (cell_at manager.cache
          (cache_get_cell_index manager.cache c)
        ≡ some cell)
      × IsStuck cell (record { checksum = c; bytes = bytes }) post

  own-more :
      (past : List Item) (bytes : List ℕ)
      → ((i : Item) → Mem i past → i.checksum ≡ sha.digest i.bytes)
      → (i : Item) → Mem i (item_of bytes ∷ past)
      → i.checksum ≡ sha.digest i.bytes
  own-more past bytes own i m =
      Or.elim (checksum_prop i.checksum (sha.digest i.bytes)) (mem-cons.0 m)
        (λ e. ap (λ (j : Item). j.checksum) e ∙ ap (λ (j : Item). sha.digest j.bytes) (sym e))
        (own i)

  add-eq :
      (manager : CacheManager) (c : Checksum) (bytes : List ℕ) (o : Option (Bool × Cache))
      → cache_add_chunk manager.cache c bytes ≡ o
      → cache_manager_add_chunk manager c bytes
        ≡ (o >>= λ (added, cache). some (added, with_cache manager cache))
  unfolding cache_manager_add_chunk
  add-eq manager c bytes o e = rw e refl

  pub adds :
      (manager : CacheManager) (bytes : List ℕ)
      → IsFilled manager
      → 2048 ≤ length bytes
      → length bytes ≤ 24576
      → or_false (cache_manager_has_chunk manager (sha.digest bytes)) ≡ false
      → ((added : Bool) × (manager' : CacheManager) × (cache_manager_add_chunk manager
              (sha.digest bytes)
              bytes
            ≡ some (added, manager'))
          × IsFilled manager')
        ⊎ ((cache_manager_add_chunk manager (sha.digest bytes) bytes ≡ none)
            × CellStuck manager (sha.digest bytes) bytes)
  adds manager bytes v least most new =
      let item : IsItem (item_of bytes) = record {
        key = sha.digest_length bytes;
        low = sha.digest_byte bytes;
        least = least;
        most = most;
      } in
      elim (CacheFilling-cache_add_chunk v.past manager.cache (item_of bytes) v.filling item) [
        | inl (b, cache', eq, filling) ↦ inl (
          b,
          with_cache manager cache',
          add-eq manager (sha.digest bytes) bytes (some (b, cache')) eq,
          record {
            past = item_of bytes ∷ v.past;
            filling = filling;
            own = own-more v.past bytes v.own;
          },
        )
        | inr (eq, stuck) ↦ inr (add-eq manager (sha.digest bytes) bytes none eq, stuck)
      ]

  -- The cache manager as a store.
  abbrev pub manager_store : ChunkStore sha CacheManager
  manager_store = record {
    has_chunk = λ manager c. or_false (cache_manager_has_chunk manager c);
    add_chunk = cache_manager_add_chunk;
    IsValid = IsFilled;
    IsStuck = CellStuck;
    adds = adds;
  }

  -- Every chunk that can be got has the checksum that was asked for.
  abbrev pub IsSound : CacheManager → Type 0
  IsSound manager =
      (c : Checksum) (chunk : Chunk)
      → block_no c < 256
      → (cache_manager_get_chunk manager c chunk ≡ some (false, chunk))
        ⊎ ((bytes : List ℕ) × (sha.digest bytes ≡ c)
            × (cache_manager_get_chunk manager c chunk ≡ some (true, filled chunk c bytes)))

  pub IsFilled-IsSound : (manager : CacheManager) → IsFilled manager → IsSound manager
  unfolding cache_manager_get_chunk
  IsFilled-IsSound manager v c chunk low =
      elim (CacheFilling-cache_get_chunk v.past manager.cache c chunk v.filling low) [
        | inl gone ↦ inl gone
        | inr (i, given, key, eq) ↦ inr (i.bytes, sym (v.own i given) ∙ key, eq)
      ]

  module _ {State : Type 0} (rh : RollingHash State) where
    -- How a run over a buffer ends.
    abbrev pub Ends :
        ChunkStreamer State
        → CacheManager
        → List ℕ
        → Run (ChunkStreamer State × CacheManager)
        → Type 0
    Ends st manager buffer run =
        ((st' : ChunkStreamer State) × (manager' : CacheManager) × (run ≡ done (st', manager'))
          × Streamed manager_store st manager buffer st' manager'
          × IsSound manager')
        ⊎ ((run ≡ aborted) × Stopped manager_store manager buffer)

    Finished-Ends :
        (st : ChunkStreamer State) (manager : CacheManager) (buffer : List ℕ)
        (run : Run (ChunkStreamer State × CacheManager))
        → Finished manager_store st manager buffer run
        → Ends st manager buffer run
    Finished-Ends st manager buffer _ (finished {st'} {s'} h) =
        inl (st', s', refl, h, IsFilled-IsSound s' h.store_valid)
    Finished-Ends st manager buffer _ (stopped h) = inr (refl, h)

    -- A streamer that retains nothing, over a cache manager whose cache has a history of chunks under their
    -- own checksums, takes in a buffer. The run ends: all of the buffer is offered to the cache in chunks or
    -- retained, and whatever can be got from the cache by a checksum has that checksum. Or it aborts, at a
    -- chunk for which the cell of its checksum is stuck.
    pub chunk_streamer_process_buffer-Ends :
        (st : ChunkStreamer State) (manager : CacheManager) (buffer : List ℕ)
        → IsStreamer manager_store st
        → st.chunker.retained_size ≡ 0
        → IsFilled manager
        → Ends st manager buffer (chunk_streamer_process_buffer rh manager_store st manager buffer)
    chunk_streamer_process_buffer-Ends st manager buffer v empty ok =
        Finished-Ends st manager buffer _
          (chunk_streamer_process_buffer_lem manager_store rh st manager buffer v empty ok)
