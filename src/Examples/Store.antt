-- ===== src/Examples/Store.antt =====
-- The chunk store at concrete inputs.
use open_vault.Common.{
  ℕ, ◌-◌, ◌<◌, ◌^◌, ◌≡◌, ◌≢◌, refl, String, true, false, List, [], ◌∷◌, arith, length, All,
  contains, string_eq, ◌&&◌, eq_iff,
}
use open_vault.Vault.{Bytes, ok}
use open_vault.Incremental.Chunker.{Chunk}
use open_vault.Incremental.ChunkStore
use open_vault.Incremental.ChunkStore.{
  ChunkStore, chunk_key, record_chunk, store_chunk, store_chunks, store_chunks_from, gc,
  retrieve_chunk,
}
use open_vault.Incremental.ChunkStore.Invariant.{IsStore}
use open_vault.Incremental.ChunkStore.Batches.{store_chunks-IsStore}
use open_vault.Incremental.ChunkStore.Gc.{gc_lem, dedup_across_snapshots}
use open_vault.Examples.Memory.{Memory, memory, memory-StorageLaws, empty}
use open_vault.Examples.Digest.{digest}

abbrev pub chunk : ℕ → Bytes → Chunk
chunk start part = record { hash = digest part; bytes = part; offset = start; size = length part }

-- Three chunks, of which the last repeats the first.
abbrev pub three_chunks : List Chunk
three_chunks = chunk 0 (1 ∷ 2 ∷ []) ∷ chunk 2 (3 ∷ []) ∷ chunk 3 (1 ∷ 2 ∷ []) ∷ []

abbrev pub empty_store : ChunkStore Memory
empty_store = ChunkStore.new (empty "local") "ns"

pub empty_store-IsStore : IsStore digest memory "snap" empty_store
empty_store-IsStore = record { counted = refl; distinct = tt; held = λ h p. absurd cc }

three_chunks-hashed : All (λ (k : Chunk). k.hash ≡ digest k.bytes) three_chunks
three_chunks-hashed = (refl, (refl, (refl, tt)))

store_chunks-IsStore_example :
    IsStore digest memory "snap" (store_chunks memory empty_store "snap" three_chunks).1
store_chunks-IsStore_example =
    store_chunks-IsStore digest memory memory-StorageLaws "snap" empty_store three_chunks
      three_chunks-hashed empty_store-IsStore

three_counts : (store_chunks memory empty_store "snap" three_chunks).0 ≡ ok (2, 1)
unfolding store_chunks store_chunks_from store_chunk record_chunk
three_counts = refl

abbrev filled : ChunkStore Memory
filled = (store_chunks memory empty_store "snap" three_chunks).1

filled-small : length filled.meta.stored_hashes < 2 ^ 64
unfolding store_chunks store_chunks_from store_chunk record_chunk
filled-small = omega arith

abbrev live : List String
live = digest (3 ∷ []) ∷ []

gc_lem_example :
    let (r, cs') = gc memory filled "snap" live in
    (r ≡ ok (length filled.meta.stored_hashes - length cs'.meta.stored_hashes))
    × ((h : String)
        → contains h cs'.meta.stored_hashes
          ≡ (contains h filled.meta.stored_hashes && contains h live))
    × IsStore digest memory "snap" cs'
    × (cs'.meta.total_bytes ≡ filled.meta.total_bytes)
gc_lem_example =
    gc_lem digest memory memory-StorageLaws "snap" filled live store_chunks-IsStore_example
      filled-small

first_stored : (store_chunk memory empty_store "a" (chunk 0 (7 ∷ []))).0 ≡ ok true
unfolding store_chunk record_chunk
first_stored = refl

abbrev name_a : String
name_a = "a"

a_not_b : name_a ≢ "b"
a_not_b e = cc ((eq_iff name_a "b").1 e)

dedup_across_snapshots_example :
    let cs' = (store_chunk memory empty_store "a" (chunk 0 (7 ∷ []))).1 in
    ((store_chunk memory cs' "b" (chunk 0 (7 ∷ []))).0 ≡ ok false)
    × (retrieve_chunk memory (store_chunk memory cs' "b" (chunk 0 (7 ∷ []))).1 "b" (digest (7 ∷ []))
        ≡ retrieve_chunk memory empty_store "b" (digest (7 ∷ [])))
dedup_across_snapshots_example =
    dedup_across_snapshots digest memory memory-StorageLaws "a" empty_store (chunk 0 (7 ∷ [])) "b"
      a_not_b refl first_stored
