-- ===== src/Incremental/ChunkStore/Batches.antt =====
-- `store_chunks`: what a batch of chunks does to the counters and to the set of hashes.
use open_vault.Common.{
  ℕ, ◌+◌, ◌≡◌, String, Bool, true, false, List, [], ◌∷◌, arith, length, All, contains, string_eq,
  eq_iff,
}
use open_vault.Vault.{Bytes, VaultResult, ok, err, VaultStorage, StorageLaws}
use open_vault.Incremental.Chunker.{Chunk}
use open_vault.Incremental.ChunkStore.{
  ChunkStore, store_chunk, count_stored, store_chunks_from, store_chunks,
}
use open_vault.Incremental.ChunkStore.Invariant.{IsStore, store_chunk-IsStore}

module _ {S : Type 0} (ops : VaultStorage S) (snapshot_id : String) where
  store_chunk-keeps :
      (cs : ChunkStore S) (chunk : Chunk) (h : String)
      → contains h cs.meta.stored_hashes ≡ true
      → contains h (store_chunk ops cs snapshot_id chunk).1.meta.stored_hashes ≡ true
  unfolding store_chunk
  store_chunk-keeps cs chunk h p = ground arith

  namespace-store_chunk :
      (cs : ChunkStore S) (chunk : Chunk)
      → (store_chunk ops cs snapshot_id chunk).1.namespace ≡ cs.namespace
  unfolding store_chunk
  namespace-store_chunk cs chunk = ground arith

  store_chunk-counts :
      (cs : ChunkStore S) (chunk : Chunk) (fresh : Bool)
      → let (r, cs') = store_chunk ops cs snapshot_id chunk in
        r ≡ ok fresh
        → (contains chunk.hash cs'.meta.stored_hashes ≡ true)
          × (cs'.meta.total_chunks ≡ cs.meta.total_chunks + (count_stored fresh (0, 0)).0)
          × (cs'.meta.duplicates_detected
              ≡ cs.meta.duplicates_detected + (count_stored fresh (0, 0)).1)
  unfolding store_chunk
  store_chunk-counts cs chunk fresh e = ground (arith, eq_iff chunk.hash chunk.hash)

  store_chunks_from-keeps :
      (chunks : List Chunk) (counts : ℕ × ℕ) (cs : ChunkStore S) (h : String)
      → contains h cs.meta.stored_hashes ≡ true
      → contains h (store_chunks_from ops counts cs snapshot_id chunks).1.meta.stored_hashes ≡ true
  unfolding store_chunks_from
  store_chunks_from-keeps [] counts cs h p = p
  store_chunks_from-keeps (k ∷ ks) counts cs h p =
      let cs' = (store_chunk ops cs snapshot_id k).1 in
      ground (
        arith,
        store_chunk-keeps cs k h,
        store_chunks_from-keeps ks (count_stored true counts) cs' h,
        store_chunks_from-keeps ks (count_stored false counts) cs' h,
      )

  -- The counters and the set after a batch that did not fail.
  record IsBatch (chunks : List Chunk) (counts counts' : ℕ × ℕ) (cs cs' : ChunkStore S)
      : Type 0 where
    name : cs'.namespace ≡ cs.namespace
    each : counts'.0 + counts'.1 ≡ counts.0 + counts.1 + length chunks
    fresh : cs'.meta.total_chunks + counts.0 ≡ cs.meta.total_chunks + counts'.0
    again : cs'.meta.duplicates_detected + counts.1 ≡ cs.meta.duplicates_detected + counts'.1
    known : All (λ k. contains k.hash cs'.meta.stored_hashes ≡ true) chunks

  store_chunks_from-IsBatch :
      (chunks : List Chunk) (counts counts' : ℕ × ℕ) (cs : ChunkStore S)
      → (store_chunks_from ops counts cs snapshot_id chunks).0 ≡ ok counts'
      → IsBatch chunks counts counts' cs (store_chunks_from ops counts cs snapshot_id chunks).1
  unfolding store_chunks_from
  store_chunks_from-IsBatch [] counts counts' cs e = ground arith
  store_chunks_from-IsBatch (k ∷ ks) counts counts' cs e =
      let cs' = (store_chunk ops cs snapshot_id k).1 in
      ground (
        arith,
        store_chunk-counts cs k true,
        store_chunk-counts cs k false,
        namespace-store_chunk cs k,
        store_chunks_from-keeps ks (count_stored true counts) cs' k.hash,
        store_chunks_from-keeps ks (count_stored false counts) cs' k.hash,
        store_chunks_from-IsBatch ks (count_stored true counts) counts' cs',
        store_chunks_from-IsBatch ks (count_stored false counts) counts' cs',
      )

module _ (sha256 : Bytes → String) {S : Type 0} (ops : VaultStorage S) (laws : StorageLaws ops)
    (snapshot_id : String) where
  store_chunks_from-IsStore :
      (chunks : List Chunk) (counts : ℕ × ℕ) (cs : ChunkStore S)
      → All (λ (k : Chunk). k.hash ≡ sha256 k.bytes) chunks
      → IsStore sha256 ops snapshot_id cs
      → IsStore sha256 ops snapshot_id (store_chunks_from ops counts cs snapshot_id chunks).1
  unfolding store_chunks_from
  store_chunks_from-IsStore [] counts cs hashed inv = inv
  store_chunks_from-IsStore (k ∷ ks) counts cs hashed inv =
      let kept = store_chunk-IsStore sha256 ops laws snapshot_id cs k hashed.0 inv in
      go (store_chunk ops cs snapshot_id k) kept (λ fresh cs' inv'.
        store_chunks_from-IsStore ks (count_stored fresh counts) cs' hashed.1 inv')
    where
      go :
          (r : VaultResult Bool × ChunkStore S)
          → IsStore sha256 ops snapshot_id r.1
          → ((fresh : Bool) (cs' : ChunkStore S)
              → IsStore sha256 ops snapshot_id cs'
              → IsStore sha256 ops snapshot_id
                  (store_chunks_from ops (count_stored fresh counts) cs' snapshot_id ks).1)
          → IsStore sha256 ops snapshot_id (
              (let (stored, cs') = r in
                elim stored as (λ _. VaultResult (ℕ × ℕ) × ChunkStore S) [
                  | ok fresh ↦ store_chunks_from ops (count_stored fresh counts) cs' snapshot_id ks
                  | err e ↦ (err e, cs')
                ]).1)
      go (ok fresh, cs') i rest = rest fresh cs' i
      go (err e, cs') i rest = i

  -- A batch of chunks whose hashes are those of their bytes keeps the invariant of the store, also
  -- where a write fails.
  pub store_chunks-IsStore :
      (cs : ChunkStore S) (chunks : List Chunk)
      → All (λ (k : Chunk). k.hash ≡ sha256 k.bytes) chunks
      → IsStore sha256 ops snapshot_id cs
      → IsStore sha256 ops snapshot_id (store_chunks ops cs snapshot_id chunks).1
  unfolding store_chunks
  store_chunks-IsStore cs chunks = store_chunks_from-IsStore chunks (0, 0) cs

module _ {S : Type 0} (ops : VaultStorage S) (snapshot_id : String) where
  -- In a batch that does not fail each chunk is counted once, as new or as a duplicate, the totals
  -- of the store grow by these two counts, and the store knows the hash of every chunk.
  pub store_chunks-counts :
      (cs : ChunkStore S) (chunks : List Chunk) (new_count dup_count : ℕ)
      → (store_chunks ops cs snapshot_id chunks).0 ≡ ok (new_count, dup_count)
      → let cs' = (store_chunks ops cs snapshot_id chunks).1 in
        (new_count + dup_count ≡ length chunks)
        × (cs'.meta.total_chunks ≡ cs.meta.total_chunks + new_count)
        × (cs'.meta.duplicates_detected ≡ cs.meta.duplicates_detected + dup_count)
        × All (λ (k : Chunk). contains k.hash cs'.meta.stored_hashes ≡ true) chunks
        × (cs'.namespace ≡ cs.namespace)
  unfolding store_chunks
  store_chunks-counts cs chunks n m e =
      let b = store_chunks_from-IsBatch ops snapshot_id chunks (0, 0) (n, m) cs e in
      (omega (arith, b.each), omega (arith, b.fresh), omega (arith, b.again), b.known, b.name)
