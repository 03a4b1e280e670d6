-- ===== src/Incremental/ChunkStore.antt =====
-- `ChunkStore` of crates/openvault-core/src/incremental.rs over any storage. The mutex serialises
-- the calls; each one is a function of the store that it locks. The JSON coding of the metadata
-- (crate serde_json) is a parameter.
pub mod Invariant
pub mod Batches
pub mod Gc
use open_vault.Common.{
  ℕ, ◌+◌, ◌-◌, ◌%◌, ◌^◌, String, Bool, true, false, not, List, [], ◌∷◌, if◌then◌else◌, length,
  filter, contains, concat, string_eq, ◌==◌,
}
use open_vault.Vault.{
  text, Bytes, VaultError, VaultResult, ok, err, ◌>>=◌, map_err, display, VaultStorage,
}
use open_vault.Incremental.Chunker.{Chunk}

pub record ChunkRef : Type 0 where
  pub hash : String
  pub size : ℕ

-- The set of hashes is a list without repetitions.
pub record ChunkStoreMeta : Type 0 where
  pub stored_hashes : List String
  pub total_chunks : ℕ
  pub total_bytes : ℕ
  pub duplicates_detected : ℕ

abbrev pub empty_meta : ChunkStoreMeta
empty_meta = record {
  stored_hashes = [];
  total_chunks = 0;
  total_bytes = 0;
  duplicates_detected = 0;
}

pub record ChunkStore (S : Type 0) : Type 0 where
  pub storage : S
  pub namespace : String
  pub meta : ChunkStoreMeta

-- The derived coding of the metadata, `to_vec` and `from_slice`.
pub record MetaCodec : Type 0 where
  pub to_vec : ChunkStoreMeta → VaultResult Bytes
  pub from_slice : Bytes → VaultResult ChunkStoreMeta

abbrev pub new : {S : Type 0} → S → String → ChunkStore S
new backend name = record { storage = backend; namespace = name; meta = empty_meta }

unfoldable pub chunk_key : String → String → String
chunk_key namespace hash = concat "__chunks__/" (concat namespace (concat "/" hash))

pub meta_key : String → String
meta_key namespace = concat "__chunks__/" (concat namespace "/_meta")

-- u64 subtraction, which wraps.
pub sub_u64 : ℕ → ℕ → ℕ
sub_u64 a b = (a + 2 ^ 64 - b) % 2 ^ 64

-- The `match` on whether the chunk was new.
abbrev pub count_stored : Bool → ℕ × ℕ → ℕ × ℕ
count_stored true (new_count, dup_count) = (new_count + 1, dup_count)
count_stored false (new_count, dup_count) = (new_count, dup_count + 1)

module _ {S : Type 0} (ops : VaultStorage S) where
  -- The part of `store_chunk` behind the write.
  unfoldable pub record_chunk :
      ChunkStore S → Chunk → VaultResult (Unit {0}) × S → VaultResult Bool × ChunkStore S
  record_chunk cs chunk (ok _, storage') = (
    ok true,
    record cs {
      storage = storage';
      meta = record cs.meta {
        stored_hashes = chunk.hash ∷ cs.meta.stored_hashes;
        total_chunks = cs.meta.total_chunks + 1;
        total_bytes = cs.meta.total_bytes + chunk.size;
      };
    },
  )
  record_chunk cs chunk (err e, storage') = (err e, record cs { storage = storage' })

  unfoldable pub store_chunk : ChunkStore S → String → Chunk → VaultResult Bool × ChunkStore S
  unfolding record_chunk
  store_chunk cs snapshot_id chunk =
      if contains chunk.hash cs.meta.stored_hashes
      then (
        ok false,
        record cs {
          meta = record cs.meta { duplicates_detected = cs.meta.duplicates_detected + 1 };
        },
      )
      else record_chunk cs chunk
          (ops.store_file cs.storage snapshot_id (chunk_key cs.namespace chunk.hash) chunk.bytes)

  -- The loop of `store_chunks`; `?` returns at the first error.
  unfoldable pub store_chunks_from :
      ℕ × ℕ → ChunkStore S → String → List Chunk → VaultResult (ℕ × ℕ) × ChunkStore S
  store_chunks_from counts cs snapshot_id [] = (ok counts, cs)
  store_chunks_from counts cs snapshot_id (chunk ∷ rest) =
      let (stored, cs') = store_chunk cs snapshot_id chunk in
      elim stored [
        | ok fresh ↦ store_chunks_from (count_stored fresh counts) cs' snapshot_id rest
        | err e ↦ (err e, cs')
      ]

  unfoldable pub store_chunks :
      ChunkStore S → String → List Chunk → VaultResult (ℕ × ℕ) × ChunkStore S
  unfolding store_chunks_from
  store_chunks = store_chunks_from (0, 0)

  unfoldable pub retrieve_chunk : ChunkStore S → String → String → VaultResult Bytes
  retrieve_chunk cs snapshot_id hash =
      map_err
        (λ e.
          VaultError.incremental_error
            (text "Chunk " ∷ text hash ∷ text " not found: " ∷ display e))
        (ops.retrieve_file cs.storage snapshot_id (chunk_key cs.namespace hash))

  pub chunk_exists : ChunkStore S → String → Bool
  chunk_exists cs hash = contains hash cs.meta.stored_hashes

  pub stats : ChunkStore S → ChunkStoreMeta
  stats cs = cs.meta

  pub load_meta : MetaCodec → ChunkStore S → String → VaultResult (Unit {0}) × ChunkStore S
  load_meta json cs snapshot_id =
      elim (ops.retrieve_file cs.storage snapshot_id (meta_key cs.namespace)) [
        | ok bytes ↦ elim (json.from_slice bytes) [
          | ok loaded ↦ (ok tt, record cs { meta = loaded })
          | err e ↦ (
            err (
                VaultError.incremental_error
                  (text "Failed to parse chunk store meta: " ∷ display e)),
            cs,
          )
        ]
        | err _ ↦ (ok tt, cs)
      ]

  unfoldable pub save_meta :
      MetaCodec → ChunkStore S → String → VaultResult (Unit {0}) × ChunkStore S
  save_meta json cs snapshot_id = elim (json.to_vec cs.meta) [
    | ok bytes ↦
        let (stored, storage') =
          ops.store_file cs.storage snapshot_id (meta_key cs.namespace) bytes in
        (stored, record cs { storage = storage' })
    | err e ↦ (
      err (
          VaultError.incremental_error (text "Failed to serialize chunk store meta: " ∷ display e)),
      cs,
    )
  ]

  -- The loop of `gc`: an empty file is written over each chunk, and errors are dropped.
  unfoldable pub clear_chunks : S → String → String → List String → S
  clear_chunks storage snapshot_id namespace [] = storage
  clear_chunks storage snapshot_id namespace (hash ∷ rest) =
      clear_chunks (ops.store_file storage snapshot_id (chunk_key namespace hash) []).1 snapshot_id
        namespace rest

  unfoldable pub gc : ChunkStore S → String → List String → VaultResult ℕ × ChunkStore S
  unfolding clear_chunks sub_u64
  gc cs snapshot_id live_hashes =
      let to_remove = filter (λ h. not (contains h live_hashes)) cs.meta.stored_hashes in
      let removed_count = length to_remove in
      (
        ok removed_count,
        record cs {
          storage = clear_chunks cs.storage snapshot_id cs.namespace to_remove;
          meta = record cs.meta {
            stored_hashes = filter (λ h. not (contains h to_remove)) cs.meta.stored_hashes;
            total_chunks = sub_u64 cs.meta.total_chunks removed_count;
          };
        },
      )
