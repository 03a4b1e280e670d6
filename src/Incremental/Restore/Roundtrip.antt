-- ===== src/Incremental/Restore/Roundtrip.antt =====
-- A file that was chunked and stored is restored as it was.
use open_vault.Common.{
  ℕ, ◌+◌, ◌^◌, ◌<◌, ◌≤◌, ◌≡◌, refl, ap, sym, ◌∙◌, subst, String, true, none, some, some-injective,
  List, [], ◌∷◌, map, length, contains, string_eq, eq_iff, arith, All,
}
use open_vault.Vault.{Bytes, ok, VaultStorage, StorageLaws}
use open_vault.Fs.{Fs, join, read}
use open_vault.Fs.Laws.{read-write_self, write-ok}
use open_vault.Incremental.Chunker.{Chunk, Chunker, chunk_data}
use open_vault.Incremental.Chunker.Chunks.{joined, Tiles, chunk_data-Tiles}
use open_vault.Incremental.ChunkStore.{ChunkStore, retrieve_chunk, store_chunks}
use open_vault.Incremental.ChunkStore.Invariant.{IsStore}
use open_vault.Incremental.ChunkStore.Batches.{store_chunks-IsStore, store_chunks-counts}
use open_vault.Incremental.Manifest.{from_chunks}
use open_vault.Incremental.Restore.{
  make_parent, write_file, reassemble, write_verified, restore_file,
}

write_file-restores :
    (fs : Fs) (path : String) (bytes : Bytes)
    → fs.refuses path ≡ none
    → ((write_file fs path bytes).0 ≡ ok (length bytes))
      × (read (write_file fs path bytes).1 path ≡ ok bytes)
unfolding write_file
write_file-restores fs path bytes q =
    ground (arith, write-ok fs path bytes, read-write_self fs path bytes)

module _ (sha256 : Bytes → String) where
  Hashed : List Chunk → Type 0
  Hashed = All (λ (k : Chunk). k.hash ≡ sha256 k.bytes)

  Tiles-Hashed : (c : Chunker) (start : ℕ) (ks : List Chunk) → Tiles sha256 c start ks → Hashed ks
  unfolding Hashed
  Tiles-Hashed c start [] t = tt
  Tiles-Hashed c start (k ∷ ks) (one, _, rest) = (one.hash, Tiles-Hashed c (start + k.size) ks rest)

  module _ {S : Type 0} (ops : VaultStorage S)
      (injective : (a b : Bytes) → sha256 a ≡ sha256 b → a ≡ b) (snapshot_id : String)
      (cs : ChunkStore S) (inv : IsStore sha256 ops snapshot_id cs) where
    retrieve_chunk-held :
        (k : Chunk)
        → k.hash ≡ sha256 k.bytes
        → contains k.hash cs.meta.stored_hashes ≡ true
        → retrieve_chunk ops cs snapshot_id k.hash ≡ ok k.bytes
    unfolding retrieve_chunk
    retrieve_chunk-held k hashed known =
        let (d, there, e) = inv.held k.hash known in
        let same = injective d k.bytes (e ∙ hashed) in rw there (ap ok same)

    reassemble-joined :
        (ks : List Chunk)
        → Hashed ks
        → All (λ (k : Chunk). contains k.hash cs.meta.stored_hashes ≡ true) ks
        → reassemble sha256 ops cs snapshot_id (map (λ (k : Chunk). k.hash) ks) ≡ ok (joined ks)
    unfolding reassemble Hashed
    reassemble-joined [] h a = refl
    reassemble-joined (k ∷ ks) h a =
        ground (arith, retrieve_chunk-held k h.0 a.0, reassemble-joined ks h.1 a.1)

  -- Let the hash have no collisions, the storage keep its laws, and the store its invariant. A file
  -- that is chunked (with a positive maximum and window, a minimum within the maximum, and the
  -- data, the maximum and the window together below 2^64) and whose chunks are stored without an
  -- error is restored from its entry of the manifest as the same bytes, wherever the path can be
  -- written.
  pub restore-store_chunks :
      {S : Type 0} (ops : VaultStorage S) (laws : StorageLaws ops)
      (injective : (a b : Bytes) → sha256 a ≡ sha256 b → a ≡ b) (c : Chunker)
      (pos : 0 < c.max_chunk) (le : c.min_chunk ≤ c.max_chunk) (wide : 0 < c.window_size)
      (snapshot_id name : String) (bytes : Bytes)
      (fits : length bytes + c.max_chunk + c.window_size < 2 ^ 64) (cs : ChunkStore S)
      (chunks : List Chunk) (new_count dup_count : ℕ) (target : String) (fs : Fs)
      → IsStore sha256 ops snapshot_id cs
      → chunk_data sha256 c bytes ≡ some chunks
      → (store_chunks ops cs snapshot_id chunks).0 ≡ ok (new_count, dup_count)
      → make_parent fs (join target name) ≡ ok tt
      → fs.refuses (join target name) ≡ none
      → let cs' = (store_chunks ops cs snapshot_id chunks).1 in
        let file = from_chunks sha256 name bytes chunks in
        let (restored, fs') = restore_file sha256 ops cs' snapshot_id file target fs in
        (restored ≡ ok (length bytes)) × (read fs' (join target name) ≡ ok bytes)
  unfolding restore_file from_chunks write_verified Hashed
  restore-store_chunks ops laws injective c pos le wide snapshot_id name bytes fits cs chunks n d
        target fs inv cut done made open_path =
      let (ks, cut', tiles, whole) = chunk_data-Tiles sha256 c pos le wide bytes fits in
      let same = some-injective _ _ (sym cut' ∙ cut) in
      let hashed = subst Hashed same (Tiles-Hashed c 0 ks tiles) in
      let cs' = (store_chunks ops cs snapshot_id chunks).1 in
      let inv' = store_chunks-IsStore sha256 ops laws snapshot_id cs chunks hashed inv in
      let counts = store_chunks-counts ops snapshot_id cs chunks n d done in
      let back = reassemble-joined ops injective snapshot_id cs' inv' chunks hashed counts.3 in
      let all = ap joined (sym same) ∙ whole in
      rw (made, back, all, (eq_iff (sha256 bytes) (sha256 bytes)).1 refl)
        (write_file-restores fs (join target name) bytes open_path)
