-- ===== src/Incremental/Backup.antt =====
-- `IncrementalBackup` of crates/openvault-core/src/incremental.rs. The source directory is the tree
-- that `read_dir`, `is_dir`, `is_file` and `fs::read` show of it.
pub mod Success
pub mod Accounting
pub mod Names
use open_vault.Common.{
  ℕ, ◌+◌, String, Bool, not, Option, none, some, List, [], ◌∷◌, ◌++◌, if◌then◌else◌, contains,
  string_eq, concat,
}
use open_vault.Vault.{text, Message, Bytes, Time, VaultError, VaultResult, ok, err, VaultStorage}
use open_vault.Fs.{join}
use open_vault.Incremental.Chunker.{Chunk, Chunker, chunk_data}
use open_vault.Incremental.ChunkStore.{ChunkStore, MetaCodec, store_chunks, save_meta}
use open_vault.Incremental.Manifest
use open_vault.Incremental.Manifest.{BackupManifest, from_chunks, add_file, file_count}

-- What stands under a name of a directory. `special` is neither a directory nor a file, and
-- `bad_entry` an entry that `read_dir` reports an error for.
mutual
  pub data Node : Type 0 where
    file : String → Bytes → Node
    unreadable_file : String → Message → Node
    directory : String → Nodes → Node
    unreadable_directory : String → Message → Node
    special : String → Node
    bad_entry : Message → Node

  pub data Nodes : Type 0 where
    nil : Nodes
    cons : Node → Nodes → Nodes

pub record BackupReport : Type 0 where
  pub manifest_id : String
  pub files_backed_up : ℕ
  pub total_original_size : ℕ
  pub total_stored_size : ℕ
  pub new_chunks : ℕ
  pub duplicate_chunks : ℕ
  pub duration_ms : ℕ

pub record IncrementalBackup (S : Type 0) : Type 0 where
  pub chunker : Chunker
  pub chunk_store : ChunkStore S

-- What the engine takes from other crates: SHA-256, the JSON coding of manifests and metadata, and
-- the printing of a time.
pub record Codecs : Type 0 where
  pub sha256 : Bytes → String
  pub json : MetaCodec
  pub to_bytes : BackupManifest → VaultResult Bytes
  pub from_bytes : Bytes → VaultResult BackupManifest
  pub format_id : Time → String

abbrev incremental : Message → VaultError
incremental m = VaultError.incremental_error m

-- The sum over the chunks whose hash is not known.
abbrev pub sum_unknown : List Chunk → List String → ℕ
sum_unknown [] known = 0
sum_unknown (k ∷ ks) known = (if contains k.hash known then 0 else k.size) + sum_unknown ks known

-- An action on the chunk store that may fail; `none` means that the chunker does not
-- end or panics.
abbrev pub M : Type 0 → Type 0 → Type 0
M S A = ChunkStore S → Option (VaultResult A × ChunkStore S)

module _ {S A : Type 0} where
  abbrev pub pure : A → M S A
  pure a cs = some (ok a, cs)

  abbrev pub fail : VaultError → M S A
  fail e cs = some (err e, cs)

module _ {S A B : Type 0} where
  abbrev pub continue :
      Option (VaultResult A × ChunkStore S) → (A → M S B) → Option (VaultResult B × ChunkStore S)
  continue none f = none
  continue (some (ok a, cs)) f = f a cs
  continue (some (err e, cs)) f = some (err e, cs)

  infixl 5 ◌>>=◌ ◌>>◌
  unfoldable pub ◌>>=◌ : M S A → (A → M S B) → M S B
  ◌>>=◌ m f cs = continue (m cs) f

  abbrev pub ◌>>◌ : M S A → M S B → M S B
  m >> n = m >>= λ _. n

module _ {S : Type 0} (ops : VaultStorage S) (codecs : Codecs) where
  open codecs use {sha256, json, to_bytes}

  unfoldable pub chunked : Chunker → Bytes → M S (List Chunk)
  chunked chunker bytes cs = elim (chunk_data sha256 chunker bytes) [
    | some chunks ↦ some (ok chunks, cs)
    | none ↦ none
  ]

  unfoldable pub stored : String → List Chunk → M S (ℕ × ℕ)
  stored snapshot_id chunks cs = some (store_chunks ops cs snapshot_id chunks)

  unfoldable pub stored_size : List Chunk → M S ℕ
  stored_size chunks cs = some (ok (sum_unknown chunks cs.meta.stored_hashes), cs)

  -- `file_path` is `base_dir` joined with the entry's name, so that `strip_prefix` leaves the name.
  unfoldable pub backup_file :
      Chunker → String → String → Bytes → BackupManifest → M S BackupManifest
  unfolding chunked stored stored_size
  backup_file chunker snapshot_id name bytes manifest = do
    chunks ← chunked chunker bytes
    (new_count, dup_count) ← stored snapshot_id chunks
    size ← stored_size chunks
    let m = add_file manifest (from_chunks sha256 name bytes chunks) new_count dup_count
    pure (record m { total_stored_size = m.total_stored_size + size })

  -- The loop of `backup_directory` over the entries of the directory at `dir`, and one round of it.
  unfoldable mutual
    pub backup_nodes : Chunker → String → String → Nodes → BackupManifest → M S BackupManifest
    backup_nodes chunker snapshot_id dir nil manifest = pure manifest
    backup_nodes chunker snapshot_id dir (cons node rest) manifest =
        backup_node chunker snapshot_id dir node manifest >>= λ m.
        backup_nodes chunker snapshot_id dir rest m

    pub backup_node : Chunker → String → String → Node → BackupManifest → M S BackupManifest
    backup_node chunker snapshot_id dir (file name bytes) manifest =
        backup_file chunker snapshot_id name bytes manifest
    backup_node chunker snapshot_id dir (unreadable_file name e) manifest =
        fail (incremental (text "Failed to read file " ∷ text (join dir name) ∷ text ": " ∷ e))
    backup_node chunker snapshot_id dir (directory name nodes) manifest =
        backup_nodes chunker snapshot_id (join dir name) nodes manifest
    backup_node chunker snapshot_id dir (unreadable_directory name e) manifest =
        fail (incremental (text "Failed to read directory " ∷ text (join dir name) ∷ text ": " ∷ e))
    backup_node chunker snapshot_id dir (special name) manifest = pure manifest
    backup_node chunker snapshot_id dir (bad_entry e) manifest =
        fail (incremental (text "Failed to read dir entry: " ∷ e))

  unfoldable pub backup_directory :
      Chunker → String → String → Node → BackupManifest → M S BackupManifest
  backup_directory chunker snapshot_id source (directory name nodes) manifest =
      backup_nodes chunker snapshot_id source nodes manifest
  backup_directory chunker snapshot_id source (unreadable_directory name e) manifest =
      fail (incremental (text "Failed to read directory " ∷ text source ∷ text ": " ∷ e))
  backup_directory chunker snapshot_id source _ manifest =
      fail (incremental (text source ∷ text " is not a directory" ∷ []))

  unfoldable pub lift_store :
      (ChunkStore S → VaultResult (Unit {0}) × ChunkStore S) → M S (Unit {0})
  lift_store f cs = some (f cs)

  unfoldable pub put_file :
      String → String → Bytes → ChunkStore S → VaultResult (Unit {0}) × ChunkStore S
  put_file snapshot_id key bytes cs =
      let (done, storage') = ops.store_file cs.storage snapshot_id key bytes in
      (done, record cs { storage = storage' })

  unfoldable pub save_manifest : String → BackupManifest → M S (Unit {0})
  unfolding lift_store put_file
  save_manifest snapshot_id manifest = do
    bytes ← λ cs. some (to_bytes manifest, cs)
    lift_store (put_file snapshot_id (concat "__manifests__/" manifest.id) bytes)
    lift_store (λ cs. save_meta ops json cs snapshot_id)

  pub load_manifest : ChunkStore S → String → String → VaultResult BackupManifest
  load_manifest cs snapshot_id manifest_id =
      elim (ops.retrieve_file cs.storage snapshot_id (concat "__manifests__/" manifest_id)) [
        | ok bytes ↦ codecs.from_bytes bytes
        | err e ↦ err e
      ]

  unfoldable pub report_of : BackupManifest → ℕ → BackupReport
  report_of m duration = record {
    manifest_id = m.id;
    files_backed_up = file_count m;
    total_original_size = m.total_original_size;
    total_stored_size = m.total_stored_size;
    new_chunks = m.new_chunk_count;
    duplicate_chunks = m.duplicate_chunk_count;
    duration_ms = duration;
  }

  -- The shared body of `backup_full` and `backup_incremental`. `now` is the time at which the
  -- manifest is made, and `duration` what the monotonic clock measures.
  unfoldable pub backup_with :
      Option String
      → Chunker
      → Time
      → ℕ
      → String
      → String
      → Node
      → M S (BackupManifest × BackupReport)
  unfolding report_of
  backup_with parent chunker now duration snapshot_id source node = do
    manifest ←
        backup_directory chunker snapshot_id source node
          (Manifest.new codecs.format_id now source parent)
    save_manifest snapshot_id manifest
    pure (manifest, report_of manifest duration)

  unfoldable pub backup_full :
      Chunker → Time → ℕ → String → String → Node → M S (BackupManifest × BackupReport)
  unfolding backup_with
  backup_full = backup_with none

  pub backup_incremental :
      BackupManifest
      → Chunker
      → Time
      → ℕ
      → String
      → String
      → Node
      → M S (BackupManifest × BackupReport)
  unfolding backup_with
  backup_incremental parent_manifest = backup_with (some parent_manifest.id)
