-- ===== src/Incremental/Manifest.antt =====
-- `FileChunks` and `BackupManifest` of crates/openvault-core/src/incremental.rs.
use open_vault.Common.{
  ℕ, ◌+◌, String, Option, List, [], ◌∷◌, ◌++◌, map, length, contains, string_eq, if◌then◌else◌,
}
use open_vault.Common.Map
use open_vault.Common.Map.{Map}
use open_vault.Vault.{Bytes, Time}
use open_vault.Incremental.Chunker.{Chunk}

pub record FileChunks : Type 0 where
  pub path : String
  pub original_size : ℕ
  pub file_hash : String
  pub chunk_hashes : List String
  pub chunk_sizes : List ℕ

unfoldable pub from_chunks : (Bytes → String) → String → Bytes → List Chunk → FileChunks
from_chunks sha256 name bytes chunks = record {
  path = name;
  original_size = length bytes;
  file_hash = sha256 bytes;
  chunk_hashes = map (λ (c : Chunk). c.hash) chunks;
  chunk_sizes = map (λ (c : Chunk). c.size) chunks;
}

pub record BackupManifest : Type 0 where
  pub id : String
  pub created_at : Time
  pub source : String
  pub files : Map FileChunks
  pub parent_id : Option String
  pub total_original_size : ℕ
  pub total_stored_size : ℕ
  pub new_chunk_count : ℕ
  pub duplicate_chunk_count : ℕ

-- The id is the time of its making as chrono prints it, a parameter.
unfoldable pub new : (Time → String) → Time → String → Option String → BackupManifest
new format_id now from parent = record {
  id = format_id now;
  created_at = now;
  source = from;
  files = [];
  parent_id = parent;
  total_original_size = 0;
  total_stored_size = 0;
  new_chunk_count = 0;
  duplicate_chunk_count = 0;
}

unfoldable pub add_file : BackupManifest → FileChunks → ℕ → ℕ → BackupManifest
add_file m file new_chunks dup_chunks = record m {
  total_original_size = m.total_original_size + file.original_size;
  new_chunk_count = m.new_chunk_count + new_chunks;
  duplicate_chunk_count = m.duplicate_chunk_count + dup_chunks;
  files = Map.insert file.path file m.files;
}

unfoldable pub get_file_chunks : BackupManifest → String → Option FileChunks
get_file_chunks m path = Map.get path m.files

pub file_paths : BackupManifest → List String
file_paths m = Map.keys m.files

-- Collecting into a set drops repetitions.
pub collect_set : List String → List String
collect_set [] = []
collect_set (h ∷ hs) = let rest = collect_set hs in if contains h rest then rest else h ∷ rest

pub all_hashes : List FileChunks → List String
all_hashes [] = []
all_hashes (f ∷ fs) = f.chunk_hashes ++ all_hashes fs

pub referenced_chunk_hashes : BackupManifest → List String
unfolding collect_set all_hashes
referenced_chunk_hashes m = collect_set (all_hashes (Map.values m.files))

unfoldable pub file_count : BackupManifest → ℕ
file_count m = length m.files
