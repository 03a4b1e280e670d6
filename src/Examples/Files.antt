-- ===== src/Examples/Files.antt =====
-- Backup and restore at concrete inputs.
use open_vault.Common.{◌+◌, ◌≡◌, refl, none, some, Option, List, [], ◌∷◌, arith, string_eq, concat}
use open_vault.Common.Map
use open_vault.Vault.{Bytes, text, VaultError, VaultResult, ok, err, display}
use open_vault.Fs.{Fs, join, read, create_dir_all}
use open_vault.Incremental.Chunker.{
  Chunk, Chunker, chunk_data, chunks_from, chunk_at, find_boundary, roll_in, roll_hash, hits,
  init_hash, first_hash, scan_end, init_end, roll,
}
use open_vault.Incremental.ChunkStore.{
  ChunkStore, chunk_key, record_chunk, store_chunk, store_chunks, store_chunks_from, retrieve_chunk,
  save_meta,
}
use open_vault.Incremental.Manifest
use open_vault.Incremental.Manifest.{
  FileChunks, BackupManifest, from_chunks, add_file, file_count, get_file_chunks,
}
use open_vault.Incremental.Backup.{
  Node, file, directory, Nodes, nil, cons, Codecs, BackupReport, chunked, stored, stored_size,
  backup_file, backup_nodes, backup_node, backup_full, backup_with, backup_directory, lift_store,
  put_file, save_manifest, report_of, ◌>>=◌,
}
use open_vault.Incremental.Backup.Accounting.{size_node, backup_full-Adds}
use open_vault.Incremental.Backup.Names.{last_file, last_in, Kept, backup_nodes-collision}
use open_vault.Fs.{parent}
use open_vault.Incremental.Restore.{restore_file, make_parent, reassemble, write_verified}
use open_vault.Incremental.Restore.Files.{Written, restore_file-Written}
use open_vault.Incremental.Restore.Roundtrip.{restore-store_chunks}
use open_vault.Examples.Memory.{Memory, memory, memory-StorageLaws}
use open_vault.Examples.Digest.{digest, digest-injective, print_time}
use open_vault.Examples.Store.{chunk, empty_store, empty_store-IsStore}

abbrev tiny : Chunker
tiny = record { min_chunk = 1; max_chunk = 2; mask = 0xFF; window_size = 1 }

abbrev blank : Fs
blank = record { files = []; refuses = λ path. none }

abbrev three : Bytes
three = 1 ∷ 2 ∷ 3 ∷ []

abbrev chunks : List Chunk
chunks = chunk 0 (1 ∷ 2 ∷ []) ∷ chunk 2 (3 ∷ []) ∷ []

cut_three : chunk_data digest tiny three ≡ some chunks
unfolding chunk_data chunks_from chunk_at find_boundary roll first_hash init_end scan_end init_hash
    roll_in roll_hash hits
cut_three = refl

stored_three : (store_chunks memory empty_store "snap" chunks).0 ≡ ok (2, 0)
unfolding store_chunks store_chunks_from store_chunk record_chunk
stored_three = refl

parent_made : make_parent blank (join "/out" "notes") ≡ ok tt
unfolding make_parent parent join create_dir_all concat
parent_made = refl

abbrev filled : ChunkStore Memory
filled = (store_chunks memory empty_store "snap" chunks).1

abbrev notes : FileChunks
notes = from_chunks digest "notes" three chunks

restore-store_chunks_example :
    let (restored, fs') = restore_file digest memory filled "snap" notes "/out" blank in
    (restored ≡ ok 3) × (read fs' (join "/out" "notes") ≡ ok three)
restore-store_chunks_example =
    restore-store_chunks digest memory memory-StorageLaws digest-injective tiny (omega arith)
      (omega arith) (omega arith) "snap" "notes" three (omega arith) empty_store chunks 2 0 "/out"
      blank empty_store-IsStore cut_three stored_three parent_made refl

restore_file-Written_example :
    Written digest memory notes
      (join "/out" "notes")
      blank
      3
      (restore_file digest memory filled "snap" notes "/out" blank).1
unfolding from_chunks
restore_file-Written_example =
    restore_file-Written digest memory filled "snap" notes "/out" blank 3
      restore-store_chunks_example.0

abbrev lost : VaultError
lost = VaultError.incremental_error (
    text "Chunk "
    ∷ text (digest (1 ∷ 2 ∷ []))
    ∷ text " not found: "
    ∷ text "Snapshot not found: "
    ∷ text "snap"
    ∷ [])

fails : (restore_file digest memory empty_store "snap" notes "/out" blank).0 ≡ err lost
unfolding display concat restore_file make_parent parent join create_dir_all reassemble
    retrieve_chunk chunk_key from_chunks write_verified
fails = refl

abbrev codecs : Codecs
codecs = record {
  sha256 = digest;
  json = record { to_vec = λ m. ok []; from_slice = λ b. err lost };
  to_bytes = λ m. ok [];
  from_bytes = λ b. err lost;
  format_id = print_time;
}

-- A directory with a file, and two directories with a file of one name.
abbrev twins : Nodes
twins =
    cons (directory "one" (cons (file "a" (1 ∷ 2 ∷ [])) nil))
      (cons (directory "two" (cons (file "a" (3 ∷ [])) nil)) nil)

abbrev tree : Node
tree = directory "data" (cons (file "b" (1 ∷ 2 ∷ [])) twins)

abbrev none_made : BackupManifest
none_made = record {
  id = "";
  created_at = 0;
  source = "";
  files = [];
  parent_id = none;
  total_original_size = 0;
  total_stored_size = 0;
  new_chunk_count = 0;
  duplicate_chunk_count = 0;
}

abbrev made : {A : Type 0} → A → Option (VaultResult A × ChunkStore Memory) → A
made a none = a
made a (some (ok b, cs)) = b
made a (some (err e, cs)) = a

abbrev left : {A : Type 0} → Option (VaultResult A × ChunkStore Memory) → ChunkStore Memory
left none = empty_store
left (some (r, cs)) = cs

abbrev full_run : Option (VaultResult (BackupManifest × BackupReport) × ChunkStore Memory)
full_run = backup_full memory codecs tiny 3 12 "snap" "/data" tree empty_store

abbrev report : BackupReport
report = record {
  manifest_id = print_time 3;
  files_backed_up = 2;
  total_original_size = 5;
  total_stored_size = 0;
  new_chunks = 2;
  duplicate_chunks = 1;
  duration_ms = 12;
}

full_run-ok : full_run ≡ some (ok ((made (none_made, report) full_run).0, report), left full_run)
unfolding backup_full backup_with backup_directory backup_nodes backup_node backup_file chunked
    stored stored_size lift_store put_file save_manifest report_of ◌>>=◌ chunk_data chunks_from
    chunk_at find_boundary roll first_hash init_end scan_end init_hash roll_in roll_hash hits
    store_chunks store_chunks_from store_chunk record_chunk save_meta from_chunks add_file
    file_count Map.insert Manifest.new
full_run-ok = refl

backup_full-Adds_example :
    (report.total_original_size ≡ size_node tree)
    × (report.total_stored_size ≡ 0)
    × ((left full_run).meta.total_chunks ≡ empty_store.meta.total_chunks + report.new_chunks)
    × ((left full_run).meta.duplicates_detected
        ≡ empty_store.meta.duplicates_detected + report.duplicate_chunks)
backup_full-Adds_example =
    backup_full-Adds memory codecs tiny 3 12 "snap" "/data" tree empty_store (left full_run)
      (made (none_made, report) full_run).0 report full_run-ok

abbrev twins_run : Option (VaultResult BackupManifest × ChunkStore Memory)
twins_run = backup_nodes memory codecs tiny "snap" "/data" twins none_made empty_store

twins_run-ok : twins_run ≡ some (ok (made none_made twins_run), left twins_run)
unfolding backup_nodes backup_node backup_file chunked stored stored_size ◌>>=◌ chunk_data
    chunks_from chunk_at find_boundary roll first_hash init_end scan_end init_hash roll_in roll_hash
    hits store_chunks store_chunks_from store_chunk record_chunk
twins_run-ok = refl

last_twin : last_file "a" twins ≡ some (3 ∷ [])
unfolding last_file last_in
last_twin = refl

backup_nodes-collision_example :
    Kept memory codecs tiny "snap" "a" (last_file "a" twins) none_made (made none_made twins_run)
backup_nodes-collision_example =
    backup_nodes-collision memory codecs tiny "snap" "a" "/data" twins none_made
      (made none_made twins_run) empty_store (left twins_run) twins_run-ok
