-- ===== src/RestoreEngine.antt =====
-- `RestoreEngine` of crates/openvault-core/src/restore.rs over the file system. SHA-256, the
-- provider that decrypts (crates/openvault-core/src/crypto.rs calls cipher crates) and the decimal
-- digits of a counter are parameters. Setting the time of a restored file, whose error the code
-- drops, is no write of this file system.
mod Options
pub mod Kept
pub mod Uncounted
pub mod Counts
pub mod Restored
pub mod Versions
use Prim.Native.Char.{code}
use open_vault.Common.{
  ℕ, zero, suc, ◌+◌, ◌%◌, ◌^◌, String, Bool, true, false, not, ◌&&◌, Option, none, some, List, [],
  ◌∷◌, ◌++◌, map, filter, find, concat, contains, is_empty, length, nat_beq, if◌then◌else◌, ◌==◌,
  string_eq,
}
use open_vault.Common.Sort.{greatest_first}
use open_vault.Vault.{
  text, Message, Bytes, VaultError, VaultResult, ok, err, ◌>>=◌, map_err, display, VaultStorage,
  Snapshot, FileEntry, BackupEntry,
}
use open_vault.Fs.{Fs, join, parent, file_name, extension, write, exists, create_dir_all}
unfoldable pub use Options.*

abbrev restore_failed : Message → VaultError → VaultError
restore_failed m e = VaultError.restore_failed (m ++ display e)

-- The text before the last dot, and `Path::file_stem`.
unfoldable pub before_dot : String → Option String
before_dot String.[] = none
before_dot (String.◌∷◌ c s) = elim (before_dot s) [
  | some p ↦ some (String.◌∷◌ c p)
  | none ↦ if nat_beq (code c) 46 then some "" else none
]

unfoldable pub name_stem : String → String
unfolding before_dot
name_stem String.[] = ""
name_stem (String.◌∷◌ c s) = elim (before_dot s) [ some p ↦ String.◌∷◌ c p | none ↦ String.◌∷◌ c s ]

abbrev dotted : Option String → String
dotted none = ""
dotted (some e) = concat "." e

abbrev beside : Option String → String → String
beside none name = name
beside (some dir) name = join dir name

module _ (digits : ℕ → String) where
  -- The name that is tried with a counter.
  unfoldable pub new_path : String → ℕ → String
  unfolding name_stem
  new_path path counter = beside (parent path) (
      concat (concat (name_stem (file_name path)) (digits counter))
        (concat ".restored" (dotted (extension path))))

  -- The loop over the counter, for so many rounds.
  unfoldable pub try_names : Fs → String → ℕ → ℕ → VaultResult String
  try_names fs path zero counter =
      err (VaultError.restore_failed (text "Too many conflicting files" ∷ []))
  try_names fs path (suc rounds) counter =
      let rest = try_names fs path rounds (counter + 1) in
      if not (exists fs (new_path path counter)) then ok (new_path path counter) else rest

  unfoldable pub resolve_conflict : Fs → String → ConflictStrategy → VaultResult String
  resolve_conflict fs path strategy = if not (exists fs path) then ok path else elim strategy [
    | skip ↦ err (VaultError.restore_failed (text "File already exists (skip): " ∷ text path ∷ []))
    | overwrite ↦ ok path
    | rename ↦ try_names fs path 1000 1
    | fail ↦ err (VaultError.restore_failed (text "File already exists (fail): " ∷ text path ∷ []))
  ]

  unfoldable pub ensure_parent : Fs → String → VaultResult (Unit {0})
  ensure_parent fs path = elim (parent path) [
    | none ↦ ok tt
    | some dir ↦
        map_err (restore_failed (text "Failed to create parent directory: " ∷ []))
          (create_dir_all fs dir)
  ]

  module _ (sha256 : Bytes → String) {S : Type 0} (engine : RestoreEngine S) where
    abbrev ops : VaultStorage S
    ops = engine.storage

    abbrev decrypted :
        Option (Bytes → VaultResult Bytes) → (VaultError → VaultError) → Bytes → VaultResult Bytes
    decrypted none f bytes = ok bytes
    decrypted (some decrypt) f bytes = map_err f (decrypt bytes)

    -- What the storage holds of an entry, decrypted.
    unfoldable pub fetch : (VaultError → VaultError) → S → String → FileEntry → VaultResult Bytes
    fetch f s id entry = do
      bytes ← ops.retrieve_file s id entry.path
      decrypted engine.crypto f bytes

    abbrev mismatch : FileEntry → Bytes → VaultError
    mismatch entry bytes = VaultError.checksum_mismatch entry.path entry.checksum (sha256 bytes)

    -- The write, and the count of a renamed file.
    unfoldable pub put_file :
        String → String → Bytes → RestoreReport → Fs → VaultResult ℕ × RestoreReport × Fs
    put_file target path bytes report fs =
        let (done, fs') = write fs path bytes in
        elim done [
          | err e ↦ (
            err (restore_failed (text "Failed to write file " ∷ text path ∷ text ": " ∷ []) e),
            report,
            fs',
          )
          | ok _ ↦ (
            ok (length bytes),
            (if path == target
                then report
                else record report { files_renamed = (report.files_renamed + 1) % 2 ^ 32 }),
            fs',
          )
        ]

    abbrev after_fetch :
        Bool
        → FileEntry
        → String
        → String
        → RestoreReport
        → Fs
        → VaultResult Bytes
        → VaultResult ℕ × RestoreReport × Fs
    after_fetch verify entry target path report fs (err e) = (err e, report, fs)
    after_fetch verify entry target path report fs (ok bytes) =
        if verify && not (sha256 bytes == entry.checksum)
        then (
          err (mismatch entry bytes),
          record report { checksum_failures = (report.checksum_failures + 1) % 2 ^ 32 },
          fs,
        )
        else put_file target path bytes report fs

    abbrev after_parent :
        VaultResult (Unit {0})
        → RestoreReport
        → Fs
        → VaultResult ℕ × RestoreReport × Fs
        → VaultResult ℕ × RestoreReport × Fs
    after_parent (err e) report fs r = (err e, report, fs)
    after_parent (ok _) report fs r = r

    abbrev decryption_failed : FileEntry → VaultError → VaultError
    decryption_failed entry =
        restore_failed (text "Decryption failed for " ∷ text entry.path ∷ text ": " ∷ [])

    abbrev after_resolve :
        S
        → String
        → FileEntry
        → RestoreOptions
        → RestoreReport
        → Fs
        → VaultResult String
        → VaultResult ℕ × RestoreReport × Fs
    after_resolve s id entry options report fs (err e) =
        (err e, record report { files_skipped = (report.files_skipped + 1) % 2 ^ 32 }, fs)
    after_resolve s id entry options report fs (ok path) =
        after_parent (ensure_parent fs path) report fs (
          after_fetch options.verify_checksums entry (join options.target entry.path) path report fs
            (fetch (decryption_failed entry) s id entry))

    unfoldable pub restore_file :
        S
        → String
        → FileEntry
        → RestoreOptions
        → RestoreReport
        → Fs
        → VaultResult ℕ × RestoreReport × Fs
    restore_file s id entry options report fs =
        after_resolve s id entry options report fs
          (resolve_conflict fs (join options.target entry.path) options.conflict)

    abbrev count_restored : FileEntry → VaultResult ℕ × RestoreReport × Fs → RestoreReport × Fs
    count_restored entry (ok bytes, report, fs) = (
      record report {
        files_restored = (report.files_restored + 1) % 2 ^ 32;
        bytes_restored = report.bytes_restored + bytes;
      },
      fs,
    )
    count_restored entry (err e, report, fs) = (
      record report {
        errors = report.errors ++ record { path = entry.path; message = display e } ∷ [];
      },
      fs,
    )

    abbrev filtered_out : RestoreOptions → FileEntry → Bool
    filtered_out options entry =
        not (is_empty options.filter_paths) && not (contains entry.path options.filter_paths)

    -- One round of the loop of `restore`.
    unfoldable pub restore_entry :
        S → String → RestoreOptions → FileEntry → RestoreReport × Fs → RestoreReport × Fs
    unfolding restore_file
    restore_entry s id options entry (report, fs) =
        if filtered_out options entry
        then (record report { files_skipped = (report.files_skipped + 1) % 2 ^ 32 }, fs)
        else count_restored entry (restore_file s id entry options report fs)

    unfoldable pub restore_entries :
        S → String → RestoreOptions → List FileEntry → RestoreReport × Fs → RestoreReport × Fs
    unfolding restore_entry
    restore_entries s id options [] r = r
    restore_entries s id options (entry ∷ rest) r =
        restore_entries s id options rest (restore_entry s id options entry r)

    abbrev after_target :
        S → Snapshot → RestoreOptions → Fs → VaultResult (Unit {0}) → VaultResult RestoreReport × Fs
    after_target s snapshot options fs (err e) =
        (err (restore_failed (text "Failed to create target directory: " ∷ []) e), fs)
    after_target s snapshot options fs (ok _) =
        let (report, fs') = restore_entries s snapshot.id options snapshot.entries (no_files, fs) in
        (ok report, fs')

    unfoldable pub restore : S → Snapshot → RestoreOptions → Fs → VaultResult RestoreReport × Fs
    unfolding restore_entries
    restore s snapshot options fs =
        after_target s snapshot options fs (create_dir_all fs options.target)

    -- `verify_file` and the loop of `verify`.
    unfoldable pub verify_file : S → String → FileEntry → VaultResult (Unit {0})
    verify_file s id entry = do
      bytes ← fetch (λ e. e) s id entry
      if sha256 bytes == entry.checksum then ok tt else err (mismatch entry bytes)

    abbrev count_verified : FileEntry → VaultResult (Unit {0}) → VerifyReport → VerifyReport
    count_verified entry (ok _) r = record r { files_ok = (r.files_ok + 1) % 2 ^ 32 }
    count_verified entry (err e) r = record r {
      files_failed = (r.files_failed + 1) % 2 ^ 32;
      errors = r.errors ++ record { path = entry.path; message = display e } ∷ [];
    }

    unfoldable pub verify_entries : S → String → List FileEntry → VerifyReport → VerifyReport
    verify_entries s id [] r = r
    verify_entries s id (entry ∷ rest) r =
        verify_entries s id rest (count_verified entry (verify_file s id entry) r)

    unfoldable pub verify : S → Snapshot → VaultResult VerifyReport
    unfolding verify_entries
    verify s snapshot = ok (
        verify_entries s snapshot.id snapshot.entries
          (record { files_ok = 0; files_failed = 0; errors = [] }))
