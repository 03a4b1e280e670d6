-- ===== src/RestoreEngine/Kept.antt =====
-- What a restore leaves alone.
use open_vault.Common.{
  ℕ, zero, suc, ◌+◌, ◌≡◌, ◌≢◌, refl, ap, ◌∙◌, inl, inr, String, Bool, true, false, List, [], ◌∷◌,
  arith, Bool-cases, string_eq,
}
use open_vault.Vault.{Bytes, VaultResult, ok, err, Snapshot, FileEntry}
use open_vault.Fs.{Fs, join, read, write, exists, create_dir_all}
use open_vault.Fs.Laws.{read-write_ne, exists-write_ne}
use open_vault.RestoreEngine.{
  ConflictStrategy, skip, overwrite, rename, fail, RestoreOptions, RestoreReport, no_files,
  RestoreEngine, try_names, resolve_conflict, ensure_parent, fetch, put_file, after_fetch,
  after_parent, after_resolve, restore_file, count_restored, filtered_out, restore_entry,
  restore_entries, restore, after_target, decryption_failed,
}

abbrev pub is_overwrite : ConflictStrategy → Bool
is_overwrite skip = false
is_overwrite overwrite = true
is_overwrite rename = false
is_overwrite fail = false

module _ (digits : ℕ → String) where
  try_names-free :
      (fs : Fs) (target : String) (rounds counter : ℕ) (path : String)
      → try_names digits fs target rounds counter ≡ ok path
      → exists fs path ≡ false
  unfolding try_names
  try_names-free fs target zero counter path e = absurd (ground arith)
  try_names-free fs target (suc rounds) counter path e =
      ground (arith, try_names-free fs target rounds (counter + 1) path)

  resolve_conflict-free :
      (fs : Fs) (target : String) (strategy : ConflictStrategy) (path : String)
      → is_overwrite strategy ≡ false
      → resolve_conflict digits fs target strategy ≡ ok path
      → exists fs path ≡ false
  unfolding resolve_conflict
  resolve_conflict-free fs target skip path s e = ground arith
  resolve_conflict-free fs target overwrite path s e = absurd (ground arith)
  resolve_conflict-free fs target rename path s e =
      ground (arith, try_names-free fs target 1000 1 path)
  resolve_conflict-free fs target fail path s e = ground arith

  module _ (sha256 : Bytes → String) {S : Type 0} (engine : RestoreEngine S) (p : String) where
    -- The file at `p` is there and reads as before.
    abbrev Same : Fs → Fs → Type 0
    Same fs fs' = (exists fs' p ≡ true) × (read fs' p ≡ read fs p)

    write-Same :
        (fs : Fs) (path : String) (bytes : Bytes)
        → exists fs path ≡ false
        → exists fs p ≡ true
        → Same fs (write fs path bytes).1
    write-Same fs path bytes free there =
        let apart : path ≢ p = λ e. cc (free, there, ap (exists fs) e) in
        (exists-write_ne fs path bytes p apart ∙ there, read-write_ne fs path bytes p apart)

    put_file-Same :
        (target path : String) (bytes : Bytes) (report : RestoreReport) (fs : Fs)
        → exists fs path ≡ false
        → exists fs p ≡ true
        → Same fs (put_file digits sha256 engine target path bytes report fs).2
    unfolding put_file
    put_file-Same target path bytes report fs free there =
        ground (arith, write-Same fs path bytes free there)

    after_fetch-Same :
        (verify : Bool) (entry : FileEntry) (target path : String) (report : RestoreReport)
        (fs : Fs) (r : VaultResult Bytes)
        → exists fs path ≡ false
        → exists fs p ≡ true
        → Same fs (after_fetch digits sha256 engine verify entry target path report fs r).2
    after_fetch-Same verify entry target path report fs (err e) free there = (there, refl)
    after_fetch-Same verify entry target path report fs (ok bytes) free there =
        ground (arith, put_file-Same target path bytes report fs free there)

    after_parent-Same :
        (made : VaultResult (Unit {0})) (report : RestoreReport) (fs : Fs)
        (r : VaultResult ℕ × RestoreReport × Fs)
        → exists fs p ≡ true
        → Same fs r.2
        → Same fs (after_parent digits sha256 engine made report fs r).2
    after_parent-Same (err e) report fs r there same = (there, refl)
    after_parent-Same (ok u) report fs r there same = same

    after_resolve-Same :
        (s : S) (id : String) (entry : FileEntry) (options : RestoreOptions)
        (report : RestoreReport) (fs : Fs) (r : VaultResult String)
        → is_overwrite options.conflict ≡ false
        → resolve_conflict digits fs (join options.target entry.path) options.conflict ≡ r
        → exists fs p ≡ true
        → Same fs (after_resolve digits sha256 engine s id entry options report fs r).2
    after_resolve-Same s id entry options report fs (err e) careful at there = (there, refl)
    after_resolve-Same s id entry options report fs (ok path) careful at there =
        after_parent-Same (ensure_parent digits fs path) report fs _ there (
          after_fetch-Same options.verify_checksums entry (join options.target entry.path) path
            report fs
            (fetch digits sha256 engine (decryption_failed digits sha256 engine entry) s id entry)
            (resolve_conflict-free fs (join options.target entry.path) options.conflict path careful
              at)
            there)

    count_restored-Same :
        (entry : FileEntry) (fs : Fs) (r : VaultResult ℕ × RestoreReport × Fs)
        → Same fs r.2
        → Same fs (count_restored digits sha256 engine entry r).1
    count_restored-Same entry fs (ok n, report, fs') same = same
    count_restored-Same entry fs (err e, report, fs') same = same

    module _ (s : S) (id : String) (options : RestoreOptions)
        (careful : is_overwrite options.conflict ≡ false) where
      restore_entry-Same :
          (entry : FileEntry) (report : RestoreReport) (fs : Fs)
          → exists fs p ≡ true
          → Same fs (restore_entry digits sha256 engine s id options entry (report, fs)).1
      unfolding restore_entry
      restore_entry-Same entry report fs there =
          elim (Bool-cases (filtered_out digits sha256 engine options entry)) [
            | inl out ↦ rw out (there, refl)
            | inr in_ ↦ rw in_ (
                count_restored-Same entry fs
                  (restore_file digits sha256 engine s id entry options report fs)
                  (after_resolve-Same s id entry options report fs _ careful refl there))
          ]

      restore_entries-Same :
          (entries : List FileEntry) (r : RestoreReport × Fs)
          → exists r.1 p ≡ true
          → Same r.1 (restore_entries digits sha256 engine s id options entries r).1
      unfolding restore_entries
      restore_entries-Same [] r there = (there, refl)
      restore_entries-Same (entry ∷ rest) (report, fs) there =
          let (kept, same) = restore_entry-Same entry report fs there in
          let (still, same') =
            restore_entries-Same rest
              (restore_entry digits sha256 engine s id options entry (report, fs)) kept in
          (still, same' ∙ same)

    after_target-Same :
        (s : S) (snapshot : Snapshot) (options : RestoreOptions) (fs : Fs)
        (r : VaultResult (Unit {0}))
        → is_overwrite options.conflict ≡ false
        → exists fs p ≡ true
        → Same fs (after_target digits sha256 engine s snapshot options fs r).1
    after_target-Same s snapshot options fs (err e) careful there = (there, refl)
    after_target-Same s snapshot options fs (ok u) careful there =
        restore_entries-Same s snapshot.id options careful snapshot.entries (no_files, fs) there

  -- With the strategies Skip, Rename and Fail a restore changes no file that is there before,
  -- whatever the storage returns: it is there afterwards and reads the same.
  pub restore-kept :
      (sha256 : Bytes → String) {S : Type 0} (engine : RestoreEngine S) (s : S)
      (snapshot : Snapshot) (options : RestoreOptions) (fs : Fs) (p : String)
      → is_overwrite options.conflict ≡ false
      → exists fs p ≡ true
      → let fs' = (restore digits sha256 engine s snapshot options fs).1 in
        (exists fs' p ≡ true) × (read fs' p ≡ read fs p)
  unfolding restore
  restore-kept sha256 engine s snapshot options fs p careful there =
      after_target-Same sha256 engine p s snapshot options fs (create_dir_all fs options.target)
        careful there
