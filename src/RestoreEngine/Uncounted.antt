-- ===== src/RestoreEngine/Uncounted.antt =====
-- What `restore_file` leaves alone of the report: its caller counts.
use open_vault.Common.{ℕ, ◌≡◌, refl, String, Bool, arith, string_eq}
use open_vault.Vault.{Bytes, VaultResult, ok, err, FileEntry}
use open_vault.Fs.{Fs, join}
use open_vault.RestoreEngine.{
  RestoreOptions, RestoreReport, RestoreEngine, ensure_parent, fetch, put_file, after_fetch,
  after_parent, after_resolve, restore_file, decryption_failed,
}

module _ (digits : ℕ → String) (sha256 : Bytes → String) {S : Type 0}
    (engine : RestoreEngine S) where
  -- `restore_file` counts neither restored files nor errors: its caller does.
  abbrev pub Uncounted : RestoreReport → RestoreReport → Type 0
  Uncounted r r' = (r'.files_restored ≡ r.files_restored) × (r'.errors ≡ r.errors)

  put_file-Uncounted :
      (target path : String) (bytes : Bytes) (report : RestoreReport) (fs : Fs)
      → Uncounted report (put_file digits sha256 engine target path bytes report fs).1
  unfolding put_file
  put_file-Uncounted target path bytes report fs = ground arith

  after_fetch-Uncounted :
      (verify : Bool) (entry : FileEntry) (target path : String) (report : RestoreReport) (fs : Fs)
      (r : VaultResult Bytes)
      → Uncounted report (after_fetch digits sha256 engine verify entry target path report fs r).1
  after_fetch-Uncounted verify entry target path report fs (err e) = (refl, refl)
  after_fetch-Uncounted verify entry target path report fs (ok bytes) =
      ground (arith, put_file-Uncounted target path bytes report fs)

  after_parent-Uncounted :
      (made : VaultResult (Unit {0})) (report : RestoreReport) (fs : Fs)
      (r : VaultResult ℕ × RestoreReport × Fs)
      → Uncounted report r.1
      → Uncounted report (after_parent digits sha256 engine made report fs r).1
  after_parent-Uncounted (err e) report fs r same = (refl, refl)
  after_parent-Uncounted (ok u) report fs r same = same

  after_resolve-Uncounted :
      (s : S) (id : String) (entry : FileEntry) (options : RestoreOptions) (report : RestoreReport)
      (fs : Fs) (r : VaultResult String)
      → Uncounted report (after_resolve digits sha256 engine s id entry options report fs r).1
  after_resolve-Uncounted s id entry options report fs (err e) = (refl, refl)
  after_resolve-Uncounted s id entry options report fs (ok path) =
      after_parent-Uncounted (ensure_parent digits fs path) report fs _ (
        after_fetch-Uncounted options.verify_checksums entry (join options.target entry.path) path
          report fs
          (fetch digits sha256 engine (decryption_failed digits sha256 engine entry) s id entry))

  pub restore_file-Uncounted :
      (s : S) (id : String) (entry : FileEntry) (options : RestoreOptions) (report : RestoreReport)
      (fs : Fs)
      → Uncounted report (restore_file digits sha256 engine s id entry options report fs).1
  unfolding restore_file
  restore_file-Uncounted s id entry options report fs =
      after_resolve-Uncounted s id entry options report fs _
