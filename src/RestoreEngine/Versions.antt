-- ===== src/RestoreEngine/Versions.antt =====
-- The versions of a file over the snapshots of a storage.
use open_vault.Common.{
  ℕ, ◌≤◌, ◌≡◌, refl, sym, ap, ◌∙◌, inl, inr, String, Option, none, some, List, [], ◌∷◌, ◌++◌,
  Bool-cases, if◌then◌else◌, ◌==◌, string_eq, eq_iff, find, first, All, All-imp, All-split, Any,
  Any-split, ◌⊎◌,
}
use open_vault.Common.Sort.{greatest_first, greatest_first-Top, Top}
use open_vault.Vault.{
  text, Bytes, VaultError, VaultResult, ok, err, ◌>>=◌, VaultStorage, Snapshot, FileEntry,
  BackupEntry,
}
use open_vault.Fs.{Fs}
use open_vault.RestoreEngine.{RestoreOptions, RestoreReport, no_files, RestoreEngine, restore_file}

-- The inner loop of `list_versions`.
abbrev version : Snapshot → FileEntry → BackupEntry
version snapshot entry = record {
  snapshot_id = snapshot.id;
  file_entry = entry;
  created_at = snapshot.created_at;
  strategy = snapshot.strategy;
}

unfoldable pub versions_in : String → Snapshot → List FileEntry → List BackupEntry
versions_in path snapshot [] = []
versions_in path snapshot (entry ∷ rest) =
    let more = versions_in path snapshot rest in
    if entry.path == path then version snapshot entry ∷ more else more

unfoldable pub all_versions : String → List Snapshot → List BackupEntry
unfolding versions_in
all_versions path [] = []
all_versions path (s ∷ rest) = versions_in path s s.entries ++ all_versions path rest

module _ {S : Type 0} (ops : VaultStorage S) where
  unfoldable pub list_versions : S → String → VaultResult (List BackupEntry)
  unfolding all_versions
  list_versions s path = do
    snapshots ← ops.list_snapshots s
    ok (greatest_first (λ (v : BackupEntry). v.created_at) (all_versions path snapshots))

  unfoldable pub find_latest_version : S → String → VaultResult (Option BackupEntry)
  unfolding list_versions
  find_latest_version s path = do versions ← list_versions s path; ok (first versions)

module _ (digits : ℕ → String) (sha256 : Bytes → String) {S : Type 0}
    (engine : RestoreEngine S) where
  abbrev report_one : VaultResult ℕ × RestoreReport × Fs → VaultResult RestoreReport × Fs
  report_one (err e, report, fs) = (err e, fs)
  report_one (ok _, report, fs) = (ok (record report { files_restored = 1 }), fs)

  abbrev restore_found :
      S
      → RestoreOptions
      → Fs
      → Snapshot
      → String
      → String
      → Option FileEntry
      → VaultResult RestoreReport × Fs
  restore_found s options fs snapshot path id none = (
    err (
        VaultError.restore_failed
          (text "File " ∷ text path ∷ text " not found in snapshot " ∷ text id ∷ [])),
    fs,
  )
  restore_found s options fs snapshot path id (some entry) =
      report_one (restore_file digits sha256 engine s snapshot.id entry options no_files fs)

  abbrev in_snapshot :
      S → String → String → RestoreOptions → Fs → Option Snapshot → VaultResult RestoreReport × Fs
  in_snapshot s path id options fs none = (err (VaultError.snapshot_not_found id), fs)
  in_snapshot s path id options fs (some snapshot) =
      restore_found s options fs snapshot path id
        (find (λ (e : FileEntry). e.path == path) snapshot.entries)

  unfoldable pub restore_version :
      S → String → String → RestoreOptions → Fs → VaultResult RestoreReport × Fs
  restore_version s path id options fs = elim (engine.storage.list_snapshots s) [
    | err e ↦ (err e, fs)
    | ok snapshots ↦
        in_snapshot s path id options fs (find (λ (x : Snapshot). x.id == id) snapshots)
  ]

module _ (path : String) where
  abbrev Unlisted : Snapshot → Type 0
  Unlisted snap = find (λ (e : FileEntry). e.path == path) snap.entries ≡ none

  versions_in-All :
      (P : BackupEntry → Type 0) (snap : Snapshot) (es : List FileEntry)
      → All P (versions_in path snap es)
      → (find (λ (e : FileEntry). e.path == path) es ≡ none)
        ⊎ ((e : FileEntry) × P (version snap e))
  unfolding versions_in
  versions_in-All P snap [] h = inl refl
  versions_in-All P snap (e ∷ es) h = elim (Bool-cases (e.path == path)) [
    | inl here ↦ inr (e, (rw here at h).0)
    | inr other ↦ rw other (versions_in-All P snap es (rw other at h))
  ]

  all_versions-All :
      (P : BackupEntry → Type 0) (snaps : List Snapshot)
      → All P (all_versions path snaps)
      → All (λ (s : Snapshot). Unlisted s ⊎ ((e : FileEntry) × P (version s e))) snaps
  unfolding all_versions
  all_versions-All P [] h = tt
  all_versions-All P (s ∷ rest) h =
      let (here, later) = All-split P (versions_in path s s.entries) (all_versions path rest) h in
      (versions_in-All P s s.entries here, all_versions-All P rest later)

  -- A version is an entry of a snapshot, with the path.
  abbrev VersionOf : BackupEntry → Snapshot → Type 0
  VersionOf v snap =
      (v.snapshot_id ≡ snap.id)
      × (v.created_at ≡ snap.created_at)
      × Any (λ (e : FileEntry). e ≡ v.file_entry) snap.entries

  first_case :
      (x v : BackupEntry) (xs : List BackupEntry)
      → Any (λ (w : BackupEntry). w ≡ v) (x ∷ xs)
      → (x ≡ v) ⊎ Any (λ (w : BackupEntry). w ≡ v) xs
  first_case x v xs h = h

  versions_in-Any :
      (v : BackupEntry) (snap : Snapshot) (es : List FileEntry)
      → Any (λ (w : BackupEntry). w ≡ v) (versions_in path snap es)
      → (v.snapshot_id ≡ snap.id)
        × (v.created_at ≡ snap.created_at)
        × (v.file_entry.path ≡ path)
        × Any (λ (e : FileEntry). e ≡ v.file_entry) es
  unfolding versions_in
  versions_in-Any v snap [] h = elim h [ ]
  versions_in-Any v snap (e ∷ es) h = elim (Bool-cases (e.path == path)) [
    | inr other ↦
        let (id, time, at, listed) = versions_in-Any v snap es (rw other at h) in
        (id, time, at, inr listed)
    | inl here ↦ elim (first_case (version snap e) v (versions_in path snap es) (rw here at h)) [
      | inl same ↦ (
        ap (λ (w : BackupEntry). w.snapshot_id) (sym same),
        ap (λ (w : BackupEntry). w.created_at) (sym same),
        ap (λ (w : BackupEntry). w.file_entry.path) (sym same) ∙ (eq_iff e.path path).0 here,
        inl (ap (λ (w : BackupEntry). w.file_entry) same),
      )
      | inr later ↦
          let (id, time, at, listed) = versions_in-Any v snap es later in (id, time, at, inr listed)
    ]
  ]

  all_versions-Any :
      (v : BackupEntry) (snaps : List Snapshot)
      → Any (λ (w : BackupEntry). w ≡ v) (all_versions path snaps)
      → (v.file_entry.path ≡ path) × Any (VersionOf v) snaps
  unfolding all_versions
  all_versions-Any v [] h = elim h [ ]
  all_versions-Any v (s ∷ rest) h = elim (Any-split _ (versions_in path s s.entries) _ h) [
    | inl here ↦
        let (id, time, at, listed) = versions_in-Any v s s.entries here in
        (at, inl (id, time, listed))
    | inr later ↦ let (at, listed) = all_versions-Any v rest later in (at, inr listed)
  ]

  -- The file is in no snapshot, or the version is one that a snapshot lists, and every snapshot
  -- that lists the file is at most as new.
  abbrev pub Newest : List Snapshot → Option BackupEntry → Type 0
  Newest snaps none = All Unlisted snaps
  Newest snaps (some v) =
      (v.file_entry.path ≡ path)
      × Any (VersionOf v) snaps
      × All (λ (s : Snapshot). Unlisted s ⊎ (s.created_at ≤ v.created_at)) snaps

  Top-Newest :
      (snaps : List Snapshot) (latest : Option BackupEntry)
      → Top (λ (v : BackupEntry). v.created_at) (all_versions path snaps) latest
      → Newest snaps latest
  unfolding Top
  Top-Newest snaps none e =
      All-imp
        (λ (s : Snapshot) (h : Unlisted s ⊎ ((e : FileEntry) × ⊥)). elim h [
          | inl u ↦ u
          | inr x ↦ absurd x.1
        ])
        snaps (all_versions-All (λ _. ⊥) snaps (rw e tt))
  Top-Newest snaps (some v) (there, below) =
      let (at, listed) = all_versions-Any v snaps there in
      (
        at,
        listed,
        All-imp
            (λ (s : Snapshot) (h : Unlisted s ⊎ ((e : FileEntry) × (s.created_at ≤ v.created_at))).
              elim h [ inl u ↦ inl u | inr x ↦ inr x.1 ])
            snaps (all_versions-All (λ (w : BackupEntry). w.created_at ≤ v.created_at) snaps below),
      )

-- Where the snapshots can be listed, `find_latest_version` returns none exactly where no snapshot
-- lists the file, and else an entry of a snapshot with this path, such that no snapshot that lists
-- the file is newer.
pub find_latest_version-Newest :
    {S : Type 0} (ops : VaultStorage S) (s : S) (path : String) (snaps : List Snapshot)
    → ops.list_snapshots s ≡ ok snaps
    → (latest : Option BackupEntry) × (find_latest_version ops s path ≡ ok latest)
      × Newest path snaps latest
unfolding find_latest_version
find_latest_version-Newest ops s path snaps e = (
  _,
  rw e refl,
  Top-Newest path snaps _
      (greatest_first-Top (λ (v : BackupEntry). v.created_at) (all_versions path snaps)),
)
