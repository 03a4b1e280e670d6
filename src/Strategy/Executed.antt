-- ===== src/Strategy/Executed.antt =====
-- What any of the three strategies has stored where it succeeds.
use open_vault.Common.{
  ℕ, ◌≡◌, ◌⊎◌, refl, sym, ap, ◌∙◌, subst, inl, inr, String, Bool, true, false, some, none, Option,
  List, [], arith, All, Option-cases,
}
use open_vault.Common.Map
use open_vault.Common.Map.{Map}
use open_vault.Vault.{
  Bytes, Time, VaultError, VaultResult, VaultResult-cases, ok, err, VaultStorage, StorageLaws,
  Snapshot, FileEntry, full, incremental, differential,
}
use open_vault.Vault.Snapshots.{BackupStrategy}
use open_vault.Strategy.Source.{SourceFile, collect_files}
use open_vault.Strategy.{
  BackupConfig, World, is_changed, after_collect, fresh, previous_files, parent_of, base_files,
  full_backup, incremental_backup, differential_backup, execute,
}
use open_vault.Strategy.Stored.{Distinct, OnOk-out, Backed, Finished, after_collect-Finished}

some-pair :
    {S : Type 0} {r : VaultResult Snapshot × S} {x : VaultResult Snapshot} {s : S}
    → some r ≡ some (x, s)
    → (r.0 ≡ x) × (r.1 ≡ s)
some-pair e = (cc, cc)

refused :
    {S : Type 0} {r : VaultResult Snapshot × S} {x : VaultError} {out : Snapshot} {s s' : S}
    → some r ≡ some (ok out, s')
    → r ≡ (err x, s)
    → ⊥
refused e f = ground (arith, e, f)

never :
    {S : Type 0} {out : Snapshot} {s : S}
    → (◌≡◌ {A = Option (VaultResult Snapshot × S)} none (some (ok out, s)))
    → ⊥
never e = ground (arith, e)

module _ {S : Type 0} (sha256 : Bytes → String) (ops : VaultStorage S)
    (laws : StorageLaws ops) where
  -- Every file that passes the test is stored under the snapshot, which can be loaded.
  abbrev Result : (SourceFile → Bool) → List SourceFile → Snapshot → S → Type 0
  Result changed files out s =
      All (λ (f : SourceFile). (changed f ≡ false) ⊎ Backed sha256 ops out.id f out s) files
      × (ops.load_snapshot s out.id ≡ ok out)

  collected-Result :
      (changed : SourceFile → Bool) (snapshot : Snapshot) (s : S) (files : List SourceFile)
      (out : Snapshot) (s' : S)
      → Distinct files
      → some (after_collect sha256 ops changed snapshot s (ok files)) ≡ some (ok out, s')
      → Result changed files out s'
  unfolding Finished
  collected-Result changed snapshot s files out s' distinct e =
      let r = after_collect sha256 ops changed snapshot s (ok files) in
      let (at, state) = some-pair {r = r} e in
      let (same, backed, loaded) =
        OnOk-out (Finished sha256 ops changed laws snapshot.id files) r out at
          (after_collect-Finished sha256 ops changed laws snapshot s files distinct) in
      subst (Result changed files out) state (
        subst
            (λ (id : String).
              All (λ (f : SourceFile). (changed f ≡ false) ⊎ Backed sha256 ops id f out r.1) files)
            (sym same) backed,
        subst (λ (id : String). ops.load_snapshot r.1 id ≡ ok out) (sym same) loaded,
      )

  module _ (format_id : Time → ℕ → String) (config : BackupConfig) where
    abbrev base_of : VaultResult (Option Snapshot) → Option (VaultResult (Map FileEntry))
    base_of (err e) = some (err e)
    base_of (ok base) = some (ok (base_files sha256 ops format_id config base))

    abbrev parent_files :
        ℕ → S → VaultResult (Option Snapshot) → Option (VaultResult (Map FileEntry))
    parent_files fuel s (err e) = some (err e)
    parent_files fuel s (ok parent) = previous_files sha256 ops format_id config fuel s parent

    -- What a strategy compares the files with: nothing, the chain of the latest snapshot of the
    -- source, or its latest full snapshot.
    abbrev pub baseline : BackupStrategy → ℕ → S → Option (VaultResult (Map FileEntry))
    baseline full fuel s = some (ok [])
    baseline incremental fuel s = parent_files fuel s (ops.latest_snapshot s config.source)
    baseline differential fuel s = base_of (ops.latest_full_snapshot s config.source)

    module _ (fuel : ℕ) (w : World) (s : S) (files : List SourceFile) (out : Snapshot) (s' : S)
        (collected : collect_files w.tree config.exclude ≡ ok files)
        (distinct : Distinct files) where
      abbrev Goal : BackupStrategy → Type 0
      Goal how =
          (previous : Map FileEntry) × (baseline how fuel s ≡ some (ok previous))
          × All
              (λ (f : SourceFile).
                (is_changed previous f ≡ false) ⊎ Backed sha256 ops out.id f out s')
              files
          × (ops.load_snapshot s' out.id ≡ ok out)

      full-Goal : some (full_backup sha256 ops format_id config w s) ≡ some (ok out, s') → Goal full
      unfolding full_backup is_changed Map.get
      full-Goal e =
          let (backed, loaded) =
            collected-Result (λ _. true) (fresh sha256 ops format_id config full w s none) s files
              out s' distinct
              (subst
                (λ (r : VaultResult (List SourceFile)).
                  some (
                    after_collect sha256 ops (λ _. true)
                      (fresh sha256 ops format_id config full w s none) s r)
                  ≡ some (ok out, s'))
                collected e) in
          ([], refl, backed, loaded)

      differential-step :
          (base : Option Snapshot)
          → ops.latest_full_snapshot s config.source ≡ ok base
          → differential_backup sha256 ops format_id config w s
            ≡ after_collect sha256 ops
                (is_changed (base_files sha256 ops format_id config base))
                (fresh sha256 ops format_id config differential w s
                  (parent_of sha256 ops format_id config base))
                s
                (ok files)
      unfolding differential_backup
      differential-step base at = ground arith

      differential-failed :
          (x : VaultError)
          → ops.latest_full_snapshot s config.source ≡ err x
          → differential_backup sha256 ops format_id config w s ≡ (err x, s)
      unfolding differential_backup
      differential-failed x at = ground arith

      incremental-step :
          (parent : Option Snapshot) (previous : Map FileEntry)
          → ops.latest_snapshot s config.source ≡ ok parent
          → previous_files sha256 ops format_id config fuel s parent ≡ some (ok previous)
          → incremental_backup sha256 ops format_id config fuel w s
            ≡ some (
                after_collect sha256 ops
                  (is_changed previous)
                  (fresh sha256 ops format_id config incremental w s
                    (parent_of sha256 ops format_id config parent))
                  s
                  (ok files))
      unfolding incremental_backup
      incremental-step parent previous at read = ground arith

      -- Where it cannot read what it compares with, there is no snapshot.
      incremental-failed :
          (x : VaultError)
          → ops.latest_snapshot s config.source ≡ err x
          → incremental_backup sha256 ops format_id config fuel w s ≡ some (err x, s)
      unfolding incremental_backup
      incremental-failed x at = ground arith

      incremental-broken :
          (parent : Option Snapshot) (x : VaultError)
          → ops.latest_snapshot s config.source ≡ ok parent
          → previous_files sha256 ops format_id config fuel s parent ≡ some (err x)
          → incremental_backup sha256 ops format_id config fuel w s ≡ some (err x, s)
      unfolding incremental_backup
      incremental-broken parent x at read = ground arith

      incremental-lost :
          (parent : Option Snapshot)
          → ops.latest_snapshot s config.source ≡ ok parent
          → previous_files sha256 ops format_id config fuel s parent ≡ none
          → incremental_backup sha256 ops format_id config fuel w s ≡ none
      unfolding incremental_backup
      incremental-lost parent at read = ground arith

      differential-Goal :
          some (differential_backup sha256 ops format_id config w s) ≡ some (ok out, s')
          → Goal differential
      differential-Goal e = elim (VaultResult-cases (ops.latest_full_snapshot s config.source)) [
        | inr (x, at) ↦ absurd (refused e (differential-failed x at))
        | inl (base, at) ↦
            let previous = base_files sha256 ops format_id config base in
            let (backed, loaded) =
              collected-Result (is_changed previous)
                (fresh sha256 ops format_id config differential w s
                  (parent_of sha256 ops format_id config base))
                s files out s' distinct (sym (ap some (differential-step base at)) ∙ e) in
            (previous, ap base_of at, backed, loaded)
      ]

      read-Goal :
          (parent : Option Snapshot) (previous : Map FileEntry)
          → ops.latest_snapshot s config.source ≡ ok parent
          → previous_files sha256 ops format_id config fuel s parent ≡ some (ok previous)
          → incremental_backup sha256 ops format_id config fuel w s ≡ some (ok out, s')
          → Goal incremental
      read-Goal parent previous at read e =
          let (backed, loaded) =
            collected-Result (is_changed previous)
              (fresh sha256 ops format_id config incremental w s
                (parent_of sha256 ops format_id config parent))
              s files out s' distinct (sym (incremental-step parent previous at read) ∙ e) in
          (previous, ap (parent_files fuel s) at ∙ read, backed, loaded)

      incremental-Goal :
          incremental_backup sha256 ops format_id config fuel w s ≡ some (ok out, s')
          → Goal incremental
      incremental-Goal e = elim (VaultResult-cases (ops.latest_snapshot s config.source)) [
        | inr (x, at) ↦ absurd (refused (sym (incremental-failed x at) ∙ e) refl)
        | inl (parent, at) ↦
            elim (Option-cases (previous_files sha256 ops format_id config fuel s parent)) [
              | inl lost ↦ absurd (never (sym (incremental-lost parent at lost) ∙ e))
              | inr (r, read) ↦ elim (VaultResult-cases r) [
                | inr (x, bad) ↦
                    absurd
                      (refused (sym (incremental-broken parent x at (read ∙ ap some bad)) ∙ e) refl)
                | inl (previous, good) ↦ read-Goal parent previous at (read ∙ ap some good) e
              ]
            ]
      ]

  -- Where a backup of files with different paths succeeds, whichever the strategy is, it could read
  -- what it compares with, and every file that was collected either has there an entry with its
  -- size and its time, or the storage returns for it the bytes that it held, and the snapshot lists
  -- it with its size, its time and the checksum of these bytes. The snapshot is loaded by its id.
  pub execute-Backed :
      (format_id : Time → ℕ → String) (config : BackupConfig) (how : BackupStrategy) (fuel : ℕ)
      (w : World) (s : S) (files : List SourceFile) (out : Snapshot) (s' : S)
      → collect_files w.tree config.exclude ≡ ok files
      → Distinct files
      → execute sha256 ops format_id config how fuel w s ≡ some (ok out, s')
      → (previous : Map FileEntry) × (baseline format_id config how fuel s ≡ some (ok previous))
        × All
            (λ (f : SourceFile).
              (is_changed previous f ≡ false) ⊎ Backed sha256 ops out.id f out s')
            files
        × (ops.load_snapshot s' out.id ≡ ok out)
  unfolding execute
  execute-Backed format_id config full fuel w s files out s' collected distinct e =
      full-Goal format_id config fuel w s files out s' collected distinct e
  execute-Backed format_id config incremental fuel w s files out s' collected distinct e =
      incremental-Goal format_id config fuel w s files out s' collected distinct e
  execute-Backed format_id config differential fuel w s files out s' collected distinct e =
      differential-Goal format_id config fuel w s files out s' collected distinct e
