-- ===== src/RestoreEngine/Counts.antt =====
-- What the report of a restore counts.
use mathlib.Core.List.{append_assoc, append-nil}
use open_vault.Common.{
  ℕ, ◌+◌, ◌<◌, ◌^◌, ◌≡◌, refl, ◌∙◌, inl, inr, String, Bool, true, false, not, sym, ap, subst, ◌++◌,
  map, List, [], ◌∷◌, arith, Bool-cases, if◌then◌else◌, string_eq, length, filter, length-map,
  map-append,
}
use open_vault.Vault.{Bytes, VaultResult, ok, err, is_ok, display, Snapshot, FileEntry}
use open_vault.Fs.{Fs, create_dir_all}
use open_vault.RestoreEngine.Uncounted.{Uncounted, restore_file-Uncounted}
use open_vault.RestoreEngine.{
  RestoreOptions, RestoreError, RestoreReport, no_files, RestoreEngine, restore_file,
  count_restored, filtered_out, restore_entry, restore_entries, restore,
}

module _ (digits : ℕ → String) (sha256 : Bytes → String) {S : Type 0}
    (engine : RestoreEngine S) where
  -- The entries that the filter lets through.
  abbrev pub wanted : RestoreOptions → List FileEntry → List FileEntry
  wanted options = filter (λ (e : FileEntry). not (filtered_out digits sha256 engine options e))

  -- A file that the filter lets through, and whether `restore_file` succeeds on it.
  abbrev pub Attempt : Type 0
  Attempt = FileEntry × Bool

  module _ (s : S) (id : String) (options : RestoreOptions) where
    -- The attempts on the entries, each behind what the ones before it have left.
    pub attempts : List FileEntry → RestoreReport × Fs → List Attempt
    attempts [] r = []
    attempts (entry ∷ rest) (report, fs) =
        let later =
          attempts rest (restore_entry digits sha256 engine s id options entry (report, fs)) in
        let done = is_ok (restore_file digits sha256 engine s id entry options report fs).0 in
        if filtered_out digits sha256 engine options entry then later else (entry, done) ∷ later

  abbrev pub succeeded : List Attempt → List Attempt
  succeeded = filter (λ (a : Attempt). a.1)

  abbrev pub failed_paths : List Attempt → List String
  failed_paths tries = map (λ (a : Attempt). a.0.path) (filter (λ (a : Attempt). not a.1) tries)

  abbrev pub error_paths : RestoreReport → List String
  error_paths r = map (λ (e : RestoreError). e.path) r.errors

  -- What the attempts add to a report.
  Counted : RestoreReport → List Attempt → RestoreReport → Type 0
  Counted r tries r' =
      (r'.files_restored ≡ r.files_restored + length (succeeded tries))
      × (error_paths r' ≡ error_paths r ++ failed_paths tries)

  count_restored-Counted :
      (entry : FileEntry) (report : RestoreReport) (r : VaultResult ℕ × RestoreReport × Fs)
      → report.files_restored + 1 < 2 ^ 32
      → Uncounted digits sha256 engine report r.1
      → Counted report ((entry, is_ok r.0) ∷ []) (count_restored digits sha256 engine entry r).0
  unfolding Counted
  count_restored-Counted entry report (ok n, report', fs) small (n_same, same) = (
    omega (arith, n_same),
    ap (map (λ (e : RestoreError). e.path)) same ∙ sym (append-nil (error_paths report)),
  )
  count_restored-Counted entry report (err e, report', fs) small (n_same, same) =
      let added : RestoreError = record { path = entry.path; message = display e } in
      (
        omega (arith, n_same),
        map-append (λ (e : RestoreError). e.path) report'.errors (added ∷ [])
            ∙ ap
                (λ (l : List RestoreError). map (λ (e : RestoreError). e.path) l ++ entry.path ∷ [])
                same,
      )

  Counted-cons :
      (a : Attempt) (tries : List Attempt) (r r' r'' : RestoreReport)
      → Counted r (a ∷ []) r'
      → Counted r' tries r''
      → Counted r (a ∷ tries) r''
  unfolding Counted
  Counted-cons (entry, true) tries r r' r'' (n, p) (m, q) = (
    omega (arith, n, m),
    q ∙ ap (λ (l : List String). l ++ failed_paths tries) (p ∙ append-nil (error_paths r)),
  )
  Counted-cons (entry, false) tries r r' r'' (n, p) (m, q) = (
    omega (arith, n, m),
    q
        ∙ ap (λ (l : List String). l ++ failed_paths tries) p
        ∙ append_assoc (error_paths r) (entry.path ∷ []) (failed_paths tries),
  )

  length-succeeded :
      (tries : List Attempt) → length (succeeded tries) + length (failed_paths tries) ≡ length tries
  length-succeeded [] = omega arith
  length-succeeded ((entry, true) ∷ tries) = omega (arith, length-succeeded tries)
  length-succeeded ((entry, false) ∷ tries) = omega (arith, length-succeeded tries)

  module _ (s : S) (id : String) (options : RestoreOptions) where
    attempted :
        (entries : List FileEntry) (r : RestoreReport × Fs)
        → map (λ (a : Attempt). a.0) (attempts s id options entries r) ≡ wanted options entries
    unfolding attempts
    attempted [] r = refl
    attempted (entry ∷ rest) (report, fs) =
        let r = restore_entry digits sha256 engine s id options entry (report, fs) in
        elim (Bool-cases (filtered_out digits sha256 engine options entry)) [
          | inl out ↦ rw out (attempted rest r)
          | inr in_ ↦ rw in_ (ap (λ (l : List FileEntry). entry ∷ l) (attempted rest r))
        ]

    restore_entry-out :
        (entry : FileEntry) (report : RestoreReport) (fs : Fs)
        → filtered_out digits sha256 engine options entry ≡ true
        → Counted report [] (restore_entry digits sha256 engine s id options entry (report, fs)).0
    unfolding restore_entry Counted
    restore_entry-out entry report fs out =
        rw out (omega arith, sym (append-nil (error_paths report)))

    restore_entry-in :
        (entry : FileEntry) (report : RestoreReport) (fs : Fs)
        → filtered_out digits sha256 engine options entry ≡ false
        → report.files_restored + 1 < 2 ^ 32
        → Counted report
            ((entry, is_ok (restore_file digits sha256 engine s id entry options report fs).0) ∷ [])
            (restore_entry digits sha256 engine s id options entry (report, fs)).0
    unfolding restore_entry
    restore_entry-in entry report fs in_ small = rw in_ (
        count_restored-Counted entry report
          (restore_file digits sha256 engine s id entry options report fs) small
          (restore_file-Uncounted digits sha256 engine s id entry options report fs))

    Counted-nil :
        (tries : List Attempt) (r r' r'' : RestoreReport)
        → Counted r [] r'
        → Counted r' tries r''
        → Counted r tries r''
    unfolding Counted
    Counted-nil tries r r' r'' (n, p) (m, q) = (
      omega (arith, n, m),
      q ∙ ap (λ (l : List String). l ++ failed_paths tries) (p ∙ append-nil (error_paths r)),
    )

    restored-few :
        (a : Attempt) (n : ℕ) (r r' : RestoreReport)
        → Counted r (a ∷ []) r'
        → r.files_restored + (n + 1) < 2 ^ 32
        → r'.files_restored + n < 2 ^ 32
    unfolding Counted
    restored-few (entry, true) n r r' c small = omega (arith, c.0)
    restored-few (entry, false) n r r' c small = omega (arith, c.0)

    restored-same :
        (n : ℕ) (r r' : RestoreReport)
        → Counted r [] r'
        → r.files_restored + (n + 1) < 2 ^ 32
        → r'.files_restored + n < 2 ^ 32
    unfolding Counted
    restored-same n r r' c small = omega (arith, c.0)

    attempts-nil : (r : RestoreReport × Fs) → attempts s id options [] r ≡ []
    unfolding attempts
    attempts-nil r = refl

    attempts-out :
        (entry : FileEntry) (rest : List FileEntry) (report : RestoreReport) (fs : Fs)
        → filtered_out digits sha256 engine options entry ≡ true
        → attempts s id options (entry ∷ rest) (report, fs)
          ≡ attempts s id options rest
              (restore_entry digits sha256 engine s id options entry (report, fs))
    unfolding attempts
    attempts-out entry rest report fs out = rw out refl

    attempts-in :
        (entry : FileEntry) (rest : List FileEntry) (report : RestoreReport) (fs : Fs)
        → filtered_out digits sha256 engine options entry ≡ false
        → attempts s id options (entry ∷ rest) (report, fs)
          ≡ (entry, is_ok (restore_file digits sha256 engine s id entry options report fs).0)
            ∷ attempts s id options rest
                (restore_entry digits sha256 engine s id options entry (report, fs))
    unfolding attempts
    attempts-in entry rest report fs in_ = rw in_ refl

    nothing-Counted : (r : RestoreReport) → Counted r [] r
    unfolding Counted
    nothing-Counted r = (omega arith, sym (append-nil (error_paths r)))

    restore_entries-Counted :
        (entries : List FileEntry) (r : RestoreReport × Fs)
        → r.0.files_restored + length entries < 2 ^ 32
        → Counted r.0
            (attempts s id options entries r)
            (restore_entries digits sha256 engine s id options entries r).0
    unfolding restore_entries
    restore_entries-Counted [] r small =
        subst (λ (list : List Attempt). Counted r.0 list r.0) (sym (attempts-nil r))
          (nothing-Counted r.0)
    restore_entries-Counted (entry ∷ rest) (report, fs) small =
        let r = restore_entry digits sha256 engine s id options entry (report, fs) in
        let tries = attempts s id options rest r in
        let end = (restore_entries digits sha256 engine s id options rest r).0 in
        elim (Bool-cases (filtered_out digits sha256 engine options entry)) [
          | inl out ↦
              let here = restore_entry-out entry report fs out in
              let few = restored-same (length rest) report r.0 here (omega arith) in
              subst (λ (list : List Attempt). Counted report list end)
                (sym (attempts-out entry rest report fs out))
                (Counted-nil tries report r.0 end here (restore_entries-Counted rest r few))
          | inr in_ ↦
              let here = restore_entry-in entry report fs in_ (omega arith) in
              let few = restored-few _ (length rest) report r.0 here (omega arith) in
              subst (λ (list : List Attempt). Counted report list end)
                (sym (attempts-in entry rest report fs in_))
                (Counted-cons _ tries report r.0 end here (restore_entries-Counted rest r few))
        ]

  -- Where the target directory can be made, a restore of fewer than 2^32 files returns a report. It
  -- attempts the files that the filter lets through, in order; it counts as restored exactly those
  -- on which `restore_file` succeeds, and lists an error with the path of each of the others, in
  -- order: the two counts add up to the number of these files.
  pub restore-counts :
      (s : S) (snapshot : Snapshot) (options : RestoreOptions) (fs : Fs)
      → length snapshot.entries < 2 ^ 32
      → create_dir_all fs options.target ≡ ok tt
      → let tries = attempts s snapshot.id options snapshot.entries (no_files, fs) in
        (report : RestoreReport) × ((restore digits sha256 engine s snapshot options fs).0
          ≡ ok report)
        × (map (λ (a : Attempt). a.0) tries ≡ wanted options snapshot.entries)
        × (report.files_restored ≡ length (succeeded tries))
        × (error_paths report ≡ failed_paths tries)
        × (report.files_restored + length report.errors ≡ length (wanted options snapshot.entries))
  unfolding restore Counted
  restore-counts s snapshot options fs small made =
      let tries = attempts s snapshot.id options snapshot.entries (no_files, fs) in
      let (n, e) =
        restore_entries-Counted s snapshot.id options snapshot.entries (no_files, fs)
          (omega arith) in
      let all = attempted s snapshot.id options snapshot.entries (no_files, fs) in
      rw made (
        _,
        refl,
        all,
        omega (arith, n),
        e,
        omega (
          arith,
          n,
          sym (length-map (λ (x : RestoreError). x.path) _) ∙ ap (length {A = String}) e,
          length-succeeded tries,
          sym (length-map (λ (a : Attempt). a.0) tries) ∙ ap (length {A = FileEntry}) all,
        ),
      )
