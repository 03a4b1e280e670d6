-- ===== src/Healing/Scan.antt =====
-- What a scan reports of the files that the snapshot lists.
use mathlib.Core.List.{append_assoc, append-nil}
use open_vault.Common.{
  ℕ, ◌+◌, ◌<◌, ◌^◌, ◌≡◌, refl, sym, ap, subst, ◌∙◌, String, Bool, false, ◌&&◌, List, [], ◌∷◌, ◌++◌,
  arith, length, filter, all, ◌==◌, string_eq,
}
use open_vault.Vault.{Bytes, ok, err, VaultStorage, Snapshot, FileEntry}
use open_vault.Healing.{
  FileCheckResult, ScanResult, is_all_healthy, check_file, count_file, scan_entry, scan_entries,
  no_checks, scan,
}

module _ (sha256 : Bytes → String) {S : Type 0} (ops : VaultStorage S) (storage : S)
    (id : String) where
  -- The storage has a file of this checksum at the path.
  abbrev pub intact : String → String → Bool
  intact path checksum = elim (ops.retrieve_file storage id path) [
    | ok bytes ↦ sha256 bytes == checksum
    | err e ↦ false
  ]

  abbrev pub intact_entry : FileEntry → Bool
  intact_entry entry = intact entry.path entry.checksum

  -- One check for each entry, in order, with the right verdict.
  abbrev pub Reports : List FileEntry → List FileCheckResult → Type 0
  Reports [] [] = Unit
  Reports [] (c ∷ cs) = ⊥
  Reports (e ∷ es) [] = ⊥
  Reports (e ∷ es) (c ∷ cs) =
      ((c.path ≡ e.path) × (c.expected_checksum ≡ e.checksum) × (c.healthy ≡ intact_entry e))
      × Reports es cs

  sums : ScanResult → ℕ
  sums r = r.files_healthy + r.files_corrupt + r.files_missing

  record Scanned (entries : List FileEntry) (r r' : ScanResult) : Type 0 where
    pub scanned : r'.files_scanned ≡ r.files_scanned + length entries
    pub healthy : r'.files_healthy ≡ r.files_healthy + length (filter intact_entry entries)
    pub sums_up : sums r' ≡ r'.files_scanned
    pub judged : is_all_healthy r' ≡ (is_all_healthy r && all intact_entry entries)
    pub reports : (cs : List FileCheckResult) × (r'.checks ≡ r.checks ++ cs) × Reports entries cs

  scan_entry-Scanned :
      (entry : FileEntry) (r : ScanResult)
      → sums r ≡ r.files_scanned
      → r.files_scanned + 1 < 2 ^ 32
      → Scanned (entry ∷ []) r (scan_entry sha256 ops storage id entry r)
  unfolding scan_entry is_all_healthy sums check_file count_file
  scan_entry-Scanned entry r sum few = record {
    scanned = ground arith;
    healthy = ground arith;
    sums_up = ground arith;
    judged = ground arith;
    reports = (
      check_file sha256 ops (ops.retrieve_file storage id entry.path) entry ∷ [],
      refl,
      (ground arith, tt),
    );
  }

  Reports-append :
      (es fs : List FileEntry) (cs ds : List FileCheckResult)
      → Reports es cs
      → Reports fs ds
      → Reports (es ++ fs) (cs ++ ds)
  Reports-append [] fs [] ds p q = q
  Reports-append [] fs (c ∷ cs) ds p q = absurd p
  Reports-append (e ∷ es) fs [] ds p q = absurd p
  Reports-append (e ∷ es) fs (c ∷ cs) ds (p, ps) q = (p, Reports-append es fs cs ds ps q)

  scan_entries-Scanned :
      (entries : List FileEntry) (r : ScanResult)
      → sums r ≡ r.files_scanned
      → r.files_scanned + length entries < 2 ^ 32
      → Scanned entries r (scan_entries sha256 ops storage id entries r)
  unfolding scan_entries sums
  scan_entries-Scanned [] r sum few = record {
    scanned = omega arith;
    healthy = omega arith;
    sums_up = sum;
    judged = ground arith;
    reports = ([], sym (append-nil r.checks), tt);
  }
  scan_entries-Scanned (e ∷ es) r sum few =
      let one = scan_entry-Scanned e r sum (omega arith) in
      let rest =
        scan_entries-Scanned es (scan_entry sha256 ops storage id e r) one.sums_up
          (omega (arith, one.scanned)) in
      let (cs, checks, first) = one.reports in
      let (ds, checks', more) = rest.reports in
      record {
        scanned = omega (arith, one.scanned, rest.scanned);
        healthy = ground (arith, one.healthy, rest.healthy);
        sums_up = rest.sums_up;
        judged = ground (arith, one.judged, rest.judged);
        reports = (
          cs ++ ds,
          checks' ∙ ap (λ x. x ++ ds) checks ∙ append_assoc r.checks cs ds,
          Reports-append (e ∷ []) es cs ds first more,
        );
      }

module _ (sha256 : Bytes → String) {S : Type 0} (ops : VaultStorage S) (storage : S)
    (snapshot : Snapshot) where
  -- A scan of a snapshot that lists fewer than 2^32 files: every file is counted, as healthy,
  -- corrupt or missing; there is one check for each file, in order, healthy exactly where the
  -- storage has a file with the checksum of the snapshot; and all is reported healthy exactly where
  -- all files are.
  pub scan-Scanned :
      length snapshot.entries < 2 ^ 32
      → let r = scan sha256 ops storage snapshot in
        (r.files_scanned ≡ length snapshot.entries)
        × (r.files_healthy + r.files_corrupt + r.files_missing ≡ r.files_scanned)
        × (r.files_healthy
            ≡ length (filter (intact_entry sha256 ops storage snapshot.id) snapshot.entries))
        × (is_all_healthy r ≡ all (intact_entry sha256 ops storage snapshot.id) snapshot.entries)
        × Reports sha256 ops storage snapshot.id snapshot.entries r.checks
  unfolding scan sums is_all_healthy
  scan-Scanned few =
      let s =
        scan_entries-Scanned sha256 ops storage snapshot.id snapshot.entries
          (no_checks sha256 ops snapshot.id) refl (omega (arith, few)) in
      let (cs, checks, reports) = s.reports in
      (
        omega (arith, s.scanned),
        s.sums_up,
        omega (arith, s.healthy),
        s.judged,
        subst (Reports sha256 ops storage snapshot.id snapshot.entries) (sym checks) reports,
      )
