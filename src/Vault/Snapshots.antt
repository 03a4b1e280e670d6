-- ===== src/Vault/Snapshots.antt =====
-- crates/openvault-core/src/snapshot.rs: a snapshot and the files that it lists.
use mathlib.Core.List.{append-nil, append_assoc}
use open_vault.Common.{
  ℕ, ◌+◌, String, ◌≡◌, refl, sym, ap, ◌∙◌, Option, List, [], ◌∷◌, ◌++◌, arith, length, PartialEq,
  derived_eq,
}
use open_vault.Vault.Texts.{Time}

-- `mtime` is an i64 that the program only hands on; it is kept as its 64-bit pattern.
pub record FileEntry : Type 0 where
  pub path : String
  pub size : ℕ
  pub mtime : ℕ
  pub checksum : String

pub data BackupStrategy : Type 0 where
  full incremental differential : BackupStrategy

abbrev pub BackupStrategy-discrete : Discrete BackupStrategy
BackupStrategy-discrete = hlevel

instance abbrev pub strategy_eq : PartialEq BackupStrategy
strategy_eq = derived_eq BackupStrategy-discrete

pub record Snapshot : Type 0 where
  pub id : String
  pub created_at : Time
  pub strategy : BackupStrategy
  pub source : String
  pub storage_backend : String
  pub entries : List FileEntry
  pub parent_id : Option String
  pub total_size : ℕ

-- `fetch_add` on the process-wide counter hands out its value and leaves one more.
-- How the time and the counter are printed into the id is a parameter (chrono's `format`).
unfoldable pub new :
    (Time → ℕ → String) → Time → ℕ → BackupStrategy → String → String → Option String → Snapshot × ℕ
new format_id now counter how from backend parent = (
  record {
    id = format_id now counter;
    created_at = now;
    strategy = how;
    source = from;
    storage_backend = backend;
    entries = [];
    parent_id = parent;
    total_size = 0;
  },
  counter + 1,
)

unfoldable pub add_entry : Snapshot → FileEntry → Snapshot
add_entry s entry = record s {
  total_size = s.total_size + entry.size;
  entries = s.entries ++ entry ∷ [];
}

pub file_count : Snapshot → ℕ
file_count s = length s.entries

-- A version of a file, as `list_versions` returns it.
pub record BackupEntry : Type 0 where
  pub snapshot_id : String
  pub file_entry : FileEntry
  pub created_at : Time
  pub strategy : BackupStrategy

abbrev pub sum_sizes : List FileEntry → ℕ
sum_sizes [] = 0
sum_sizes (e ∷ es) = e.size + sum_sizes es

sum_sizes-append : (es fs : List FileEntry) → sum_sizes (es ++ fs) ≡ sum_sizes es + sum_sizes fs
sum_sizes-append [] fs = omega arith
sum_sizes-append (e ∷ es) fs = omega (arith, sum_sizes-append es fs)

-- `add_entry` over a list of files.
pub add_entries : Snapshot → List FileEntry → Snapshot
add_entries s [] = s
add_entries s (e ∷ es) = add_entries (add_entry s e) es

entries-add_entries :
    (s : Snapshot) (es : List FileEntry) → (add_entries s es).entries ≡ s.entries ++ es
unfolding add_entries add_entry
entries-add_entries s [] = sym (append-nil s.entries)
entries-add_entries s (e ∷ es) =
    entries-add_entries (add_entry s e) es ∙ append_assoc s.entries (e ∷ []) es

total_size-add_entries :
    (s : Snapshot) (es : List FileEntry)
    → (add_entries s es).total_size ≡ s.total_size + sum_sizes es
unfolding add_entries add_entry
total_size-add_entries s [] = omega arith
total_size-add_entries s (e ∷ es) = omega (arith, total_size-add_entries (add_entry s e) es)

-- A snapshot that `new` made, whatever files are added to it, lists exactly these files in their
-- order, and its total size is the sum of their sizes; the id counter has advanced by one.
pub totals-add_entries :
    (format_id : Time → ℕ → String) (now counter : ℕ) (how : BackupStrategy) (from backend : String)
    (parent : Option String) (es : List FileEntry)
    → let (s, next) = new format_id now counter how from backend parent in
      ((add_entries s es).entries ≡ es)
      × ((add_entries s es).total_size ≡ sum_sizes es)
      × (file_count (add_entries s es) ≡ length es)
      × (next ≡ counter + 1)
unfolding new file_count
totals-add_entries format_id now counter how from backend parent es =
    let s : Snapshot = (new format_id now counter how from backend parent).0 in
    (
      entries-add_entries s es,
      total_size-add_entries s es ∙ (omega arith),
      ap length (entries-add_entries s es),
      refl,
    )
