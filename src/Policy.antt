-- ===== src/Policy.antt =====
-- crates/openvault-core/src/policy.rs: the 3-2-1 policy, its evaluation and its remediation. The
-- storages are states of the one type `S` that the trait object's methods take.
mod Report
pub mod Surveyed
pub mod Health
pub mod Copies
use open_vault.Common.{
  ℕ, ◌+◌, ◌-◌, ◌%◌, ◌^◌, String, Bool, true, false, not, ◌&&◌, ◌||◌, Option, none, some, List, [],
  ◌∷◌, ◌++◌, length, is_empty, map, find, if◌then◌else◌, ltb, contains, string_eq,
}
use open_vault.Vault.{
  text, number, Message, VaultError, VaultResult, ok, err, VaultStorage, Snapshot, FileEntry,
}
unfoldable pub use Report.*

module _ {S : Type 0} (ops : VaultStorage S) where
  -- Whether the latest snapshot of the source can be had.
  abbrev pub holds : VaultResult (Option Snapshot) → Bool
  holds (ok (some s)) = true
  holds (ok none) = false
  holds (err e) = false

  -- One round of the loop of `check_health`. The count is a u32.
  unfoldable pub observe : Policy321 → String → Survey → S → Survey
  observe policy source sv storage =
      let backend = ops.backend_name storage in
      if holds (ops.latest_snapshot storage source)
      then record {
        total_copies = (sv.total_copies + 1) % 2 ^ 32;
        backend_names =
            if contains backend sv.backend_names
            then sv.backend_names
            else sv.backend_names ++ backend ∷ [];
        has_offsite = if contains backend policy.offsite_backends then true else sv.has_offsite;
      }
      else sv

  unfoldable pub survey : Policy321 → String → Survey → List S → Survey
  survey policy source sv [] = sv
  survey policy source sv (storage ∷ rest) =
      survey policy source (observe policy source sv storage) rest

  unfoldable pub check_health : Policy321 → String → List S → VaultResult PolicyHealth
  unfolding survey health_of
  check_health policy source storages = ok (
      health_of policy source (
        survey policy source (record { backend_names = []; total_copies = 0; has_offsite = false })
          storages))

  -- The inner loop of `remediate`: the files of the snapshot.
  unfoldable pub copy_entries : S → String → List FileEntry → S → VaultResult (Unit {0}) × S
  copy_entries from id [] target = (ok tt, target)
  copy_entries from id (entry ∷ rest) target = elim (ops.retrieve_file from id entry.path) [
    | err e ↦ (err e, target)
    | ok bytes ↦
        let (done, target') = ops.store_file target id entry.path bytes in
        elim done [ ok _ ↦ copy_entries from id rest target' | err e ↦ (err e, target') ]
  ]

  unfoldable pub copy_snapshot : S → Snapshot → S → VaultResult (Unit {0}) × S
  unfolding copy_entries
  copy_snapshot from snapshot target =
      let (done, target') = ops.store_snapshot target snapshot in
      elim done [
        | ok _ ↦ copy_entries from snapshot.id snapshot.entries target'
        | err e ↦ (err e, target')
      ]

  -- A target that stands before the others.
  abbrev pub before : S → VaultResult ℕ × List S → VaultResult ℕ × List S
  before target r = (r.0, target ∷ r.1)

  -- Where the copy of one target fails, the targets behind it are not reached.
  abbrev pub after_copy :
      VaultResult (Unit {0}) × S → List S → VaultResult ℕ × List S → VaultResult ℕ × List S
  after_copy (ok _, target') rest r = before target' r
  after_copy (err e, target') rest r = (err e, target' ∷ rest)

  -- The outer loop: the number of copies made, and the targets behind it.
  unfoldable pub copy_missing : S → String → Snapshot → ℕ → List S → VaultResult ℕ × List S
  copy_missing from source snapshot count [] = (ok count, [])
  copy_missing from source snapshot count (target ∷ rest) =
      let skipped = copy_missing from source snapshot count rest in
      let copied = copy_missing from source snapshot ((count + 1) % 2 ^ 32) rest in
      if holds (ops.latest_snapshot target source)
      then before target skipped
      else after_copy (copy_snapshot from snapshot target) rest copied

  unfoldable pub remediate : Policy321 → String → S → List S → VaultResult ℕ × List S
  unfolding check_health
  remediate policy source from targets = elim (check_health policy source (from ∷ targets)) [
    | err e ↦ (err e, targets)
    | ok health ↦
        if health.healthy then (ok 0, targets) else elim (ops.latest_snapshot from source) [
          | err e ↦ (err e, targets)
          | ok none ↦ (
            err (VaultError.policy_violation (text "No snapshot found to remediate" ∷ [])),
            targets,
          )
          | ok (some snapshot) ↦ copy_missing from source snapshot 0 targets
        ]
  ]
