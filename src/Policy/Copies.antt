-- ===== src/Policy/Copies.antt =====
-- What `remediate` has copied where it succeeds.
use open_vault.Common.{
  ℕ, ◌+◌, ◌<◌, ◌≤◌, ◌%◌, ◌^◌, ◌≡◌, ◌⊎◌, refl, sym, ap, ◌∙◌, subst, inl, inr, String, true, false,
  not, some, List, [], ◌∷◌, arith, length, length-filter-le, filter, Any, ◌==◌, string_eq, eq_iff,
  Bool-cases, if◌then◌else◌,
}
use open_vault.Vault.{
  Bytes, VaultResult, ok, err, VaultResult-cases, VaultStorage, StorageLaws, Snapshot, FileEntry,
}
use open_vault.Policy.{
  holds, copy_entries, copy_snapshot, copy_missing, before, after_copy, Policy321, PolicyHealth,
  check_health, remediate,
}

module _ {S : Type 0} (ops : VaultStorage S) (laws : StorageLaws ops) (from : S) (id : String) where
  -- The target reads the same at this path as the source.
  abbrev Same : S → String → Type 0
  Same target path = ops.retrieve_file target id path ≡ ops.retrieve_file from id path

  -- A write of what the source has at `path`.
  Same-store_file :
      (target : S) (path other : String) (bytes : Bytes)
      → ops.retrieve_file from id path ≡ ok bytes
      → (ops.store_file target id path bytes).0 ≡ ok tt
      → (Same target other) ⊎ (path ≡ other)
      → Same (ops.store_file target id path bytes).1 other
  Same-store_file target path other bytes there done (inr same) =
      subst (Same (ops.store_file target id path bytes).1) same
        (laws.retrieve-store_self target id path bytes done ∙ sym there)
  Same-store_file target path other bytes there done (inl before) =
      elim (Bool-cases (path == other)) [
        | inl same ↦
            subst (Same (ops.store_file target id path bytes).1) ((eq_iff path other).0 same)
              (laws.retrieve-store_self target id path bytes done ∙ sym there)
        | inr ne ↦
            laws.retrieve-store_path target id path bytes other (λ e. cc ((eq_iff path other).1 e))
            ∙ before
      ]

  copy_entries-cons :
      (entry : FileEntry) (rest : List FileEntry) (target : S)
      → (copy_entries ops from id (entry ∷ rest) target).0 ≡ ok tt
      → (bytes : Bytes) × (ops.retrieve_file from id entry.path ≡ ok bytes)
        × ((ops.store_file target id entry.path bytes).0 ≡ ok tt)
        × (copy_entries ops from id (entry ∷ rest) target
            ≡ copy_entries ops from id rest (ops.store_file target id entry.path bytes).1)
  unfolding copy_entries
  copy_entries-cons entry rest target e =
      elim (VaultResult-cases (ops.retrieve_file from id entry.path)) [
        | inr (x, failed) ↦ absurd (ground arith)
        | inl (bytes, there) ↦
            elim (VaultResult-cases (ops.store_file target id entry.path bytes).0) [
              | inr (x, failed) ↦ absurd (ground arith)
              | inl (u, done) ↦ (bytes, there, done, ground arith)
            ]
      ]

  copy_entries-Same :
      (entries : List FileEntry) (target : S) (other : String)
      → (copy_entries ops from id entries target).0 ≡ ok tt
      → (Same target other) ⊎ Any (λ (entry : FileEntry). entry.path ≡ other) entries
      → Same (copy_entries ops from id entries target).1 other
  unfolding copy_entries
  copy_entries-Same [] target other e (inl s) = s
  copy_entries-Same [] target other e (inr x) = elim x [ ]
  copy_entries-Same (entry ∷ rest) target other e s =
      let (bytes, there, done, step) = copy_entries-cons entry rest target e in
      let target' = (ops.store_file target id entry.path bytes).1 in
      subst (λ (r : VaultResult (Unit {0}) × S). Same r.1 other) (sym step)
        (copy_entries-Same rest target' other
          (ap (λ (r : VaultResult (Unit {0}) × S). r.0) (sym step) ∙ e)
          (elim s [
            | inl a ↦ inl (Same-store_file target entry.path other bytes there done (inl a))
            | inr (inl p) ↦ inl (Same-store_file target entry.path other bytes there done (inr p))
            | inr (inr q) ↦ inr q
          ]))

  -- Every file that the snapshot lists reads the same at the target as at the source, and can be
  -- read.
  CopyOf : List FileEntry → S → Type 0
  CopyOf entries target =
      (path : String)
      → Any (λ (entry : FileEntry). entry.path ≡ path) entries
      → ops.retrieve_file target id path ≡ ops.retrieve_file from id path

module _ {S : Type 0} (ops : VaultStorage S) (laws : StorageLaws ops) (from : S)
    (snapshot : Snapshot) (source : String) where
  copy_snapshot-step :
      (target : S)
      → (copy_snapshot ops from snapshot target).0 ≡ ok tt
      → (copy_snapshot ops from snapshot target
          ≡ copy_entries ops from snapshot.id snapshot.entries
              (ops.store_snapshot target snapshot).1)
  unfolding copy_snapshot
  copy_snapshot-step target e = ground arith

  copy_snapshot-CopyOf :
      (target : S)
      → (copy_snapshot ops from snapshot target).0 ≡ ok tt
      → CopyOf ops laws from snapshot.id snapshot.entries (copy_snapshot ops from snapshot target).1
  unfolding CopyOf
  copy_snapshot-CopyOf target e path p =
      let step = copy_snapshot-step target e in
      subst
        (λ (r : VaultResult (Unit {0}) × S).
          ops.retrieve_file r.1 snapshot.id path ≡ ops.retrieve_file from snapshot.id path)
        (sym step)
        (copy_entries-Same ops laws from snapshot.id snapshot.entries _ path
          (ap (λ (r : VaultResult (Unit {0}) × S). r.0) (sym step) ∙ e) (inr p))

  after_copy-ok :
      (r : VaultResult (Unit {0}) × S) (ts : List S) (rest : VaultResult ℕ × List S) (n : ℕ)
      → (after_copy ops r ts rest).0 ≡ ok n
      → (r.0 ≡ ok tt) × (rest.0 ≡ ok n) × (after_copy ops r ts rest ≡ before ops r.1 rest)
  after_copy-ok (ok u, s) ts rest n h = (refl, h, refl)
  after_copy-ok (err x, s) ts rest n h = absurd (ground arith)

  -- The targets behind a remediation: those that had a snapshot of the source are as they were, and
  -- the others are copies.
  pub Remediated : List S → List S → Type 0
  Remediated [] [] = Unit
  Remediated [] (t' ∷ ts') = ⊥
  Remediated (t ∷ ts) [] = ⊥
  Remediated (t ∷ ts) (t' ∷ ts') =
      (if holds ops (ops.latest_snapshot t source)
        then t' ≡ t
        else CopyOf ops laws from snapshot.id snapshot.entries t')
      × Remediated ts ts'

  Remediated-nil : Remediated [] []
  unfolding Remediated
  Remediated-nil = tt

  Remediated-kept :
      (t : S) (ts ts' : List S)
      → holds ops (ops.latest_snapshot t source) ≡ true
      → Remediated ts ts'
      → Remediated (t ∷ ts) (t ∷ ts')
  unfolding Remediated
  Remediated-kept t ts ts' has r = rw has (refl, r)

  Remediated-copied :
      (t t' : S) (ts ts' : List S)
      → holds ops (ops.latest_snapshot t source) ≡ false
      → CopyOf ops laws from snapshot.id snapshot.entries t'
      → Remediated ts ts'
      → Remediated (t ∷ ts) (t' ∷ ts')
  unfolding Remediated
  Remediated-copied t t' ts ts' hasnt c r = rw hasnt (c, r)

  unfoldable pub missing : List S → ℕ
  missing ts = length (filter (λ t. not (holds ops (ops.latest_snapshot t source))) ts)

  copy_missing-Remediated :
      (targets : List S) (count n : ℕ)
      → (copy_missing ops from source snapshot count targets).0 ≡ ok n
      → count + missing targets < 2 ^ 32
      → (n ≡ count + missing targets)
        × Remediated targets (copy_missing ops from source snapshot count targets).1
  unfolding copy_missing missing
  copy_missing-Remediated [] count n e few = (ground arith, Remediated-nil)
  copy_missing-Remediated (t ∷ ts) count n e few =
      elim (Bool-cases (holds ops (ops.latest_snapshot t source))) [
        | inl has ↦
            let (number_lem, rest) =
              copy_missing-Remediated ts count n (rw has at e) (ground arith) in
            (ground arith, rw has (Remediated-kept t ts _ has rest))
        | inr hasnt ↦
            let (done, next, step) =
              after_copy-ok (copy_snapshot ops from snapshot t) ts
                (copy_missing ops from source snapshot ((count + 1) % 2 ^ 32) ts) n
                (rw hasnt at e) in
            let (number_lem, rest) =
              copy_missing-Remediated ts ((count + 1) % 2 ^ 32) n next (ground arith) in
            (
              ground arith,
              rw (hasnt, step)
                  (Remediated-copied t _ ts _ hasnt (copy_snapshot-CopyOf t done) rest),
            )
      ]

  remediate-step :
      (policy : Policy321) (targets : List S) (h : PolicyHealth)
      → ops.latest_snapshot from source ≡ ok (some snapshot)
      → check_health ops policy source (from ∷ targets) ≡ ok h
      → h.healthy ≡ false
      → remediate ops policy source from targets ≡ copy_missing ops from source snapshot 0 targets
  unfolding remediate
  remediate-step policy targets h latest checked ill = ground arith

  missing-length : (targets : List S) → missing targets ≤ length targets
  unfolding missing
  missing-length targets = length-filter-le _ targets

  -- Let the policy be violated, the source storage hold `snapshot` as the latest of the source, and
  -- the targets be fewer than 2^32. Where `remediate` then succeeds, it returns the number of
  -- targets that had no snapshot of the source; the others are as they were, and at each of these
  -- every file that the snapshot lists reads the same as at the source.
  pub remediate-Remediated :
      (policy : Policy321) (targets : List S) (h : PolicyHealth) (n : ℕ)
      → length targets < 2 ^ 32
      → ops.latest_snapshot from source ≡ ok (some snapshot)
      → check_health ops policy source (from ∷ targets) ≡ ok h
      → h.healthy ≡ false
      → (remediate ops policy source from targets).0 ≡ ok n
      → (n ≡ missing targets) × Remediated targets (remediate ops policy source from targets).1
  remediate-Remediated policy targets h n few latest checked ill e =
      let step = remediate-step policy targets h latest checked ill in
      let (number_lem, copies) =
        copy_missing-Remediated targets 0 n (rw step at e)
          (omega (arith, missing-length targets)) in
      (omega (arith, number_lem), rw step copies)
