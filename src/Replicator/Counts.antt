-- ===== src/Replicator/Counts.antt =====
-- What the report of a replication says of the backends.
use open_vault.Common.{
  ℕ, ◌+◌, ◌^◌, ◌<◌, ◌≤◌, ◌≡◌, ◌⊎◌, refl, sym, ap, ◌∙◌, subst, inl, inr, String, Bool, true, false,
  not, ◌&&◌, Option, none, some, List, [], ◌∷◌, arith, length, length-append, concat,
}
use open_vault.Vault.{
  Message, Bytes, VaultResult, ok, err, is_ok, ok-injective, VaultStorage, Snapshot,
}
use open_vault.Healing.{scan, is_all_healthy}
use open_vault.Replicator.{
  ReplicatorConfig, ReplicationResult, is_full_success, no_backends, succeeded, failed, copy_data,
  verified, after_data, after_metadata, after_load, replicate_one, replicate_targets,
  replicate_snapshot,
}

-- The counters are the lengths of the lists, and add up to the number of targets seen.
abbrev Counted : ReplicationResult → ℕ → Type 0
Counted r n =
    (r.backends_replicated ≡ length r.successful_backends)
    × (r.backends_failed ≡ length r.failed_backends)
    × (r.backends_replicated + r.backends_failed ≡ n)

module _ {S : Type 0} (sha256 : Bytes → String) (ops : VaultStorage S) (config : ReplicatorConfig)
    (snapshot : Snapshot) (from : S) where
  -- A target that had the snapshot and is left alone, or one of which the verification, if it is
  -- wanted, finds every file healthy.
  abbrev pub Holds : S → S → Type 0
  Holds target target' =
      ((is_ok (ops.load_snapshot target snapshot.id) ≡ true) × (target' ≡ target))
      ⊎ ((config.verify_after_replicate && not (is_all_healthy (scan sha256 ops target' snapshot)))
          ≡ false)

  Outcome : ReplicationResult → S → ReplicationResult × S → Type 0
  Outcome r target q =
      ((label : String) × (q.0 ≡ succeeded label r) × Holds target q.1)
      ⊎ ((label : String) × (problems : List (String × Message)) × (q.0 ≡ failed label problems r))

  verified-Outcome :
      (checked healthy : Bool) (name : String) (r : ReplicationResult) (target target' : S)
      → config.verify_after_replicate ≡ checked
      → is_all_healthy (scan sha256 ops target' snapshot) ≡ healthy
      → Outcome r target (verified sha256 ops checked healthy name r, target')
  unfolding Outcome
  verified-Outcome false healthy name r target target' on e = inl (name, refl, inr (ground arith))
  verified-Outcome true true name r target target' on e = inl (name, refl, inr (ground arith))
  verified-Outcome true false name r target target' on e =
      inr (concat name " (verify failed)", [], refl)

  after_data-Outcome :
      (name : String) (r : ReplicationResult) (target : S) (q : Option Message × S)
      → Outcome r target (after_data sha256 ops config snapshot from name r q)
  unfolding Outcome
  after_data-Outcome name r target (some m, target') = inr (name, (name, m) ∷ [], refl)
  after_data-Outcome name r target (none, target') =
      verified-Outcome config.verify_after_replicate _ name r target target' refl refl

  after_metadata-Outcome :
      (name : String) (r : ReplicationResult) (target : S) (q : VaultResult (Unit {0}) × S)
      → Outcome r target (after_metadata sha256 ops config snapshot from name r q)
  unfolding Outcome
  after_metadata-Outcome name r target (err e, target') = inr (name, _, refl)
  after_metadata-Outcome name r target (ok u, target') =
      after_data-Outcome name r target
        (copy_data sha256 ops from snapshot.id snapshot.entries target')

  after_load-Outcome :
      (name : String) (r : ReplicationResult) (target : S) (loaded : VaultResult Snapshot)
      → ops.load_snapshot target snapshot.id ≡ loaded
      → Outcome r target (after_load sha256 ops config snapshot from target name r loaded)
  unfolding Outcome
  after_load-Outcome name r target (ok s) e =
      inl (concat name " (existing)", refl, inl (ap is_ok e, refl))
  after_load-Outcome name r target (err x) e =
      after_metadata-Outcome name r target (ops.store_snapshot target snapshot)

  replicate_one-Outcome :
      (r : ReplicationResult) (target : S)
      → Outcome r target (replicate_one sha256 ops config snapshot from r target)
  unfolding replicate_one
  replicate_one-Outcome r target = after_load-Outcome (ops.backend_name target) r target _ refl

  -- A target behind which every target is left with the snapshot.
  abbrev pub AllHold : List S → List S → Type 0
  AllHold [] [] = Unit {0}
  AllHold [] (t ∷ ts) = ⊥
  AllHold (t ∷ ts) [] = ⊥
  AllHold (t ∷ ts) (u ∷ us) = Holds t u × AllHold ts us

  one-Counted :
      (r : ReplicationResult) (n : ℕ) (target : S) (q : ReplicationResult × S)
      → n + 1 < 2 ^ 32
      → Counted r n
      → Outcome r target q
      → Counted q.0 (n + 1)
  unfolding Outcome
  one-Counted r n target q small counted (inl (label, e, holds)) =
      rw e (ground (arith, length-append r.successful_backends (label ∷ [])))
  one-Counted r n target q small counted (inr (label, problems, e)) =
      rw e (ground (arith, length-append r.failed_backends (label ∷ [])))

  targets-Counted :
      (targets : List S) (r : ReplicationResult) (n : ℕ)
      → n + length targets < 2 ^ 32
      → Counted r n
      → Counted (replicate_targets sha256 ops config snapshot from r targets).0 (n + length targets)
  unfolding replicate_targets
  targets-Counted [] r n small counted = ground arith
  targets-Counted (t ∷ ts) r n small counted =
      let q = replicate_one sha256 ops config snapshot from r t in
      subst (Counted (replicate_targets sha256 ops config snapshot from q.0 ts).0) (omega arith) (
        targets-Counted ts q.0 (n + 1) (ground arith)
          (one-Counted r n t q (ground arith) counted (replicate_one-Outcome r t)))

  -- The failed backends are kept.
  one-grows :
      (r : ReplicationResult) (target : S) (q : ReplicationResult × S)
      → Outcome r target q
      → length r.failed_backends ≤ length q.0.failed_backends
  unfolding Outcome
  one-grows r target q (inl (label, e, holds)) = rw e (omega arith)
  one-grows r target q (inr (label, problems, e)) =
      rw e (ground (arith, length-append r.failed_backends (label ∷ [])))

  targets-grow :
      (targets : List S) (r : ReplicationResult)
      → length r.failed_backends
        ≤ length (replicate_targets sha256 ops config snapshot from r targets).0.failed_backends
  unfolding replicate_targets
  targets-grow [] r = omega arith
  targets-grow (t ∷ ts) r =
      let q = replicate_one sha256 ops config snapshot from r t in
      ground (arith, one-grows r t q (replicate_one-Outcome r t), targets-grow ts q.0)

  one-Holds :
      (r : ReplicationResult) (target : S) (q : ReplicationResult × S)
      → Outcome r target q
      → length q.0.failed_backends ≡ 0
      → Holds target q.1
  unfolding Outcome
  one-Holds r target q (inl (label, e, holds)) none_failed = holds
  one-Holds r target q (inr (label, problems, e)) none_failed = absurd (
      ground (
        arith,
        length-append r.failed_backends (label ∷ []),
        ap (λ (x : ReplicationResult). length x.failed_backends) e,
      ))

  targets-AllHold :
      (targets : List S) (r : ReplicationResult)
      → length (replicate_targets sha256 ops config snapshot from r targets).0.failed_backends ≡ 0
      → AllHold targets (replicate_targets sha256 ops config snapshot from r targets).1
  unfolding replicate_targets
  targets-AllHold [] r none_failed = tt
  targets-AllHold (t ∷ ts) r none_failed =
      let q = replicate_one sha256 ops config snapshot from r t in
      (
        one-Holds r t q (replicate_one-Outcome r t) (ground (arith, targets-grow ts q.0)),
        targets-AllHold ts q.0 none_failed,
      )

  -- With fewer than 2^32 targets the replication returns a report whose two counters are the
  -- numbers of the backends that it lists as successful and as failed, and every target is in one
  -- of them.
  pub replicate_snapshot-counts :
      (targets : List S)
      → length targets < 2 ^ 32
      → let result = (replicate_snapshot sha256 ops config snapshot from targets).0 in
        (report : ReplicationResult) × (result ≡ ok report)
        × (report.backends_replicated ≡ length report.successful_backends)
        × (report.backends_failed ≡ length report.failed_backends)
        × (report.backends_replicated + report.backends_failed ≡ length targets)
  unfolding replicate_snapshot
  replicate_snapshot-counts targets small =
      let (sent, lost, all) =
        targets-Counted targets (no_backends snapshot.id) 0 (ground arith) (refl, refl, refl) in
      (_, refl, sent, lost, ground arith)

  -- Where the report is a full success, for fewer than 2^32 targets, every target either had a
  -- snapshot of the id before and is left as it was, or a scan of it afterwards finds every file
  -- healthy, if the configuration asks for the verification.
  pub replicate_snapshot-AllHold :
      (targets : List S) (report : ReplicationResult)
      → length targets < 2 ^ 32
      → (replicate_snapshot sha256 ops config snapshot from targets).0 ≡ ok report
      → is_full_success report ≡ true
      → AllHold targets (replicate_snapshot sha256 ops config snapshot from targets).1
  unfolding replicate_snapshot is_full_success
  replicate_snapshot-AllHold targets report small e success =
      let (sent, lost, all) =
        targets-Counted targets (no_backends snapshot.id) 0 (ground arith) (refl, refl, refl) in
      let same = ok-injective e in
      targets-AllHold targets (no_backends snapshot.id)
        (sym lost ∙ ap (λ (x : ReplicationResult). x.backends_failed) same ∙ ground arith)
