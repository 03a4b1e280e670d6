-- ===== src/Audit/Rotation.antt =====
-- What rotation does to the chain.
use open_vault.Common.{
  ℕ, zero, suc, ◌-◌, ◌/◌, ◌<◌, ◌≤◌, ◌≡◌, ◌≢◌, sym, subst, ◌∙◌, String, true, Option, none, some,
  List, [], ◌∷◌, ◌++◌, arith, length, length-append, drop,
}
use open_vault.Common.Map.{Map}
use open_vault.Vault.{Bytes, Time, ok}
use open_vault.Audit.{
  AuditEntry, AuditLog, AuditOperation, AuditResult, compute_hash, hashed_bytes, next_entry,
  maybe_rotate, append, verify_chain,
}
use open_vault.Audit.Chain.{IsChain, verify_chain-IsChain, next_entry-IsChain}

module _ (sha256 : Bytes → String) (to_rfc3339 : Time → String) where
  -- Behind a part of a chain that is left out, the chain goes on from an entry.
  IsChain-drop :
      (prev : Option AuditEntry) (n : ℕ) (es : List AuditEntry)
      → suc n ≤ length es
      → IsChain sha256 to_rfc3339 prev es
      → (p : AuditEntry) × (p.hash ≡ compute_hash sha256 to_rfc3339 p)
        × IsChain sha256 to_rfc3339 (some p) (drop (suc n) es)
  IsChain-drop prev n [] le c = absurd (omega arith)
  IsChain-drop prev zero (e ∷ es) le (h, l, c) = (e, h, c)
  IsChain-drop prev (suc n) (e ∷ es) le (h, l, c) = IsChain-drop (some e) n es (omega arith) c

  -- A rest that begins with such an entry is not itself a chain from the beginning.
  drop-not :
      (non_empty : (b : Bytes) → sha256 b ≢ "") (prev : Option AuditEntry) (n : ℕ)
      (es : List AuditEntry)
      → suc n < length es
      → IsChain sha256 to_rfc3339 prev es
      → ¬ IsChain sha256 to_rfc3339 none (drop (suc n) es)
  unfolding compute_hash
  drop-not non_empty prev n es lt c d =
      let (p, hashed, on) = IsChain-drop prev n es (omega arith) c in
      first p hashed (drop (suc n) es) (rest n es lt) on d
    where
      rest : (n : ℕ) (es : List AuditEntry) → suc n < length es → 0 < length (drop (suc n) es)
      rest n [] lt = absurd (omega arith)
      rest zero (e ∷ es) lt = omega arith
      rest (suc n) (e ∷ es) lt = rest n es (omega arith)

      first :
          (p : AuditEntry)
          → p.hash ≡ compute_hash sha256 to_rfc3339 p
          → (fs : List AuditEntry) → 0 < length fs
          → IsChain sha256 to_rfc3339 (some p) fs
          → IsChain sha256 to_rfc3339 none fs
          → ⊥
      first p hashed [] lt on d = absurd (omega arith)
      first p hashed (f ∷ fs) lt (_, l, _) (_, m, _) =
          non_empty (hashed_bytes to_rfc3339 p) (sym hashed ∙ sym l ∙ m)

  rotated :
      (now : Time) (user : String) (op : AuditOperation) (tgt : String) (res : AuditResult)
      (meta : Map String) (log : AuditLog)
      → 0 < log.rotation.max_entries
      → log.rotation.max_entries ≤ length log.entries
      → let all = log.entries ++ next_entry sha256 to_rfc3339 now user op tgt res meta log ∷ [] in
        (append sha256 to_rfc3339 now user op tgt res meta log).1.entries
        ≡ drop (length all / 2) all
  unfolding append maybe_rotate
  rotated now user op tgt res meta log on full = ground (
    arith,
    length-append log.entries (next_entry sha256 to_rfc3339 now user op tgt res meta log ∷ []),
  )

  -- Let the hash never be an empty text. Where `append` rotates a log that `verify_chain` accepts
  -- (rotation is on, and the log holds `max_entries` entries already), `verify_chain` no longer
  -- accepts it: the first active entry still names the hash of the last archived one.
  pub verify_chain-rotated :
      (non_empty : (b : Bytes) → sha256 b ≢ "") (now : Time) (user : String) (op : AuditOperation)
      (tgt : String) (res : AuditResult) (meta : Map String) (log : AuditLog)
      → 0 < log.rotation.max_entries
      → log.rotation.max_entries ≤ length log.entries
      → verify_chain sha256 to_rfc3339 log ≡ ok true
      → verify_chain sha256 to_rfc3339 (append sha256 to_rfc3339 now user op tgt res meta log).1
        ≢ ok true
  verify_chain-rotated non_empty now user op tgt res meta log on full valid accepted =
      let all = log.entries ++ next_entry sha256 to_rfc3339 now user op tgt res meta log ∷ [] in
      let long : suc (length log.entries) ≡ length all = omega (
        arith,
        length-append log.entries (next_entry sha256 to_rfc3339 now user op tgt res meta log ∷ []),
      ) in
      let half = length all / 2 in
      let log' = (append sha256 to_rfc3339 now user op tgt res meta log).1 in
      let chain =
        next_entry-IsChain sha256 to_rfc3339 now user op tgt res meta log
          ((verify_chain-IsChain sha256 to_rfc3339 log).0 valid) in
      drop-not non_empty none (half - 1) all (omega (arith, long)) chain (
        subst (λ n. IsChain sha256 to_rfc3339 none (drop n all)) {y = suc (half - 1)}
          (omega (arith, long))
          (subst (IsChain sha256 to_rfc3339 none) (rotated now user op tgt res meta log on full)
            ((verify_chain-IsChain sha256 to_rfc3339 log').0 accepted)))
