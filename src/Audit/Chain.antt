-- ===== src/Audit/Chain.antt =====
-- What `verify_chain` accepts, and that `append` keeps it.
use open_vault.Common.{
  ◌<◌, ◌≡◌, ◌⊎◌, ◌↔◌, refl, sym, ap, subst, String, true, Option, none, some, List, [], ◌∷◌, ◌++◌,
  arith, length, length-append, get_last?, string_eq, eq_iff,
}
use open_vault.Common.Map.{Map}
use open_vault.Vault.{Bytes, Time, ok}
use open_vault.Audit.{
  AuditEntry, AuditLog, AuditOperation, AuditResult, last_hash, compute_hash, hashed_bytes,
  next_entry, maybe_rotate, append, link_error, verify_from, verify_chain,
}

-- The entry before the end of a list that follows `prev`.
abbrev pub last_or : Option AuditEntry → List AuditEntry → Option AuditEntry
last_or prev [] = prev
last_or prev (e ∷ es) = last_or (some e) es

pub get_last-last_or :
    (e : AuditEntry) (es : List AuditEntry) → get_last? (e ∷ es) ≡ last_or (some e) es
get_last-last_or e [] = refl
get_last-last_or e (f ∷ fs) = get_last-last_or f fs

module _ (sha256 : Bytes → String) (to_rfc3339 : Time → String) where
  -- Each entry has the hash of its contents, and the hash of the entry before it.
  abbrev pub IsChain : Option AuditEntry → List AuditEntry → Type 0
  IsChain prev [] = Unit
  IsChain prev (e ∷ es) =
      (e.hash ≡ compute_hash sha256 to_rfc3339 e)
      × (e.prev_hash ≡ last_hash prev)
      × IsChain (some e) es

  link_error-none :
      (prev : Option AuditEntry) (e : AuditEntry)
      → (link_error sha256 to_rfc3339 prev e ≡ none) ↔ (e.prev_hash ≡ last_hash prev)
  unfolding link_error
  link_error-none none e = ground (arith, eq_iff e.prev_hash "")
  link_error-none (some p) e = ground (arith, eq_iff e.prev_hash p.hash)

  verify_from-cons :
      (prev : Option AuditEntry) (e : AuditEntry) (es : List AuditEntry)
      → (verify_from sha256 to_rfc3339 prev (e ∷ es) ≡ ok true) ↔ (
          (e.hash ≡ compute_hash sha256 to_rfc3339 e)
          × (link_error sha256 to_rfc3339 prev e ≡ none)
          × (verify_from sha256 to_rfc3339 (some e) es ≡ ok true))
  unfolding verify_from
  verify_from-cons prev e es = ground (arith, eq_iff e.hash (compute_hash sha256 to_rfc3339 e))

  pub verify_from-IsChain :
      (prev : Option AuditEntry) (es : List AuditEntry)
      → (verify_from sha256 to_rfc3339 prev es ≡ ok true) ↔ IsChain prev es
  unfolding verify_from
  verify_from-IsChain prev [] = (λ _. tt, λ _. refl)
  verify_from-IsChain prev (e ∷ es) =
      let step = verify_from-cons prev e es in
      let link = link_error-none prev e in
      let rest = verify_from-IsChain (some e) es in
      (
        (λ v. let (h, l, r) = step.0 v in (h, link.0 l, rest.0 r)),
        (λ (h, l, r). step.1 (h, link.1 l, rest.1 r)),
      )

  -- `verify_chain` accepts a log exactly where each active entry has the hash of its contents, the
  -- first one an empty previous hash, and each other one the hash of the entry before it.
  pub verify_chain-IsChain :
      (log : AuditLog) → (verify_chain sha256 to_rfc3339 log ≡ ok true) ↔ IsChain none log.entries
  unfolding verify_chain
  verify_chain-IsChain log = verify_from-IsChain none log.entries

  IsChain-append :
      (prev : Option AuditEntry) (es : List AuditEntry) (e : AuditEntry)
      → IsChain prev es
      → e.hash ≡ compute_hash sha256 to_rfc3339 e
      → e.prev_hash ≡ last_hash (last_or prev es)
      → IsChain prev (es ++ e ∷ [])
  IsChain-append prev [] e c h l = (h, l, tt)
  IsChain-append prev (x ∷ xs) e (a, b, c) h l = (a, b, IsChain-append (some x) xs e c h l)

  module _ (now : Time) (user : String) (op : AuditOperation) (tgt : String) (res : AuditResult)
      (meta : Map String) where
    abbrev next : AuditLog → AuditEntry
    next log = next_entry sha256 to_rfc3339 now user op tgt res meta log

    pub next_entry-IsChain :
        (log : AuditLog) → IsChain none log.entries → IsChain none (log.entries ++ next log ∷ [])
    unfolding next_entry compute_hash hashed_bytes
    next_entry-IsChain log c =
        IsChain-append none log.entries (next log) c refl (linked log.entries)
      where
        linked : (es : List AuditEntry) → last_hash (get_last? es) ≡ last_hash (last_or none es)
        linked [] = refl
        linked (e ∷ es) = ap last_hash (get_last-last_or e es)

    unrotated :
        (log : AuditLog)
        → (log.rotation.max_entries ≡ 0) ⊎ (length log.entries < log.rotation.max_entries)
        → (append sha256 to_rfc3339 now user op tgt res meta log).1.entries
          ≡ log.entries ++ next log ∷ []
    unfolding append maybe_rotate
    unrotated log h = ground (arith, length-append log.entries (next log ∷ []))

    -- Appending to a log that `verify_chain` accepts, and that does not rotate then (rotation is
    -- off, or there is room for one more entry), gives a log that it accepts.
    pub verify_chain-append :
        (log : AuditLog)
        → (log.rotation.max_entries ≡ 0) ⊎ (length log.entries < log.rotation.max_entries)
        → verify_chain sha256 to_rfc3339 log ≡ ok true
        → verify_chain sha256 to_rfc3339 (append sha256 to_rfc3339 now user op tgt res meta log).1
          ≡ ok true
    verify_chain-append log room valid =
        let log' = (append sha256 to_rfc3339 now user op tgt res meta log).1 in
        (verify_chain-IsChain log').1 (
          subst (IsChain none) (sym (unrotated log room))
            (next_entry-IsChain log ((verify_chain-IsChain log).0 valid)))
