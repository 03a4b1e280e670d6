-- ===== src/Audit/History.antt =====
-- What the log has recorded, archived segments included.
use mathlib.Core.List.{append_assoc, append-nil}
use open_vault.Common.{
  ℕ, zero, suc, ◌+◌, ◌/◌, ◌<◌, ◌≡◌, refl, sym, ap, subst, ◌∙◌, String, ◌&&◌, ltb, some, List, [],
  ◌∷◌, ◌++◌, arith, length, length-append, take, drop, take-append-drop, get_last?, Bool-cases, inl,
  inr,
}
use open_vault.Common.Map.{Map}
use open_vault.Vault.{Bytes, Time}
use open_vault.Audit.{
  AuditEntry, AuditLog, AuditOperation, AuditResult, next_entry, maybe_rotate, append,
}

abbrev flatten : List (List AuditEntry) → List AuditEntry
flatten [] = []
flatten (s ∷ ss) = s ++ flatten ss

flatten-append :
    (ss : List (List AuditEntry)) (s : List AuditEntry) → flatten (ss ++ s ∷ []) ≡ flatten ss ++ s
flatten-append [] s = append-nil s
flatten-append (t ∷ ss) s =
    ap (λ x. t ++ x) (flatten-append ss s) ∙ sym (append_assoc t (flatten ss) s)

-- All entries, the archived ones first.
unfoldable pub history : AuditLog → List AuditEntry
history log = flatten log.archived ++ log.entries

-- The sequence numbers go up by one from `start`.
abbrev pub Numbered : ℕ → List AuditEntry → Type 0
Numbered start [] = Unit
Numbered start (e ∷ es) = (e.seq ≡ start) × Numbered (suc start) es

Numbered-append :
    (start : ℕ) (es : List AuditEntry) (e : AuditEntry)
    → Numbered start es
    → e.seq ≡ start + length es
    → Numbered start (es ++ e ∷ [])
Numbered-append start [] e n p = (omega (arith, p), tt)
Numbered-append start (x ∷ xs) e (a, n) p =
    (a, Numbered-append (suc start) xs e n (omega (arith, p)))

unfoldable pub IsLog : AuditLog → Type 0
IsLog log = Numbered 1 (history log) × (log.next_seq ≡ length (history log) + 1)

get_last-append : (es : List AuditEntry) (e : AuditEntry) → get_last? (es ++ e ∷ []) ≡ some e
get_last-append [] e = refl
get_last-append (x ∷ []) e = refl
get_last-append (x ∷ y ∷ es) e = get_last-append (y ∷ es) e

get_last-drop :
    (n : ℕ) (es : List AuditEntry) → n < length es → get_last? (drop n es) ≡ get_last? es
get_last-drop n [] lt = absurd (omega arith)
get_last-drop zero (e ∷ es) lt = refl
get_last-drop (suc n) (e ∷ []) lt = absurd (omega arith)
get_last-drop (suc n) (e ∷ f ∷ es) lt = get_last-drop n (f ∷ es) (omega arith)

maybe_rotate-keeps :
    (log : AuditLog)
    → (history (maybe_rotate log) ≡ history log)
      × ((maybe_rotate log).next_seq ≡ log.next_seq)
      × (get_last? (maybe_rotate log).entries ≡ get_last? log.entries)
unfolding maybe_rotate history
maybe_rotate-keeps log =
    let half = length log.entries / 2 in
    let over =
      ltb 0 log.rotation.max_entries && ltb log.rotation.max_entries (length log.entries) in
    elim (Bool-cases over) [
      | inr fits ↦ rw fits (refl, refl, refl)
      | inl full ↦ rw full (
        ap (λ x. x ++ drop half log.entries) (flatten-append log.archived (take half log.entries))
            ∙ append_assoc (flatten log.archived) (take half log.entries) (drop half log.entries)
            ∙ ap (λ x. flatten log.archived ++ x) (take-append-drop half log.entries),
        refl,
        get_last-drop half log.entries (ground arith),
      )
    ]

module _ (sha256 : Bytes → String) (to_rfc3339 : Time → String) (now : Time) (user : String)
    (op : AuditOperation) (tgt : String) (res : AuditResult) (meta : Map String) where
  history-push :
      (log : AuditLog) (entry : AuditEntry)
      → history (record log { next_seq = log.next_seq + 1; entries = log.entries ++ entry ∷ [] })
        ≡ history log ++ entry ∷ []
  unfolding history
  history-push log entry = sym (append_assoc (flatten log.archived) log.entries (entry ∷ []))

  seq-next :
      (log : AuditLog)
      → (next_entry sha256 to_rfc3339 now user op tgt res meta log).seq ≡ log.next_seq
  unfolding next_entry
  seq-next log = refl

  -- `append` adds one entry behind all that the log has recorded, whether it rotates or not: none
  -- is lost, archived segments included. It returns this entry, so that its `unwrap` never panics,
  -- and keeps the sequence numbers consecutive from 1.
  pub append-IsLog :
      (log : AuditLog)
      → IsLog log
      → let (returned, log') = append sha256 to_rfc3339 now user op tgt res meta log in
        let entry = next_entry sha256 to_rfc3339 now user op tgt res meta log in
        (returned ≡ some entry) × (history log' ≡ history log ++ entry ∷ []) × IsLog log'
  unfolding append IsLog
  append-IsLog log (numbered, count) =
      let entry = next_entry sha256 to_rfc3339 now user op tgt res meta log in
      let pushed : AuditLog = record log {
        next_seq = log.next_seq + 1;
        entries = log.entries ++ entry ∷ [];
      } in
      let (kept, seq, last) = maybe_rotate-keeps pushed in
      let recorded = kept ∙ history-push log entry in
      (
        last ∙ get_last-append log.entries entry,
        recorded,
        (
          subst (Numbered 1) (sym recorded) (
              Numbered-append 1 (history log) entry numbered (seq-next log ∙ omega (arith, count))),
          omega (arith, seq, count, ap length recorded, length-append (history log) (entry ∷ [])),
        ),
      )
