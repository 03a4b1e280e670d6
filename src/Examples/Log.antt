-- ===== src/Examples/Log.antt =====
-- The audit log at concrete entries.
use open_vault.Common.{
  ◌<◌, ◌≤◌, ◌≡◌, ◌≢◌, ◌↔◌, ◌⊎◌, inr, refl, none, some, true, [], ◌∷◌, ◌++◌, arith, length, concat,
}
use open_vault.Vault.{ok}
use open_vault.Audit.{
  AuditEntry, AuditLog, AuditQuery, AuditOperation, login, logout, custom, success, failure, append,
  next_entry, maybe_rotate, compute_hash, hashed_bytes, verify_chain, verify_from, link_error,
  hash_mismatch, query,
}
use open_vault.Audit
use open_vault.Audit.Chain.{IsChain, verify_chain-IsChain, verify_chain-append}
use open_vault.Audit.History.{history, IsLog, append-IsLog}
use open_vault.Audit.Rotation.{verify_chain-rotated}
use open_vault.Audit.Collision.{compute_hash-shifted}
use open_vault.Examples.Digest.{digest-non_empty, digest, print_time}

-- A log that rotates beyond two entries.
abbrev empty : AuditLog
empty = Audit.new (record { max_entries = 2; max_age_days = 0 })

abbrev one : AuditLog
one = (append digest print_time 3 "ann" login "host" success [] empty).1

abbrev two : AuditLog
two = (append digest print_time 4 "bob" logout "host" failure [] one).1

empty-IsLog : IsLog empty
unfolding IsLog history Audit.new
empty-IsLog = (tt, refl)

append-IsLog_example :
    let (returned, log') = append digest print_time 3 "ann" login "host" success [] empty in
    let entry = next_entry digest print_time 3 "ann" login "host" success [] empty in
    (returned ≡ some entry) × (history log' ≡ history empty ++ entry ∷ []) × IsLog log'
append-IsLog_example =
    append-IsLog digest print_time 3 "ann" login "host" success [] empty empty-IsLog

verify_chain-IsChain_example :
    (verify_chain digest print_time two ≡ ok true) ↔ IsChain digest print_time none two.entries
verify_chain-IsChain_example = verify_chain-IsChain digest print_time two

empty-verified : verify_chain digest print_time empty ≡ ok true
unfolding verify_chain verify_from Audit.new
empty-verified = refl

empty-room : (empty.rotation.max_entries ≡ 0) ⊎ (length empty.entries < empty.rotation.max_entries)
unfolding Audit.new
empty-room = inr (omega arith)

one-room : (one.rotation.max_entries ≡ 0) ⊎ (length one.entries < one.rotation.max_entries)
unfolding Audit.new append maybe_rotate
one-room = inr (omega arith)

one-verified : verify_chain digest print_time one ≡ ok true
one-verified =
    verify_chain-append digest print_time 3 "ann" login "host" success [] empty empty-room
      empty-verified

two-verified : verify_chain digest print_time two ≡ ok true
two-verified =
    verify_chain-append digest print_time 4 "bob" logout "host" failure [] one one-room one-verified

two-full : two.rotation.max_entries ≤ length two.entries
unfolding Audit.new append maybe_rotate
two-full = omega arith

two-rotates : 0 < two.rotation.max_entries
unfolding Audit.new append maybe_rotate
two-rotates = omega arith

verify_chain-rotated_example :
    verify_chain digest print_time (append digest print_time 5 "ann" logout "host" success [] two).1
    ≢ ok true
verify_chain-rotated_example =
    verify_chain-rotated digest print_time digest-non_empty 5 "ann" logout "host" success [] two
      two-rotates two-full two-verified

abbrev any_query : AuditQuery
any_query = record {
  start_time = none;
  end_time = some 9;
  user_id = none;
  operation = none;
  target = none;
  result = some success;
  page = none;
  per_page = none;
}

abbrev blank : AuditEntry
blank = next_entry digest print_time 3 "ann" login "host" success [] empty

compute_hash-shifted_example :
    compute_hash digest print_time
      (record blank { operation = custom "read"; target = concat "-only" "/a" })
    ≡ compute_hash digest print_time
        (record blank { operation = custom (concat "read" "-only"); target = "/a" })
compute_hash-shifted_example = compute_hash-shifted digest print_time blank "read" "-only" "/a"
