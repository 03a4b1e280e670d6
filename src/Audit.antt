-- ===== src/Audit.antt =====
-- crates/openvault-core/src/audit.rs: the audit log and its hash chain. SHA-256 (as a hex text) and
-- the printing of a time (chrono's `to_rfc3339`) are parameters. A number of entries is a usize and
-- a sequence number a u64; neither wraps while the log fits into memory.
mod Entry
pub mod Chain
pub mod History
pub mod Rotation
pub mod Pages
pub mod Collision
use Prim.Native.Nat.{Ordering}
use Prim.Native.String.{compare as compare_text}
use mathlib.Core.List.{reverse}
use open_vault.Common.{
  ℕ, zero, suc, ◌+◌, ◌-◌, ◌*◌, ◌/◌, ◌%◌, ◌^◌, String, Bool, true, false, not, ◌&&◌, ◌||◌, Option,
  none, some, List, [], ◌∷◌, ◌++◌, if◌then◌else◌, ltb, leb, nat_beq, ◌==◌, string_eq, PartialEq,
  derived_eq, String-discrete, length, is_empty, take, drop, filter, find, get_last?, concat,
  contains_text, as_bytes,
}
use open_vault.Common.Map.{Map}
use open_vault.Vault.{text, number, Message, Bytes, Time, VaultError, VaultResult, ok, err}
unfoldable pub use Entry.*

pub record RotationConfig : Type 0 where
  pub max_entries : ℕ
  pub max_age_days : ℕ

pub default : RotationConfig
default = record { max_entries = 100000; max_age_days = 365 }

pub record AuditLog : Type 0 where
  pub entries : List AuditEntry
  pub archived : List (List AuditEntry)
  pub rotation : RotationConfig
  pub next_seq : ℕ

unfoldable pub new : RotationConfig → AuditLog
new config = record { entries = []; archived = []; rotation = config; next_seq = 1 }

unfoldable pub maybe_rotate : AuditLog → AuditLog
maybe_rotate log =
    let half = length log.entries / 2 in
    if ltb 0 log.rotation.max_entries && ltb log.rotation.max_entries (length log.entries)
    then record log {
      entries = drop half log.entries;
      archived = log.archived ++ take half log.entries ∷ [];
    }
    else log

abbrev pub last_hash : Option AuditEntry → String
last_hash none = ""
last_hash (some e) = e.hash

module _ (sha256 : Bytes → String) (to_rfc3339 : Time → String) where
  unfoldable pub compute_hash : AuditEntry → String
  unfolding hashed_bytes
  compute_hash e = sha256 (hashed_bytes to_rfc3339 e)

  -- The entry that `append` makes.
  unfoldable pub next_entry :
      Time → String → AuditOperation → String → AuditResult → Map String → AuditLog → AuditEntry
  next_entry now user op tgt res meta log =
      let blank : AuditEntry = record {
        seq = log.next_seq;
        timestamp = now;
        user_id = user;
        operation = op;
        target = tgt;
        result = res;
        metadata = meta;
        hash = "";
        prev_hash = last_hash (get_last? log.entries);
      } in
      record blank { hash = compute_hash blank }

  -- The last entry is returned; `none` is the panic of `unwrap`.
  unfoldable pub append :
      Time
      → String
      → AuditOperation
      → String
      → AuditResult
      → Map String
      → AuditLog
      → Option AuditEntry × AuditLog
  unfolding next_entry maybe_rotate
  append now user op tgt res meta log =
      let entry = next_entry now user op tgt res meta log in
      let log' =
        maybe_rotate
          (record log { next_seq = log.next_seq + 1; entries = log.entries ++ entry ∷ [] }) in
      (get_last? log'.entries, log')

  unfoldable pub hash_mismatch : AuditEntry → VaultError
  hash_mismatch e = VaultError.integrity (
      text "Hash mismatch at seq "
      ∷ number e.seq
      ∷ text ": expected "
      ∷ text (compute_hash e)
      ∷ text ", got "
      ∷ text e.hash
      ∷ [])

  -- What is checked of the link to the entry before.
  unfoldable pub link_error : Option AuditEntry → AuditEntry → Option VaultError
  link_error (some prev) e =
      if e.prev_hash == prev.hash
      then none
      else some (
          VaultError.integrity (
            text "Chain broken at seq "
            ∷ number e.seq
            ∷ text ": prev_hash "
            ∷ text e.prev_hash
            ∷ text " != actual prev hash "
            ∷ text prev.hash
            ∷ []))
  link_error none e =
      if e.prev_hash == ""
      then none
      else some (
          VaultError.integrity (
            text "Genesis entry seq "
            ∷ number e.seq
            ∷ text " should have empty prev_hash, got "
            ∷ text e.prev_hash
            ∷ []))

  -- The loop of `verify_chain`, with the entry before the next one.
  unfoldable pub verify_from : Option AuditEntry → List AuditEntry → VaultResult Bool
  unfolding hash_mismatch link_error
  verify_from prev [] = ok true
  verify_from prev (e ∷ es) =
      let rest = verify_from (some e) es in
      if e.hash == compute_hash e
      then elim (link_error prev e) [ none ↦ rest | some x ↦ err x ]
      else err (hash_mismatch e)

  unfoldable pub verify_chain : AuditLog → VaultResult Bool
  unfolding verify_from
  verify_chain log = verify_from none log.entries

pub len : AuditLog → ℕ
len log = length log.entries

pub get : AuditLog → ℕ → Option AuditEntry
get log seq = find (λ (e : AuditEntry). nat_beq e.seq seq) log.entries

pub latest : AuditLog → Option AuditEntry
latest log = get_last? log.entries

pub all_entries : AuditLog → List AuditEntry
all_entries log = reverse log.entries

pub archived_segments : AuditLog → ℕ
archived_segments log = length log.archived

pub record AuditQuery : Type 0 where
  pub start_time : Option Time
  pub end_time : Option Time
  pub user_id : Option String
  pub operation : Option AuditOperation
  pub target : Option String
  pub result : Option AuditResult
  pub page : Option ℕ
  pub per_page : Option ℕ

-- A test that a filter asks for, where it is set.
abbrev pub asked {ℓ} : {A : Type ℓ} → Option A → (A → Bool) → Bool
asked none test = true
asked (some a) test = test a

pub matches : AuditQuery → AuditEntry → Bool
matches q e =
    asked q.start_time (λ st. not (ltb e.timestamp st))
    && asked q.end_time (λ et. not (ltb et e.timestamp))
    && asked q.user_id (λ uid. e.user_id == uid)
    && asked q.operation (λ op. e.operation == op)
    && asked q.target (λ tgt. contains_text e.target tgt)
    && asked q.result (λ res. e.result == res)

pub record AuditQueryResult : Type 0 where
  pub total : ℕ
  pub page : ℕ
  pub per_page : ℕ
  pub items : List AuditEntry

abbrev or_default : Option ℕ → ℕ → ℕ
or_default none d = d
or_default (some n) d = n

abbrev pub min : ℕ → ℕ → ℕ
min a b = if leb a b then a else b

pub query : AuditLog → AuditQuery → AuditQueryResult
unfolding matches
query log q =
    let filtered = filter (matches q) (reverse log.entries) in
    let page = or_default q.page 0 in
    let per_page = or_default q.per_page 50 in
    let start = page * per_page in
    let end = min (start + per_page) (length filtered) in
    record {
      total = length filtered;
      page = page;
      per_page = per_page;
      items = if ltb start (length filtered) then take (end - start) (drop start filtered) else [];
    }
