-- ===== src/Audit/Collision.antt =====
-- Entries that the hash does not tell apart.
use mathlib.Core.List.{append_assoc}
use open_vault.Common.{
  ◌≡◌, sym, ap, ◌∙◌, String, ◌++◌, concat, concat_assoc, as_bytes, as_bytes-concat,
}
use open_vault.Vault.{Bytes, Time}
use open_vault.Audit.{AuditEntry, custom, operation_name, le_bytes, hashed_bytes, compute_hash}

shifted :
    (a b c : String) (rest : Bytes)
    → as_bytes (operation_name (custom a)) ++ (as_bytes (concat b c) ++ rest)
      ≡ as_bytes (operation_name (custom (concat a b))) ++ (as_bytes c ++ rest)
unfolding operation_name
shifted a b c rest =
    let op = as_bytes (concat "custom:" a) in
    ap (λ x. op ++ (x ++ rest)) (as_bytes-concat b c)
    ∙ ap (λ x. op ++ x) (append_assoc (as_bytes b) (as_bytes c) rest)
    ∙ sym (append_assoc op (as_bytes b) (as_bytes c ++ rest))
    ∙ ap (λ x. x ++ (as_bytes c ++ rest))
        (sym (as_bytes-concat (concat "custom:" a) b) ∙ ap as_bytes (concat_assoc "custom:" a b))

-- Whatever the hash function is, an entry of the custom operation `a` on the target `b ++ c` has
-- the hash of the entry of the custom operation `a ++ b` on the target `c`: the fields are hashed
-- one after another with nothing between them.
pub compute_hash-shifted :
    (sha256 : Bytes → String) (to_rfc3339 : Time → String) (e : AuditEntry) (a b c : String)
    → compute_hash sha256 to_rfc3339 (record e { operation = custom a; target = concat b c })
      ≡ compute_hash sha256 to_rfc3339 (record e { operation = custom (concat a b); target = c })
unfolding compute_hash hashed_bytes
compute_hash-shifted sha256 to_rfc3339 e a b c =
    ap
      (λ x.
        sha256
          (le_bytes 8 e.seq ++ (as_bytes (to_rfc3339 e.timestamp) ++ (as_bytes e.user_id ++ x))))
      (shifted a b c _)
