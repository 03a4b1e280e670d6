-- ===== src/Vault/Texts.antt =====
-- The texts that `format!` builds, kept as their fragments: what is written between the braces
-- stays a value. How a number or a `{:?}` argument is spelled is not modelled.
use open_vault.Common.{ℕ, String, List}

pub data Fragment : Type 0 where
  text : String → Fragment
  number : ℕ → Fragment
  quoted : String → Fragment

abbrev pub Message : Type 0
Message = List Fragment

-- The bytes of a file.
abbrev pub Bytes : Type 0
Bytes = List ℕ

-- An instant of `DateTime<Utc>`, in nanoseconds from the first instant that chrono represents.
abbrev pub Time : Type 0
Time = ℕ
