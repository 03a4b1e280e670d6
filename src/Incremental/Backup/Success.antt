-- ===== src/Incremental/Backup/Success.antt =====
-- What a sequence of actions that succeeds is made of.
use open_vault.Common.{◌≡◌, refl, Option, none, some, arith, string_eq}
use open_vault.Vault.{VaultResult, ok, err}
use open_vault.Incremental.ChunkStore.{ChunkStore}
use open_vault.Incremental.Backup.{M, ◌>>=◌, continue}

module _ {S A B C : Type 0} where
  -- A sequence that succeeds is two actions that succeed.
  pub bind-eq-ok :
      (m : M S A) (f : A → M S B) (cs : ChunkStore S) {b : B} {cs'' : ChunkStore S}
      → (m >>= f) cs ≡ some (ok b, cs'')
      → ((a : A) (cs' : ChunkStore S) → m cs ≡ some (ok a, cs') → f a cs' ≡ some (ok b, cs'') → C)
      → C
  unfolding ◌>>=◌
  bind-eq-ok m f cs {b} {cs''} = go (m cs)
    where
      go :
          (r : Option (VaultResult A × ChunkStore S))
          → continue r f ≡ some (ok b, cs'')
          → ((a : A) (cs' : ChunkStore S) → r ≡ some (ok a, cs') → f a cs' ≡ some (ok b, cs'') → C)
          → C
      go none e k = absurd (ground arith)
      go (some (ok a, cs')) e k = k a cs' refl e
      go (some (err x, cs')) e k = absurd (ground arith)
