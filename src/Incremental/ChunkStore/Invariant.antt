-- ===== src/Incremental/ChunkStore/Invariant.antt =====
-- What holds of a chunk store that serves one snapshot, and that storing keeps it.
use open_vault.Common.{
  ◌≡◌, refl, ap, sym, ◌∙◌, subst, ◌≢◌, inl, inr, String, true, false, ◌||◌, List, [], ◌∷◌, arith,
  length, contains, concat_cancel, string_eq, ◌==◌, eq_iff, Bool-cases,
}
use open_vault.Vault.{Bytes, VaultResult, ok, err, VaultStorage, StorageLaws}
use open_vault.Incremental.Chunker.{Chunk}
use open_vault.Incremental.ChunkStore.{ChunkStore, chunk_key, record_chunk, store_chunk}

pub chunk_key-ne : (namespace h k : String) → h ≢ k → chunk_key namespace h ≢ chunk_key namespace k
unfolding chunk_key
chunk_key-ne namespace h k n e =
    n (concat_cancel "/" h k (concat_cancel namespace _ _ (concat_cancel "__chunks__/" _ _ e)))

pub contains-cons_self : (h : String) (hs : List String) → contains h (h ∷ hs) ≡ true
contains-cons_self h hs = rw ((eq_iff h h).1 refl)

pub contains_ne :
    (h k : String) (hs : List String) → contains h hs ≡ true → contains k hs ≡ false → h ≢ k
contains_ne h k hs p q e = cc (subst (λ x. contains x hs ≡ true) e p)

-- No hash occurs twice.
abbrev pub Distinct : List String → Type 0
Distinct [] = Unit
Distinct (h ∷ hs) = (contains h hs ≡ false) × Distinct hs

module _ (sha256 : Bytes → String) {S : Type 0} (ops : VaultStorage S) where
  -- The storage holds a chunk of this hash for the snapshot.
  abbrev pub Held : String → String → S → String → Type 0
  Held snapshot_id namespace storage h =
      (d : Bytes) × (ops.retrieve_file storage snapshot_id (chunk_key namespace h) ≡ ok d)
      × (sha256 d ≡ h)

  pub record IsStore (snapshot_id : String) (cs : ChunkStore S) : Type 0 where
    pub counted : cs.meta.total_chunks ≡ length cs.meta.stored_hashes
    pub distinct : Distinct cs.meta.stored_hashes
    pub held :
        (h : String)
        → contains h cs.meta.stored_hashes ≡ true
        → Held snapshot_id cs.namespace cs.storage h

module _ (sha256 : Bytes → String) {S : Type 0} (ops : VaultStorage S) (laws : StorageLaws ops)
    (snapshot_id : String) where
  abbrev stored : ChunkStore S → Chunk → VaultResult (Unit {0}) × S
  stored cs chunk =
      ops.store_file cs.storage snapshot_id (chunk_key cs.namespace chunk.hash) chunk.bytes

  -- A write for a new hash leaves the chunks that are there alone.
  Held-store_ne :
      (cs : ChunkStore S) (chunk : Chunk) (h : String)
      → h ≢ chunk.hash
      → Held sha256 ops snapshot_id cs.namespace cs.storage h
      → Held sha256 ops snapshot_id cs.namespace (stored cs chunk).1 h
  Held-store_ne cs chunk h n (d, there, e) = (
    d,
    laws.retrieve-store_path cs.storage snapshot_id (chunk_key cs.namespace chunk.hash) chunk.bytes
          (chunk_key cs.namespace h) (chunk_key-ne cs.namespace chunk.hash h (λ q. n (sym q)))
        ∙ there,
    e,
  )

  -- A write that succeeds holds the new chunk.
  Held-store_self :
      (cs : ChunkStore S) (chunk : Chunk)
      → chunk.hash ≡ sha256 chunk.bytes
      → (stored cs chunk).0 ≡ ok tt
      → Held sha256 ops snapshot_id cs.namespace (stored cs chunk).1 chunk.hash
  Held-store_self cs chunk hashed done =
      (chunk.bytes, laws.retrieve-store_self cs.storage snapshot_id _ chunk.bytes done, sym hashed)

  record_chunk-IsStore :
      (cs : ChunkStore S) (chunk : Chunk) (r : VaultResult (Unit {0}) × S)
      → stored cs chunk ≡ r
      → chunk.hash ≡ sha256 chunk.bytes
      → contains chunk.hash cs.meta.stored_hashes ≡ false
      → IsStore sha256 ops snapshot_id cs
      → IsStore sha256 ops snapshot_id (record_chunk ops cs chunk r).1
  unfolding record_chunk
  record_chunk-IsStore cs chunk (ok u, s') e hashed new inv = record {
    counted = omega (arith, inv.counted);
    distinct = (new, inv.distinct);
    held = λ h p.
        subst (λ (q : VaultResult (Unit {0}) × S). Held sha256 ops snapshot_id cs.namespace q.1 h) e
          (elim (Bool-cases (chunk.hash == h)) [
            | inl same ↦
                subst (Held sha256 ops snapshot_id cs.namespace (stored cs chunk).1)
                  ((eq_iff chunk.hash h).0 same)
                  (Held-store_self cs chunk hashed (ap (λ (q : VaultResult (Unit {0}) × S). q.0) e))
            | inr other ↦
                Held-store_ne cs chunk h (λ q. cc ((eq_iff chunk.hash h).1 (sym q)))
                  (inv.held h (rw (other, ◌||◌) at p))
          ]);
  }
  record_chunk-IsStore cs chunk (err x, s') e hashed new inv = record {
    counted = inv.counted;
    distinct = inv.distinct;
    held = λ h p.
        subst (λ (q : VaultResult (Unit {0}) × S). Held sha256 ops snapshot_id cs.namespace q.1 h) e
          (Held-store_ne cs chunk h (contains_ne h chunk.hash _ p new) (inv.held h p));
  }

  -- Storing a chunk whose hash is that of its bytes keeps the invariant, whether it is new, a
  -- duplicate, or the write fails: the count is the number of distinct hashes, and each hash of the
  -- set is that of a chunk which the storage holds for the snapshot.
  pub store_chunk-IsStore :
      (cs : ChunkStore S) (chunk : Chunk)
      → chunk.hash ≡ sha256 chunk.bytes
      → IsStore sha256 ops snapshot_id cs
      → IsStore sha256 ops snapshot_id (store_chunk ops cs snapshot_id chunk).1
  unfolding store_chunk
  store_chunk-IsStore cs chunk hashed inv =
      elim (Bool-cases (contains chunk.hash cs.meta.stored_hashes)) [
        | inl old ↦
            rw old (record { counted = inv.counted; distinct = inv.distinct; held = inv.held })
        | inr new ↦ rw new (record_chunk-IsStore cs chunk (stored cs chunk) refl hashed new inv)
      ]
