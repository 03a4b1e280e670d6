-- ===== src/Incremental/ChunkStore/Gc.antt =====
-- Garbage collection, and deduplication across snapshots.
use open_vault.Common.{
  ℕ, ◌+◌, ◌-◌, ◌<◌, ◌≤◌, ◌^◌, ◌≡◌, ◌≢◌, refl, ap, ◌∙◌, String, Bool, true, false, not, ◌&&◌, List,
  [], ◌∷◌, arith, length, filter, All, All-imp, contains, string_eq, eq_iff,
}
use open_vault.Vault.{Bytes, ok, VaultStorage, StorageLaws}
use open_vault.Incremental.Chunker.{Chunk}
use open_vault.Incremental.ChunkStore.{
  ChunkStore, chunk_key, store_chunk, retrieve_chunk, clear_chunks, gc, sub_u64,
}
use open_vault.Incremental.ChunkStore.Invariant.{
  IsStore, Distinct, Held, chunk_key-ne, contains-cons_self,
}

contains-filter :
    (p : String → Bool) (h : String) (hs : List String)
    → contains h (filter p hs) ≡ (contains h hs && p h)
contains-filter p h [] = refl
contains-filter p h (k ∷ ks) = ground (arith, contains-filter p h ks, eq_iff k h)

-- The hashes that stay, and those that go, are all of them.
length-filter-not :
    (p : String → Bool) (hs : List String)
    → length (filter p hs) + length (filter (λ h. not (p h)) hs) ≡ length hs
length-filter-not p [] = omega arith
length-filter-not p (h ∷ hs) = ground (arith, length-filter-not p hs)

Distinct-filter : (p : String → Bool) (hs : List String) → Distinct hs → Distinct (filter p hs)
Distinct-filter p [] d = tt
Distinct-filter p (h ∷ hs) d = ground (arith, Distinct-filter p hs, contains-filter p h hs)

sub_u64_lem : (a b : ℕ) → b ≤ a → a < 2 ^ 64 → sub_u64 a b ≡ a - b
unfolding sub_u64
sub_u64_lem a b h k = omega arith

filter-eq_of_All :
    (p q : String → Bool) (hs : List String) → All (λ h. p h ≡ q h) hs → filter p hs ≡ filter q hs
filter-eq_of_All p q [] e = refl
filter-eq_of_All p q (h ∷ hs) e = ground (arith, filter-eq_of_All p q hs)

All-contains :
    (hs ks : List String)
    → ((h : String) → contains h hs ≡ true → contains h ks ≡ true)
    → All (λ h. contains h ks ≡ true) hs
All-contains [] ks f = tt
All-contains (h ∷ hs) ks f =
    (f h (contains-cons_self h hs), All-contains hs ks (λ k e. f k (ground arith)))

abbrev dead : List String → List String → List String
dead live hs = filter (λ h. not (contains h live)) hs

abbrev kept : List String → List String → List String
kept live hs = filter (λ h. not (contains h (dead live hs))) hs

contains-kept :
    (live hs : List String) (h : String)
    → contains h (kept live hs) ≡ (contains h hs && contains h live)
contains-kept live hs h = ground (
  arith,
  contains-filter (λ k. not (contains k live)) h hs,
  contains-filter (λ k. not (contains k (dead live hs))) h hs,
)

length-kept : (live hs : List String) → length (kept live hs) + length (dead live hs) ≡ length hs
length-kept live hs =
    let same : kept live hs ≡ filter (λ h. not (not (contains h live))) hs =
      filter-eq_of_All _ _ hs (
        All-imp (λ h c. ground (arith, contains-filter (λ k. not (contains k live)) h hs)) hs
          (All-contains hs hs (λ h c. c))) in
    omega (arith, length-filter-not (λ h. not (contains h live)) hs, ap (length {A = String}) same)

module _ (sha256 : Bytes → String) {S : Type 0} (ops : VaultStorage S) (laws : StorageLaws ops)
    (snapshot_id : String) where
  Held-clear_chunks :
      (namespace : String) (hs : List String) (storage : S) (h : String)
      → contains h hs ≡ false
      → Held sha256 ops snapshot_id namespace storage h
      → Held sha256 ops snapshot_id namespace (clear_chunks ops storage snapshot_id namespace hs) h
  unfolding clear_chunks
  Held-clear_chunks namespace [] storage h n held = held
  Held-clear_chunks namespace (k ∷ ks) storage h n (d, there, e) =
      let ne : k ≢ h = λ p. cc ((eq_iff k h).1 p) in
      Held-clear_chunks namespace ks _ h (ground arith) (
        d,
        laws.retrieve-store_path storage snapshot_id (chunk_key namespace k) []
              (chunk_key namespace h) (chunk_key-ne namespace k h ne)
            ∙ there,
        e,
      )

  -- Collection returns the number of stored hashes that are not live, and forgets exactly these;
  -- the invariant stays, so that the chunk counter is right and every live chunk is still there.
  -- The u64 subtraction does not wrap. The byte counter is left as it was.
  pub gc_lem :
      (cs : ChunkStore S) (live : List String)
      → IsStore sha256 ops snapshot_id cs
      → length cs.meta.stored_hashes < 2 ^ 64
      → let (r, cs') = gc ops cs snapshot_id live in
        (r ≡ ok (length cs.meta.stored_hashes - length cs'.meta.stored_hashes))
        × ((h : String)
            → contains h cs'.meta.stored_hashes
              ≡ (contains h cs.meta.stored_hashes && contains h live))
        × IsStore sha256 ops snapshot_id cs'
        × (cs'.meta.total_bytes ≡ cs.meta.total_bytes)
  unfolding gc
  gc_lem cs live inv small =
      let hs = cs.meta.stored_hashes in
      let total = length-kept live hs in
      (
        ap ok (omega (arith, total)),
        contains-kept live hs,
        record {
          counted =
              sub_u64_lem cs.meta.total_chunks (length (dead live hs))
                (omega (arith, total, inv.counted)) (omega (arith, inv.counted))
              ∙ omega (arith, total, inv.counted);
          distinct = Distinct-filter _ hs inv.distinct;
          held = λ h c.
              Held-clear_chunks cs.namespace (dead live hs) cs.storage h
                (ground (
                  arith,
                  contains-kept live hs h,
                  contains-filter (λ k. not (contains k live)) h hs,
                ))
                (inv.held h (ground (arith, contains-kept live hs h)));
        },
        refl,
      )

  -- A chunk that was stored for one snapshot is a duplicate for every other snapshot too, and is
  -- not written for it: what the other snapshot reads under the chunk's hash, an error for
  -- instance, is what it read before either call.
  pub dedup_across_snapshots :
      (cs : ChunkStore S) (chunk : Chunk) (other : String)
      → snapshot_id ≢ other
      → contains chunk.hash cs.meta.stored_hashes ≡ false
      → (store_chunk ops cs snapshot_id chunk).0 ≡ ok true
      → let cs' = (store_chunk ops cs snapshot_id chunk).1 in
        ((store_chunk ops cs' other chunk).0 ≡ ok false)
        × (retrieve_chunk ops (store_chunk ops cs' other chunk).1 other chunk.hash
            ≡ retrieve_chunk ops cs other chunk.hash)
  unfolding store_chunk retrieve_chunk
  dedup_across_snapshots cs chunk other n new done =
      let key = chunk_key cs.namespace chunk.hash in
      ground (
        arith,
        eq_iff chunk.hash chunk.hash,
        laws.retrieve-store_id cs.storage snapshot_id key chunk.bytes other n,
      )
