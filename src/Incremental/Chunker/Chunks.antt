-- ===== src/Incremental/Chunker/Chunks.antt =====
-- What `chunk_data` returns: chunks that tile the data.
use open_vault.Common.{
  ℕ, zero, suc, ◌+◌, ◌-◌, ◌^◌, ◌≤◌, ◌<◌, ◌≡◌, refl, sym, ◌∙◌, subst, ◌⊎◌, inl, inr, String, Option,
  some, List, [], ◌∷◌, ◌++◌, arith, length, drop, ltb, Bool-cases, ltb→lt, ltb→le,
  slice-append-drop, length-slice, drop-length, le→ltb,
}
use open_vault.Vault.{Bytes}
use open_vault.Incremental.Chunker.{
  Chunk, Chunker, find_boundary, push, chunk_at, chunks_from, chunk_data,
}
use open_vault.Incremental.Chunker.Bounds.{IsBoundary, find_boundary-IsBoundary}

-- The bytes of the chunks, one after another.
abbrev pub joined : List Chunk → Bytes
joined [] = []
joined (k ∷ ks) = k.bytes ++ joined ks

module _ (sha256 : Bytes → String) where
  -- One chunk of `data`: what it holds and how large it is.
  pub record IsChunk (c : Chunker) (start : ℕ) (k : Chunk) : Type 0 where
    pub offset : k.offset ≡ start
    pub hash : k.hash ≡ sha256 k.bytes
    pub size : k.size ≡ length k.bytes
    pub positive : 0 < k.size
    pub at_most : k.size ≤ c.max_chunk

  -- The chunks follow one another without a gap; only the last may be smaller than `min_chunk`.
  abbrev pub Tiles : Chunker → ℕ → List Chunk → Type 0
  Tiles c start [] = Unit
  Tiles c start (k ∷ ks) =
      IsChunk c start k × ((c.min_chunk ≤ k.size) ⊎ (ks ≡ [])) × Tiles c (start + k.size) ks

pub chunk_data-chunks_from :
    (sha256 : Bytes → String) (c : Chunker) (bytes : Bytes)
    → chunk_data sha256 c bytes ≡ chunks_from sha256 c bytes (length bytes) 0
unfolding chunk_data chunks_from
chunk_data-chunks_from sha256 c [] = refl
chunk_data-chunks_from sha256 c (b ∷ bs) = refl

module _ (sha256 : Bytes → String) (c : Chunker) (pos : 0 < c.max_chunk)
    (le : c.min_chunk ≤ c.max_chunk) (wide : 0 < c.window_size) (bytes : Bytes)
    (fits : length bytes + c.max_chunk + c.window_size < 2 ^ 64) where
  abbrev Found : ℕ → Option (List Chunk) → Type 0
  Found start r =
      (ks : List Chunk) × (r ≡ some ks)
      × Tiles sha256 c start ks
      × (joined ks ≡ drop start bytes)
      × (length bytes ≤ start → ks ≡ [])

  chunk_at-IsChunk :
      (start end : ℕ)
      → IsBoundary c bytes start end
      → IsChunk sha256 c start (chunk_at sha256 bytes start end)
  unfolding chunk_at
  chunk_at-IsChunk start end b = record {
    offset = refl;
    hash = refl;
    size = sym (length-slice start end bytes b.inside);
    positive = omega (arith, b.after);
    at_most = b.at_most;
  }

  Found-push :
      (start end : ℕ) (r : Option (List Chunk))
      → IsBoundary c bytes start end
      → Found end r
      → Found start (push (chunk_at sha256 bytes start end) r)
  unfolding chunk_at
  Found-push start end r b (ks, found, tiles, whole, last) = (
    chunk_at sha256 bytes start end ∷ ks,
    rw found,
    (
      chunk_at-IsChunk start end b,
      at_least b.at_least,
      subst (λ i. Tiles sha256 c i ks) (omega (arith, b.after)) tiles,
    ),
    rw whole (slice-append-drop start end bytes (omega (arith, b.after))),
    λ beyond. absurd (omega (arith, b.after, b.inside)),
  )
    where
      at_least :
          (c.min_chunk ≤ end - start) ⊎ (end ≡ length bytes)
          → (c.min_chunk ≤ end - start) ⊎ (ks ≡ [])
      at_least (inl large) = inl large
      at_least (inr e) = inr (last (omega (arith, e)))

  chunks_from-Found :
      (fuel start : ℕ)
      → length bytes ≤ start + fuel
      → Found start (chunks_from sha256 c bytes fuel start)
  unfolding chunks_from
  chunks_from-Found zero start h = (
    [],
    rw (le→ltb start (length bytes) (omega arith)),
    tt,
    sym (drop-length start bytes (omega arith)),
    λ _. refl,
  )
  chunks_from-Found (suc fuel) start h = elim (Bool-cases (ltb start (length bytes))) [
    | inl more ↦
        let b = find_boundary-IsBoundary c bytes start pos le wide fits (ltb→lt _ _ more) in
        rw (more, le→ltb (find_boundary c bytes start) start (omega (arith, b.after)))
          (Found-push start (find_boundary c bytes start) _ b
            (chunks_from-Found fuel (find_boundary c bytes start) (omega (arith, b.after))))
    | inr done ↦
        let beyond = ltb→le _ _ done in
        ([], rw done, tt, sym (drop-length start bytes beyond), λ _. refl)
  ]

  -- For a chunker with a positive maximum and window and a minimum within the maximum, where the
  -- data, the maximum and the window are together below 2^64, `chunk_data` ends, and its chunks
  -- tile the data: their bytes joined are the data, their offsets follow one another from 0, each
  -- has the hash and the size of its bytes, is not empty and at most `max_chunk` long, and all but
  -- the last are at least `min_chunk` long.
  pub chunk_data-Tiles :
      (ks : List Chunk) × (chunk_data sha256 c bytes ≡ some ks)
      × Tiles sha256 c 0 ks
      × (joined ks ≡ bytes)
  chunk_data-Tiles =
      let (ks, found, tiles, whole, _) = chunks_from-Found (length bytes) 0 (omega arith) in
      (ks, chunk_data-chunks_from sha256 c bytes ∙ found, tiles, whole)
