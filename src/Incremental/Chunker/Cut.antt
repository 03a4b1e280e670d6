-- ===== src/Incremental/Chunker/Cut.antt =====
-- The chunks behind a cut.
use open_vault.Common.{
  ℕ, zero, suc, ◌+◌, ◌-◌, ◌^◌, ◌≤◌, ◌<◌, ◌≡◌, refl, ap, sym, ◌∙◌, subst, inl, inr, String, Option,
  none, some, List, [], ◌∷◌, ◌++◌, map, arith, length, take, ltb, Bool-cases, ltb→lt, le→ltb,
  if◌then◌else◌, Bool, true, drop-append, take-append, length-append, length-slice,
}
use open_vault.Vault.{Bytes}
use open_vault.Incremental.Chunker.{
  Chunk, Chunker, find_boundary, push, chunk_at, chunks_from, chunk_data,
}
use open_vault.Incremental.Chunker.Chunks.{joined, chunk_data-chunks_from, chunk_data-Tiles}
use open_vault.Incremental.Chunker.Bounds.{find_boundary-IsBoundary}
use open_vault.Incremental.Chunker.Shift.{find_boundary-shift}

-- A chunk, found `n` bytes further on in the file.
abbrev pub moved : ℕ → Chunk → Chunk
moved n k = record k { offset = n + k.offset }

abbrev moved_all : ℕ → Option (List Chunk) → Option (List Chunk)
moved_all n none = none
moved_all n (some ks) = some (map (moved n) ks)

push-moved :
    (n : ℕ) (k : Chunk) (r : Option (List Chunk))
    → push (moved n k) (moved_all n r) ≡ moved_all n (push k r)
push-moved n k none = refl
push-moved n k (some ks) = refl

ltb-shift :
    (pre bytes : Bytes) (start : ℕ)
    → ltb (length pre + start) (length (pre ++ bytes)) ≡ ltb start (length bytes)
ltb-shift pre bytes start = ground (arith, length-append pre bytes)

if-none :
    (b : Bool) (r : Option (List Chunk)) {ks : List Chunk}
    → (if b then none else r) ≡ some ks
    → r ≡ some ks
if-none b r e = ground arith

push-eq-some :
    (k : Chunk) (r : Option (List Chunk)) {ks : List Chunk}
    → push k r ≡ some ks
    → (ls : List Chunk) × (r ≡ some ls) × (ks ≡ k ∷ ls)
push-eq-some k none e = cc
push-eq-some k (some ls) e = (ls, refl, cc)

module _ (sha256 : Bytes → String) (c : Chunker) where
  fits_behind :
      (pre bytes : Bytes)
      → length (pre ++ bytes) + c.max_chunk + c.window_size < 2 ^ 64
      → length bytes + c.max_chunk + c.window_size < 2 ^ 64
  fits_behind pre bytes h = omega (arith, length-append pre bytes)

  chunk_at-moved :
      (pre bytes : Bytes) (start end : ℕ)
      → chunk_at sha256 (pre ++ bytes) (length pre + start) (length pre + end)
        ≡ moved (length pre) (chunk_at sha256 bytes start end)
  unfolding chunk_at
  chunk_at-moved pre bytes start end =
      let e : length pre + end - (length pre + start) ≡ end - start = omega arith in
      rw (e, take-append pre bytes end, drop-append pre (take end bytes) start)

  chunks_from-shift :
      (pos : 0 < c.max_chunk) (le : c.min_chunk ≤ c.max_chunk) (wide : 0 < c.window_size)
      (pre bytes : Bytes) (fits : length (pre ++ bytes) + c.max_chunk + c.window_size < 2 ^ 64)
      (fuel start : ℕ)
      → chunks_from sha256 c (pre ++ bytes) fuel (length pre + start)
        ≡ moved_all (length pre) (chunks_from sha256 c bytes fuel start)
  unfolding chunks_from
  chunks_from-shift pos le wide pre bytes fits zero start = ground (arith, length-append pre bytes)
  chunks_from-shift pos le wide pre bytes fits (suc fuel) start =
      elim (Bool-cases (ltb start (length bytes))) [
        | inl more ↦
            let end = find_boundary c bytes start in
            let small = fits_behind pre bytes fits in
            let b = find_boundary-IsBoundary c bytes start pos le wide small (ltb→lt _ _ more) in
            rw
              (
                find_boundary-shift c le pre bytes fits start (omega (arith, b.after, b.inside)),
                chunk_at-moved pre bytes start end,
                chunks_from-shift pos le wide pre bytes fits fuel end,
                push-moved,
                ltb-shift pre bytes start,
                more,
                le→ltb end start (omega (arith, b.after)),
                le→ltb (length pre + end) (length pre + start) (omega (arith, b.after)),
              )
              refl
        | inr done ↦ rw (ltb-shift pre bytes start, done) refl
      ]

  chunks_from-more :
      (bytes : Bytes) (fuel start : ℕ) {ks : List Chunk}
      → ltb start (length bytes) ≡ true
      → chunks_from sha256 c bytes (suc fuel) start ≡ some ks
      → push
          (chunk_at sha256 bytes start (find_boundary c bytes start))
          (chunks_from sha256 c bytes fuel (find_boundary c bytes start))
        ≡ some ks
  unfolding chunks_from
  chunks_from-more bytes fuel start more p =
      if-none (ltb (find_boundary c bytes start) start) _ (rw more at p)

  -- Two runs that end return the same chunks, whatever their fuel.
  chunks_from-fuel :
      (bytes : Bytes) (f g start : ℕ) {ks ls : List Chunk}
      → chunks_from sha256 c bytes f start ≡ some ks
      → chunks_from sha256 c bytes g start ≡ some ls
      → ks ≡ ls
  unfolding chunks_from
  chunks_from-fuel bytes zero zero start p q = ground arith
  chunks_from-fuel bytes zero (suc g) start p q = ground arith
  chunks_from-fuel bytes (suc f) zero start p q = ground arith
  chunks_from-fuel bytes (suc f) (suc g) start p q = elim (Bool-cases (ltb start (length bytes))) [
    | inl more ↦
        let k = chunk_at sha256 bytes start (find_boundary c bytes start) in
        let (ks, found, e) = push-eq-some k _ (chunks_from-more bytes f start more p) in
        let (ls, found', e') = push-eq-some k _ (chunks_from-more bytes g start more q) in
        e
        ∙ ap (λ t. k ∷ t) (chunks_from-fuel bytes f g (find_boundary c bytes start) found found')
        ∙ sym e'
    | inr done ↦ cc (rw done at p, rw done at q)
  ]

module _ (sha256 : Bytes → String) (c : Chunker) (pos : 0 < c.max_chunk)
    (le : c.min_chunk ≤ c.max_chunk) (wide : 0 < c.window_size) where
  chunk_at-end :
      (bytes : Bytes) (fits : length bytes + c.max_chunk + c.window_size < 2 ^ 64) (start : ℕ)
      → start < length bytes
      → {k : Chunk} → k ≡ chunk_at sha256 bytes start (find_boundary c bytes start)
      → find_boundary c bytes start ≡ start + length k.bytes
  unfolding chunk_at
  chunk_at-end bytes fits start h e =
      let b = find_boundary-IsBoundary c bytes start pos le wide fits h in
      omega (
        arith,
        b.after,
        length-slice start (find_boundary c bytes start) bytes b.inside,
        ap (λ (k : Chunk). length k.bytes) e,
      )

  -- A run that returns `ks ++ ls` passes through the end of `ks`, and returns `ls` from there.
  chunks_from-append :
      (bytes : Bytes) (fits : length bytes + c.max_chunk + c.window_size < 2 ^ 64)
      (ks ls : List Chunk) (f start : ℕ)
      → chunks_from sha256 c bytes f start ≡ some (ks ++ ls)
      → (g : ℕ) × (chunks_from sha256 c bytes g (start + length (joined ks)) ≡ some ls)
  unfolding chunks_from
  chunks_from-append bytes fits [] ls f start p =
      (f, subst (λ i. chunks_from sha256 c bytes f i ≡ some ls) (omega arith) p)
  chunks_from-append bytes fits (k ∷ ks) ls zero start p = absurd (ground arith)
  chunks_from-append bytes fits (k ∷ ks) ls (suc f) start p =
      elim (Bool-cases (ltb start (length bytes))) [
        | inl more ↦
            let (rest, found, e) =
              push-eq-some (chunk_at sha256 bytes start (find_boundary c bytes start)) _
                (chunks_from-more sha256 c bytes f start more p) in
            let end : find_boundary c bytes start ≡ start + length k.bytes =
              chunk_at-end bytes fits start (ltb→lt _ _ more) {k = k} (cc e) in
            let (g, q) =
              chunks_from-append bytes fits ks ls f (find_boundary c bytes start)
                (found ∙ ap some (cc e)) in
            (
              g,
              subst (λ i. chunks_from sha256 c bytes g i ≡ some ls)
                  (omega (arith, end, length-append k.bytes (joined ks))) q,
            )
        | inr done ↦ absurd (cc (rw done at p))
      ]

  -- Where a file has a cut after `pre`, the chunks from there on are those of the rest of the file
  -- taken alone, moved by the length of `pre`, for a chunker with a positive maximum and window and
  -- a minimum within the maximum, and where the file, the maximum and the window are together below
  -- 2^64.
  pub chunk_data-cut :
      (pre bytes : Bytes) (fits : length (pre ++ bytes) + c.max_chunk + c.window_size < 2 ^ 64)
      (ks ls : List Chunk)
      → chunk_data sha256 c (pre ++ bytes) ≡ some (ks ++ ls)
      → joined ks ≡ pre
      → (ms : List Chunk) × (chunk_data sha256 c bytes ≡ some ms)
        × (ls ≡ map (moved (length pre)) ms)
  chunk_data-cut pre bytes fits ks ls p e =
      let (ms, found, _, _) =
        chunk_data-Tiles sha256 c pos le wide bytes (fits_behind sha256 c pre bytes fits) in
      let (g, q) =
        chunks_from-append (pre ++ bytes) fits ks ls _ 0
          (sym (chunk_data-chunks_from sha256 c (pre ++ bytes)) ∙ p) in
      let whole : chunks_from sha256 c (pre ++ bytes) (length bytes) (length pre + 0)
          ≡ some (map (moved (length pre)) ms) =
        chunks_from-shift sha256 c pos le wide pre bytes fits (length bytes) 0
        ∙ ap (moved_all (length pre)) (sym (chunk_data-chunks_from sha256 c bytes) ∙ found) in
      let here : 0 + length (joined ks) ≡ length pre + 0 = omega (arith, ap (length {A = ℕ}) e) in
      (
        ms,
        found,
        chunks_from-fuel sha256 c (pre ++ bytes) g (length bytes) (length pre + 0)
            (subst (λ i. chunks_from sha256 c (pre ++ bytes) g i ≡ some ls) here q) whole,
      )
