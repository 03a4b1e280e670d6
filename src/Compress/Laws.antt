-- ===== src/Compress/Laws.antt =====
-- What is stored compressed is read back, and the compressing storage keeps the laws of a storage.
use open_vault.Common.{ℕ, ◌≡◌, refl, subst, String, some, ◌++◌, arith}
use open_vault.Vault.{Bytes, VaultResult, ok, err, VaultStorage, StorageLaws}
use open_vault.Compress.{
  Codecs, VaultCompressor, zstd_compressor, lz4_compressor, zstd, lz4, zstd_magic, lz4_magic,
  detect_format, compress, zstd_decompress, lz4_decompress, by_format, auto_decompress,
  after_compress, store_file, retrieve_file, compressed,
}

-- What the code relies on of the crates: the magic number of a Zstandard frame, and that both
-- decode what they have encoded.
pub record CodecLaws (crates : Codecs) : Type 0 where
  pub frame :
      (bytes : Bytes) (level : ℕ) (packed : Bytes)
      → crates.encode_all bytes level ≡ ok packed
      → (rest : Bytes) × (packed ≡ zstd_magic ++ rest)
  pub decode-encode :
      (bytes : Bytes) (level : ℕ) (packed : Bytes)
      → crates.encode_all bytes level ≡ ok packed
      → crates.decode_all packed ≡ ok bytes
  pub decompress-compress :
      (bytes : Bytes)
      → crates.decompress_size_prepended (crates.compress_prepend_size bytes) ≡ ok bytes

detect-zstd : (rest : Bytes) → detect_format (zstd_magic ++ rest) ≡ some zstd
unfolding detect_format
detect-zstd rest = ground arith

detect-lz4 : (rest : Bytes) → detect_format (lz4_magic ++ rest) ≡ some lz4
unfolding detect_format
detect-lz4 rest = ground arith

module _ (crates : Codecs) (laws : CodecLaws crates) where
  zstd_decompress-frame :
      (rest : Bytes) (bytes : Bytes)
      → crates.decode_all (zstd_magic ++ rest) ≡ ok bytes
      → zstd_decompress crates (zstd_magic ++ rest) ≡ ok bytes
  unfolding zstd_decompress
  zstd_decompress-frame rest bytes e = ground arith

  lz4_decompress-prefix :
      (rest : Bytes) (bytes : Bytes)
      → crates.decompress_size_prepended rest ≡ ok bytes
      → lz4_decompress crates (lz4_magic ++ rest) ≡ ok bytes
  unfolding lz4_decompress
  lz4_decompress-prefix rest bytes e = ground arith

  -- Whatever compressor was used, the format is detected and the bytes come back.
  by_format-compress :
      (compressor : VaultCompressor) (bytes packed : Bytes) (other : VaultResult Bytes)
      → compress crates compressor bytes ≡ ok packed
      → by_format crates packed other (detect_format packed) ≡ ok bytes
  unfolding compress
  by_format-compress (zstd_compressor level) bytes packed other e =
      let encoded : crates.encode_all bytes level ≡ ok packed = ground arith in
      let (rest, framed) = laws.frame bytes level packed encoded in
      let decoded = laws.decode-encode bytes level packed encoded in
      rw framed (
        rw (detect-zstd rest) (
          zstd_decompress-frame rest bytes
            (subst (λ (b : Bytes). crates.decode_all b ≡ ok bytes) framed decoded)))
  by_format-compress (lz4_compressor high) bytes packed other e =
      let framed : lz4_magic ++ crates.compress_prepend_size bytes ≡ packed = ground arith in
      rw (← framed) (
        rw (detect-lz4 (crates.compress_prepend_size bytes)) (
          lz4_decompress-prefix (crates.compress_prepend_size bytes) bytes
            (laws.decompress-compress bytes)))

  -- Compressed data are decompressed to what they were made of, whichever compressor made them.
  pub auto_decompress-compress :
      (compressor : VaultCompressor) (bytes packed : Bytes)
      → compress crates compressor bytes ≡ ok packed
      → auto_decompress crates packed ≡ ok bytes
  unfolding auto_decompress
  auto_decompress-compress compressor bytes packed e =
      by_format-compress compressor bytes packed _ e

  module _ {S : Type 0} (inner : VaultStorage S) (compressor : VaultCompressor)
      (inner_laws : StorageLaws inner) where
    retrieve-after :
        (s : S) (id path : String) (bytes : Bytes) (r : VaultResult Bytes)
        → compress crates compressor bytes ≡ r
        → (after_compress crates inner compressor s id path r).0 ≡ ok tt
        → retrieve_file crates inner compressor
            (after_compress crates inner compressor s id path r).1
            id
            path
          ≡ ok bytes
    unfolding retrieve_file
    retrieve-after s id path bytes (ok packed) e done =
        rw (inner_laws.retrieve-store_self s id path packed done)
          (by_format-compress compressor bytes packed (ok packed) e)
    retrieve-after s id path bytes (err x) e done = absurd (ground arith)

    -- What the inner storage answers behind a write of compressed bytes.
    inner-after :
        {A : Type 0} (ask : S → A) (s : S) (id path : String) (r : VaultResult Bytes)
        → ((packed : Bytes) → ask (inner.store_file s id path packed).1 ≡ ask s)
        → ask (after_compress crates inner compressor s id path r).1 ≡ ask s
    inner-after ask s id path (ok packed) keeps = keeps packed
    inner-after ask s id path (err x) keeps = refl

    retrieve-inner :
        (s s' : S) (id path : String)
        → inner.retrieve_file s' id path ≡ inner.retrieve_file s id path
        → retrieve_file crates inner compressor s' id path
          ≡ retrieve_file crates inner compressor s id path
    unfolding retrieve_file
    retrieve-inner s s' id path e = rw e refl

    -- Let the crates decode what they encode and frame it as documented. Over an inner storage that
    -- keeps the laws of a storage, the compressing storage keeps them too.
    pub compressed-StorageLaws : StorageLaws (compressed crates inner compressor)
    unfolding store_file
    compressed-StorageLaws = record {
      retrieve-store_self = λ s id path bytes done. retrieve-after s id path bytes _ refl done;
      retrieve-store_path = λ s id path bytes path' n. retrieve-inner s _ id path' (
          inner-after (λ (x : S). inner.retrieve_file x id path') s id path
            (compress crates compressor bytes)
            (λ packed. inner_laws.retrieve-store_path s id path packed path' n));
      retrieve-store_id = λ s id path bytes id' n. retrieve-inner s _ id' path (
          inner-after (λ (x : S). inner.retrieve_file x id' path) s id path
            (compress crates compressor bytes)
            (λ packed. inner_laws.retrieve-store_id s id path packed id' n));
      latest-store_file = λ s id path bytes from.
          inner-after (λ (x : S). inner.latest_snapshot x from) s id path
            (compress crates compressor bytes)
            (λ packed. inner_laws.latest-store_file s id path packed from);
      load-store_file = λ s id path bytes id'.
          inner-after (λ (x : S). inner.load_snapshot x id') s id path
            (compress crates compressor bytes)
            (λ packed. inner_laws.load-store_file s id path packed id');
      retrieve-store_snapshot = λ s snap id path.
          retrieve-inner s _ id path (inner_laws.retrieve-store_snapshot s snap id path);
      load-store_snapshot = inner_laws.load-store_snapshot;
    }
