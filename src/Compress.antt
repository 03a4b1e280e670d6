-- ===== src/Compress.antt =====
-- crates/openvault-core/src/compress.rs: compressors, the detection of a format, and the storage
-- that compresses what it stores. The crates zstd and lz4_flex are parameters.
pub mod Laws
use open_vault.Common.{
  ℕ, ◌+◌, ◌-◌, String, Bool, true, false, Option, none, some, List, [], ◌∷◌, ◌++◌, length, take,
  drop, ltb, nat_beq, ◌&&◌, if◌then◌else◌,
}
use open_vault.Vault.{
  text, Message, Bytes, VaultError, VaultResult, ok, err, ◌>>=◌, map_err, display, VaultStorage,
  Snapshot, FileEntry,
}
use open_vault.Fs.{Fs, join, parent, write, create_dir_all}

abbrev pub zstd_magic : Bytes
zstd_magic = 0x28 ∷ 0xb5 ∷ 0x2f ∷ 0xfd ∷ []

abbrev pub lz4_magic : Bytes
lz4_magic = 0x04 ∷ 0x22 ∷ 0x4d ∷ 0x18 ∷ []

pub data CompressionAlgorithm : Type 0 where
  zstd lz4 : CompressionAlgorithm

pub magic_bytes : CompressionAlgorithm → Bytes
magic_bytes zstd = zstd_magic
magic_bytes lz4 = lz4_magic

pub name : CompressionAlgorithm → String
name zstd = "Zstd"
name lz4 = "LZ4"

-- Equality of slices.
abbrev pub same_bytes : Bytes → Bytes → Bool
same_bytes [] [] = true
same_bytes [] (b ∷ bs) = false
same_bytes (a ∷ as_) [] = false
same_bytes (a ∷ as_) (b ∷ bs) = nat_beq a b && same_bytes as_ bs

unfoldable pub detect_format : Bytes → Option CompressionAlgorithm
detect_format bytes =
    if ltb (length bytes) 4
    then none
    else if same_bytes (take 4 bytes) zstd_magic
    then some zstd
    else if same_bytes (take 4 bytes) lz4_magic
    then some lz4
    else none

-- What is used of the crates: an error is the text that it displays.
pub record Codecs : Type 0 where
  pub encode_all : Bytes → ℕ → VaultResult Bytes
  pub decode_all : Bytes → VaultResult Bytes
  pub compress_prepend_size : Bytes → Bytes
  pub decompress_size_prepended : Bytes → VaultResult Bytes

-- The two implementations of the trait `VaultCompressor`, with their fields.
pub data VaultCompressor : Type 0 where
  zstd_compressor : ℕ → VaultCompressor
  lz4_compressor : Bool → VaultCompressor

abbrev pub new_zstd : VaultCompressor
new_zstd = zstd_compressor 3

-- `clamp(1, 22)`; a level below 0 is clamped like 0.
pub with_level : ℕ → VaultCompressor
with_level level = zstd_compressor (if ltb level 1 then 1 else if ltb 22 level then 22 else level)

abbrev pub new_lz4 : VaultCompressor
new_lz4 = lz4_compressor false

abbrev pub with_high_compression : VaultCompressor
with_high_compression = lz4_compressor true

pub algorithm : VaultCompressor → CompressionAlgorithm
algorithm (zstd_compressor level) = zstd
algorithm (lz4_compressor high) = lz4

abbrev compression : String → VaultError
compression m = VaultError.compression (text m ∷ [])

abbrev compression_failed : String → VaultError → VaultError
compression_failed m e = VaultError.compression (text m ∷ display e)

module _ (crates : Codecs) where
  unfoldable pub compress : VaultCompressor → Bytes → VaultResult Bytes
  compress (zstd_compressor level) bytes =
      map_err (compression_failed "Zstd compression failed: ") (crates.encode_all bytes level)
  compress (lz4_compressor high) bytes = ok (lz4_magic ++ crates.compress_prepend_size bytes)

  unfoldable pub zstd_decompress : Bytes → VaultResult Bytes
  zstd_decompress bytes =
      if ltb (length bytes) 4
      then map_err (compression_failed "Zstd decompression failed: ") (crates.decode_all bytes)
      else if same_bytes (take 4 bytes) zstd_magic
      then map_err (compression_failed "Zstd decompression failed: ") (crates.decode_all bytes)
      else err (compression "Data does not have Zstd magic bytes")

  unfoldable pub lz4_decompress : Bytes → VaultResult Bytes
  lz4_decompress bytes =
      if ltb (length bytes) 4
      then err (compression "Data too short for LZ4")
      else if same_bytes (take 4 bytes) lz4_magic
      then map_err (compression_failed "LZ4 decompression failed: ")
          (crates.decompress_size_prepended (drop 4 bytes))
      else err (compression "Data does not have LZ4 magic bytes")

  pub decompress : VaultCompressor → Bytes → VaultResult Bytes
  unfolding zstd_decompress lz4_decompress
  decompress (zstd_compressor level) bytes = zstd_decompress bytes
  decompress (lz4_compressor high) bytes = lz4_decompress bytes

  -- By the format that is detected, and what stands for bytes of no known format.
  abbrev by_format : Bytes → VaultResult Bytes → Option CompressionAlgorithm → VaultResult Bytes
  by_format bytes other (some zstd) = zstd_decompress bytes
  by_format bytes other (some lz4) = lz4_decompress bytes
  by_format bytes other none = other

  unfoldable pub auto_decompress : Bytes → VaultResult Bytes
  auto_decompress bytes =
      by_format bytes (err (compression "Unknown compression format (magic bytes not recognized)"))
        (detect_format bytes)

  module _ {S : Type 0} (inner : VaultStorage S) (compressor : VaultCompressor) where
    abbrev after_compress : S → String → String → VaultResult Bytes → VaultResult (Unit {0}) × S
    after_compress s id path (ok bytes) = inner.store_file s id path bytes
    after_compress s id path (err e) = (
      err (VaultError.storage (text "Compression failed for " ∷ text path ∷ text ": " ∷ display e)),
      s,
    )

    unfoldable pub store_file : S → String → String → Bytes → VaultResult (Unit {0}) × S
    store_file s id path bytes = after_compress s id path (compress compressor bytes)

    unfoldable pub retrieve_file : S → String → String → VaultResult Bytes
    retrieve_file s id path = do
      bytes ← inner.retrieve_file s id path
      by_format bytes (ok bytes) (detect_format bytes)

    -- `CompressedStorage` as a `VaultStorage`: the snapshots go through as they are.
    abbrev pub compressed : VaultStorage S
    compressed = record inner {
      store_file = store_file;
      retrieve_file = retrieve_file;
      backend_name = λ s. "compressed";
    }

    abbrev after_retrieve : Fs → String → VaultResult Bytes → VaultResult (Unit {0}) × Fs
    after_retrieve fs path (err e) = (err e, fs)
    after_retrieve fs path (ok bytes) =
        let (done, fs') = write fs path bytes in
        (
          map_err
              (λ e.
                VaultError.restore_failed
                  (text "Failed to write " ∷ text path ∷ text ": " ∷ display e))
              done,
          fs',
        )

    abbrev make_parent : Fs → Option String → VaultResult (Unit {0})
    make_parent fs none = ok tt
    make_parent fs (some dir) =
        map_err (λ e. VaultError.restore_failed (text "Failed to create parent: " ∷ display e))
          (create_dir_all fs dir)

    -- The loop of `restore_snapshot`.
    unfoldable pub restore_entries :
        S → String → List FileEntry → String → Fs → VaultResult (Unit {0}) × Fs
    restore_entries s id [] target fs = (ok tt, fs)
    restore_entries s id (entry ∷ rest) target fs =
        let path = join target entry.path in
        elim (make_parent fs (parent path)) [
          | err e ↦ (err e, fs)
          | ok _ ↦
              let (done, fs') = after_retrieve fs path (retrieve_file s id entry.path) in
              elim done [ err e ↦ (err e, fs') | ok _ ↦ restore_entries s id rest target fs' ]
        ]

    pub restore_snapshot : S → Snapshot → String → Fs → VaultResult (Unit {0}) × Fs
    unfolding restore_entries
    restore_snapshot s snapshot target fs = elim (create_dir_all fs target) [
      | err e ↦ (
        err (VaultError.restore_failed (text "Failed to create target directory: " ∷ display e)),
        fs,
      )
      | ok _ ↦ restore_entries s snapshot.id snapshot.entries target fs
    ]

-- The sizes of a compression; its ratio is a floating-point figure.
pub record CompressionStats : Type 0 where
  pub original_size : ℕ
  pub compressed_size : ℕ
  pub algorithm : CompressionAlgorithm

-- `saturating_sub`.
pub bytes_saved : CompressionStats → ℕ
bytes_saved c = c.original_size - c.compressed_size

pub compress_with_stats : Codecs → Bytes → VaultCompressor → VaultResult (Bytes × CompressionStats)
unfolding compress algorithm
compress_with_stats crates bytes compressor = do
  packed ← compress crates compressor bytes
  ok (
    packed,
    record {
      original_size = length bytes;
      compressed_size = length packed;
      algorithm = algorithm compressor;
    },
  )
