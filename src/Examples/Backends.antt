-- ===== src/Examples/Backends.antt =====
-- A coding of one snapshot, crates that add a frame, and the backends with them.
use open_vault.Fs.{join}
use open_vault.Common.{
  concat, ◌≡◌, refl, sym, ap, true, none, [], ◌∷◌, ◌++◌, String-discrete, decide_beq, if◌then◌else◌,
  drop,
}
use native.Mathlib.Decide.{ℕ_discrete}
use open_vault.Vault.{Bytes, VaultError, ok, err, ok-injective, Snapshot, full, StorageLaws}
use open_vault.Local.{SnapshotCodec}
use open_vault.Local.Paths.{plain_from, path_join, real, walk, render}
use open_vault.Local.Plain.{PlainPath}
use open_vault.Examples.Memory.{memory, memory-StorageLaws}
use open_vault.Compress.{Codecs, compressed, new_zstd, zstd_magic}
use open_vault.Compress.Laws.{CodecLaws, compressed-StorageLaws}

abbrev snapshot : Snapshot
snapshot = record {
  id = "snap";
  created_at = 0;
  strategy = full;
  source = "/data";
  storage_backend = "local";
  entries = [];
  parent_id = none;
  total_size = 0;
}

Snapshot-discrete : Discrete Snapshot
Snapshot-discrete = hlevel (String-discrete, ℕ_discrete)

-- Only the one snapshot can be serialised.
abbrev json : SnapshotCodec
json = record {
  to_string_pretty = λ s.
      if decide_beq (Snapshot-discrete s snapshot)
      then ok (123 ∷ 125 ∷ [])
      else err (VaultError.serialization []);
  from_str = λ bytes. ok snapshot;
  is_utf8 = λ bytes. true;
}

plain_path : PlainPath "photos/..old/a.jpg"
unfolding plain_from concat
plain_path = refl

leaving_path :
    real (path_join "/vault/data/snap" "../../snapshots/x.json") ≡ "/vault/snapshots/x.json"
unfolding real path_join join walk render concat
leaving_path = refl

abbrev crates : Codecs
crates = record {
  encode_all = λ bytes level. ok (zstd_magic ++ bytes);
  decode_all = λ bytes. ok (drop 4 bytes);
  compress_prepend_size = λ bytes. bytes;
  decompress_size_prepended = λ bytes. ok bytes;
}

crates-CodecLaws : CodecLaws crates
crates-CodecLaws = record {
  frame = λ bytes level packed e. (bytes, sym (ok-injective e));
  decode-encode = λ bytes level packed e. ap (λ (b : Bytes). ok (drop 4 b)) (sym (ok-injective e));
  decompress-compress = λ bytes. refl;
}

-- Compression over a table of files.
compressed-StorageLaws_example : StorageLaws (compressed crates memory new_zstd)
compressed-StorageLaws_example =
    compressed-StorageLaws crates crates-CodecLaws memory new_zstd memory-StorageLaws
