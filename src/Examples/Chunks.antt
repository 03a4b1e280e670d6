-- ===== src/Examples/Chunks.antt =====
-- Chunking at concrete inputs.
use open_vault.Common.{
  ℕ, ◌≡◌, refl, none, some, String, List, [], ◌∷◌, ◌++◌, map, arith, length, string_eq,
}
use open_vault.Vault.{Bytes, FileEntry, Time}
use open_vault.Incremental.Chunker.{
  Chunk, Chunker, with_params, chunk_data, chunks_from, chunk_at, find_boundary, roll_in, roll_hash,
  hits, init_hash, first_hash, scan_end, init_end, roll,
}
use open_vault.Incremental.Chunker.Bounds.{IsBoundary, find_boundary-IsBoundary}
use open_vault.Incremental.Chunker.Chunks.{joined, Tiles, chunk_data-Tiles}
use open_vault.Incremental.Chunker.Cut.{moved, chunk_data-cut}
use open_vault.Incremental.Chunker.Divergence.{with_params-diverges}
use open_vault.Examples.Digest.{digest, print_time}

-- Chunks of one or two bytes.
abbrev tiny : Chunker
tiny = record { min_chunk = 1; max_chunk = 2; mask = 0xFF; window_size = 1 }

abbrev five : Bytes
five = 1 ∷ 2 ∷ 3 ∷ 4 ∷ 5 ∷ []

find_boundary-IsBoundary_example : IsBoundary tiny five 1 (find_boundary tiny five 1)
find_boundary-IsBoundary_example =
    find_boundary-IsBoundary tiny five 1 (omega arith) (omega arith) (omega arith) (omega arith)
      (omega arith)

chunk_data-Tiles_example :
    (ks : List Chunk) × (chunk_data digest tiny five ≡ some ks)
    × Tiles digest tiny 0 ks
    × (joined ks ≡ five)
chunk_data-Tiles_example =
    chunk_data-Tiles digest tiny (omega arith) (omega arith) (omega arith) five (omega arith)

abbrev chunk : ℕ → Bytes → Chunk
chunk start part = record { hash = digest part; bytes = part; offset = start; size = length part }

abbrev first_chunk : List Chunk
first_chunk = chunk 0 (1 ∷ 2 ∷ []) ∷ []

abbrev other_chunks : List Chunk
other_chunks = chunk 2 (3 ∷ 4 ∷ []) ∷ chunk 4 (5 ∷ []) ∷ []

five_chunks : chunk_data digest tiny five ≡ some (first_chunk ++ other_chunks)
unfolding chunk_data chunks_from chunk_at find_boundary roll first_hash init_end scan_end init_hash
    roll_in roll_hash hits
five_chunks = refl

chunk_data-cut_example :
    (ms : List Chunk) × (chunk_data digest tiny (3 ∷ 4 ∷ 5 ∷ []) ≡ some ms)
    × (other_chunks ≡ map (moved 2) ms)
chunk_data-cut_example =
    chunk_data-cut digest tiny (omega arith) (omega arith) (omega arith) (1 ∷ 2 ∷ [])
      (3 ∷ 4 ∷ 5 ∷ []) (omega arith) first_chunk other_chunks five_chunks refl

with_params-diverges_example : chunks_from digest (with_params 2 0 15) five 100 0 ≡ none
with_params-diverges_example = with_params-diverges digest 2 15 100 five (omega arith)

abbrev entry : String → ℕ → FileEntry
entry name bytes = record { path = name; size = bytes; mtime = 0; checksum = "" }

abbrev name_of : Time → ℕ → String
name_of now counter = print_time now
