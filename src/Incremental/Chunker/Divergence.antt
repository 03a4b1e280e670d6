-- ===== src/Incremental/Chunker/Divergence.antt =====
-- The parameters that `with_params` accepts and `chunk_data` does not end on.
use open_vault.Common.{ℕ, zero, suc, ◌<◌, ◌≡◌, String, none, arith, length, lt→ltb}
use open_vault.Vault.{Bytes}
use open_vault.Incremental.Chunker.{
  with_params, find_boundary, roll, init_end, scan_end, chunks_from,
}

scan_end-zero : (low bits : ℕ) (bytes : Bytes) → scan_end (with_params low 0 bits) bytes 0 ≡ 0
unfolding scan_end
scan_end-zero low bits bytes = omega arith

init_end-zero : (low bits : ℕ) (bytes : Bytes) → init_end (with_params low 0 bits) bytes 0 ≡ 0
unfolding init_end
init_end-zero low bits bytes = omega (arith, scan_end-zero low bits bytes)

stands_still :
    (low bits : ℕ) (bytes : Bytes)
    → low < length bytes
    → find_boundary (with_params low 0 bits) bytes 0 ≡ 0
unfolding find_boundary roll
stands_still low bits bytes h =
    rw (scan_end-zero low bits bytes, init_end-zero low bits bytes) (ground arith)

-- With a maximum of 0 and data longer than the minimum, `chunk_data` of a chunker made by
-- `with_params` makes no progress: no number of rounds is enough.
pub with_params-diverges :
    (sha256 : Bytes → String) (low bits fuel : ℕ) (bytes : Bytes)
    → low < length bytes
    → chunks_from sha256 (with_params low 0 bits) bytes fuel 0 ≡ none
unfolding chunks_from
with_params-diverges sha256 low bits zero bytes h = rw (lt→ltb 0 (length bytes) (omega arith))
with_params-diverges sha256 low bits (suc fuel) bytes h = rw (
  lt→ltb 0 (length bytes) (omega arith),
  stands_still low bits bytes h,
  with_params-diverges sha256 low bits fuel bytes h,
)
