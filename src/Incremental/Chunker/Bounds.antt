-- ===== src/Incremental/Chunker/Bounds.antt =====
-- Where `find_boundary` may cut.
use open_vault.Common.{ℕ, zero, suc, ◌+◌, ◌-◌, ◌^◌, ◌≤◌, ◌<◌, ◌≡◌, ◌⊎◌, arith, length}
use open_vault.Vault.{Bytes}
use open_vault.Incremental.Chunker.{
  Chunker, roll, roll_hash, scan_end, init_end, first_hash, find_boundary,
}

roll_bounds :
    (c : Chunker) (bytes : Bytes) (stop rounds i hash : ℕ)
    → i + rounds ≡ stop
    → (i ≤ roll c bytes stop rounds i hash) × (roll c bytes stop rounds i hash ≤ stop)
unfolding roll
roll_bounds c bytes stop zero i hash e = omega arith
roll_bounds c bytes stop (suc rounds) i hash e =
    ground (arith, roll_bounds c bytes stop rounds (i + 1) (roll_hash c bytes i hash))

-- Beyond the last byte that is taken whole, a cut stands within the size limits.
pub record IsBoundary (c : Chunker) (bytes : Bytes) (start end : ℕ) : Type 0 where
  pub after : start < end
  pub inside : end ≤ length bytes
  pub at_most : end - start ≤ c.max_chunk
  pub at_least : (c.min_chunk ≤ end - start) ⊎ (end ≡ length bytes)

-- For a chunker with a positive maximum and window and a minimum within the maximum, where the
-- data, the maximum and the window are together below 2^64, and for a start before the end of the
-- data, `find_boundary` cuts behind the start and within the data, at most `max_chunk` bytes on,
-- and at least `min_chunk` bytes on unless it cuts at the end of the data.
pub find_boundary-IsBoundary :
    (c : Chunker) (bytes : Bytes) (start : ℕ)
    → 0 < c.max_chunk
    → c.min_chunk ≤ c.max_chunk
    → 0 < c.window_size
    → length bytes + c.max_chunk + c.window_size < 2 ^ 64
    → start < length bytes
    → IsBoundary c bytes start (find_boundary c bytes start)
unfolding find_boundary init_end scan_end
find_boundary-IsBoundary c bytes start pos le wide fits h = ground (
  arith,
  roll_bounds c bytes (scan_end c bytes start) (scan_end c bytes start - init_end c bytes start)
      (init_end c bytes start) (first_hash c bytes start),
)
