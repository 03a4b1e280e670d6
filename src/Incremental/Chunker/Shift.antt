-- ===== src/Incremental/Chunker/Shift.antt =====
-- The cuts depend on the content from the last cut on, and on nothing before it.
use native.Mathlib.Decide.{dec_le}
use open_vault.Common.{
  ℕ, zero, suc, ◌+◌, ◌-◌, ◌%◌, ◌^◌, ◌<◌, ◌≤◌, ◌≡◌, refl, ◌++◌, arith, length, take, get_or-append,
  drop-append, take-append, length-append,
}
use open_vault.Vault.{Bytes}
use open_vault.Incremental.Chunker.{
  Chunker, roll_hash, roll, scan_end, init_end, first_hash, find_boundary,
}

module _ (c : Chunker) (le : c.min_chunk ≤ c.max_chunk) (pre bytes : Bytes)
    (fits : length (pre ++ bytes) + c.max_chunk + c.window_size < 2 ^ 64) where
  roll_hash-shift :
      (i hash : ℕ)
      → c.window_size ≤ i
      → roll_hash c (pre ++ bytes) (length pre + i) hash ≡ roll_hash c bytes i hash
  unfolding roll_hash
  roll_hash-shift i hash h =
      let e : length pre + i - c.window_size ≡ length pre + (i - c.window_size) = omega arith in
      rw (e, get_or-append pre bytes (i - c.window_size) 0, get_or-append pre bytes i 0)
        (ground arith)

  roll-shift :
      (stop rounds i hash : ℕ)
      → c.window_size ≤ i
      → roll c (pre ++ bytes) (length pre + stop) rounds (length pre + i) hash
        ≡ length pre + roll c bytes stop rounds i hash
  unfolding roll
  roll-shift stop zero i hash h = refl
  roll-shift stop (suc rounds) i hash h =
      let ih = roll-shift stop rounds (i + 1) (roll_hash c bytes i hash) (omega arith) in
      let e : length pre + i + 1 ≡ length pre + (i + 1) = omega arith in
      rw (roll_hash-shift i hash h, e) (ground (arith, ih))

  scan_end-shift :
      (start : ℕ)
      → start ≤ length bytes
      → scan_end c (pre ++ bytes) (length pre + start) ≡ length pre + scan_end c bytes start
  unfolding scan_end
  scan_end-shift start h = omega (arith, length-append pre bytes)

  init_end-shift :
      (start : ℕ)
      → start ≤ length bytes
      → init_end c (pre ++ bytes) (length pre + start) ≡ length pre + init_end c bytes start
  unfolding init_end
  init_end-shift start h = omega (arith, scan_end-shift start h, length-append pre bytes)

  first_hash-shift :
      (start : ℕ)
      → start ≤ length bytes
      → first_hash c (pre ++ bytes) (length pre + start) ≡ first_hash c bytes start
  unfolding first_hash
  first_hash-shift start h =
      let e : (length pre + start + c.min_chunk) % 2 ^ 64
          ≡ length pre + (start + c.min_chunk) % 2 ^ 64 =
        omega (arith, length-append pre bytes) in
      rw (
        init_end-shift start h,
        e,
        take-append pre bytes (init_end c bytes start),
        drop-append pre (take (init_end c bytes start) bytes) ((start + c.min_chunk) % 2 ^ 64),
      )

  no_rounds :
      (start : ℕ)
      → start ≤ length bytes
      → ¬ (c.window_size ≤ init_end c bytes start)
      → scan_end c bytes start - init_end c bytes start ≡ 0
  unfolding init_end
  no_rounds start h short = omega (arith, length-append pre bytes)

  scan-shift :
      (start hash : ℕ)
      → start ≤ length bytes
      → roll c
          (pre ++ bytes)
          (length pre + scan_end c bytes start)
          (length pre + scan_end c bytes start - (length pre + init_end c bytes start))
          (length pre + init_end c bytes start)
          hash
        ≡ length pre
          + roll c bytes
              (scan_end c bytes start)
              (scan_end c bytes start - init_end c bytes start)
              (init_end c bytes start)
              hash
  scan-shift start hash h =
      let same : length pre + scan_end c bytes start - (length pre + init_end c bytes start)
          ≡ scan_end c bytes start - init_end c bytes start =
        omega arith in
      rw same (elim (dec_le c.window_size (init_end c bytes start)) [
        | yes wide ↦ roll-shift _ _ _ hash wide
        | no short ↦ rw (no_rounds start h short) (unfold roll in refl)
      ])

  pub find_boundary-shift :
      (start : ℕ)
      → start ≤ length bytes
      → find_boundary c (pre ++ bytes) (length pre + start)
        ≡ length pre + find_boundary c bytes start
  unfolding find_boundary
  find_boundary-shift start h =
      let e : length (pre ++ bytes) - (length pre + start) ≡ length bytes - start =
        omega (arith, length-append pre bytes) in
      rw
        (
          e,
          first_hash-shift start h,
          init_end-shift start h,
          scan_end-shift start h,
          scan-shift start (first_hash c bytes start) h,
          length-append pre bytes,
        )
        (ground arith)
