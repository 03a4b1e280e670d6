-- ===== src/Incremental/Chunker.antt =====
-- `Chunk` and `Chunker` of crates/openvault-core/src/incremental.rs: content-defined chunking with
-- a rolling hash in 32-bit arithmetic. SHA-256 in hexadecimal (crates sha2 and hex) is a parameter.
pub mod Bounds
pub mod Chunks
pub mod Shift
pub mod Cut
pub mod Divergence
use Prim.Native.Nat.{min, bit_and}
use open_vault.Common.{
  ℕ, zero, suc, ◌+◌, ◌-◌, ◌*◌, ◌%◌, ◌^◌, String, Bool, Option, none, some, List, [], ◌∷◌, leb, ltb,
  nat_beq, if◌then◌else◌, length, take, drop, is_empty, get_or,
}
use open_vault.Vault.{Bytes}

pub record Chunk : Type 0 where
  pub hash : String
  pub bytes : Bytes
  pub offset : ℕ
  pub size : ℕ

pub record Chunker : Type 0 where
  pub min_chunk : ℕ
  pub max_chunk : ℕ
  pub mask : ℕ
  pub window_size : ℕ

abbrev pub new : Chunker
new = record { min_chunk = 4 * 1024; max_chunk = 1024 * 1024; mask = 0x1FFF; window_size = 48 }

abbrev pub with_params : ℕ → ℕ → ℕ → Chunker
with_params low high bits = record {
  min_chunk = low;
  max_chunk = high;
  mask = bits;
  window_size = 48;
}

abbrev pub small : Chunker
small = record { min_chunk = 512; max_chunk = 64 * 1024; mask = 0x1FF; window_size = 32 }

abbrev pub large : Chunker
large = record {
  min_chunk = 64 * 1024;
  max_chunk = 8 * 1024 * 1024;
  mask = 0xFFFF;
  window_size = 64;
}

abbrev u32 : ℕ → ℕ
u32 n = n % 2 ^ 32

-- The sums of `find_boundary` in usize, of 64 bits, as a release build computes them.
abbrev usize : ℕ → ℕ
usize n = n % 2 ^ 64

-- `hash.wrapping_shl(1).wrapping_add(byte as u32)`
unfoldable pub roll_in : ℕ → ℕ → ℕ
roll_in hash byte = u32 (u32 (hash * 2) + byte)

-- `hash.wrapping_sub(byte.wrapping_shl(window_size as u32 % 32) as u32)`: the byte is a u8, whose
-- `wrapping_shl` takes the shift modulo 8 and drops what leaves the 8 bits.
unfoldable pub roll_out : ℕ → ℕ → ℕ → ℕ
roll_out window hash byte = u32 (hash + 2 ^ 32 - byte * 2 ^ (window % 32 % 8) % 256)

-- The loop over the first window.
unfoldable pub init_hash : Bytes → ℕ → ℕ
init_hash [] hash = hash
init_hash (byte ∷ rest) hash = init_hash rest (roll_in hash byte)

-- `hash & self.mask == self.mask`
unfoldable pub hits : Chunker → ℕ → Bool
hits c hash = nat_beq (bit_and hash c.mask) c.mask

-- One round of `for i in init_end..scan_end`, up to the test.
unfoldable pub roll_hash : Chunker → Bytes → ℕ → ℕ → ℕ
unfolding roll_in roll_out
roll_hash c bytes i hash =
    roll_in
      (if leb c.window_size i
        then roll_out c.window_size hash (get_or bytes (i - c.window_size) 0)
        else hash)
      (get_or bytes i 0)

-- The loop itself, by the rounds that are left; `stop` is `scan_end`.
unfoldable pub roll : Chunker → Bytes → ℕ → ℕ → ℕ → ℕ → ℕ
roll c bytes stop zero i hash = stop
roll c bytes stop (suc rounds) i hash =
    let hash' = roll_hash c bytes i hash in
    let rest = roll c bytes stop rounds (i + 1) hash' in if hits c hash' then i + 1 else rest

-- `scan_end`, `init_end` and the first `hash` of `find_boundary`.
unfoldable pub scan_end : Chunker → Bytes → ℕ → ℕ
scan_end c bytes start = min (usize (start + c.max_chunk)) (length bytes)

unfoldable pub init_end : Chunker → Bytes → ℕ → ℕ
init_end c bytes start =
    min (usize (usize (start + c.min_chunk) + c.window_size)) (scan_end c bytes start)

unfoldable pub first_hash : Chunker → Bytes → ℕ → ℕ
unfolding init_hash
first_hash c bytes start =
    init_hash (drop (usize (start + c.min_chunk)) (take (init_end c bytes start) bytes)) 0

unfoldable pub find_boundary : Chunker → Bytes → ℕ → ℕ
find_boundary c bytes start =
    if leb (length bytes - start) c.min_chunk
    then length bytes
    else if hits c (first_hash c bytes start)
    then init_end c bytes start
    else roll c bytes (scan_end c bytes start) (scan_end c bytes start - init_end c bytes start)
        (init_end c bytes start) (first_hash c bytes start)

abbrev pub push : Chunk → Option (List Chunk) → Option (List Chunk)
push chunk none = none
push chunk (some chunks) = some (chunk ∷ chunks)

module _ (sha256 : Bytes → String) where
  unfoldable pub chunk_at : Bytes → ℕ → ℕ → Chunk
  chunk_at bytes start end =
      let part = drop start (take end bytes) in
      record { hash = sha256 part; bytes = part; offset = start; size = end - start }

  -- `while start < data.len()`; `none` means that the fuel ran out, or that the slice of a chunk
  -- would end before its start, which panics.
  unfoldable pub chunks_from : Chunker → Bytes → ℕ → ℕ → Option (List Chunk)
  chunks_from c bytes zero start = if ltb start (length bytes) then none else some []
  chunks_from c bytes (suc fuel) start =
      let end = find_boundary c bytes start in
      let more = push (chunk_at bytes start end) (chunks_from c bytes fuel end) in
      let rest = if ltb end start then none else more in
      if ltb start (length bytes) then rest else some []

  -- Each round takes a byte at least, so that the length of the data is fuel enough.
  unfoldable pub chunk_data : Chunker → Bytes → Option (List Chunk)
  chunk_data c bytes = if is_empty bytes then some [] else chunks_from c bytes (length bytes) 0
