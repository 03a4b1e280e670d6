-- ===== src/Fs/Laws.antt =====
-- Reading after writing.
use open_vault.Common.{
  ◌==◌, string_eq, if◌then◌else◌, String, ◌≡◌, ◌≢◌, arith, eq_iff, ◌⊎◌, none, true, false,
}
use open_vault.Common.Map
use open_vault.Common.Map.{get-insert, filter-insert}
use open_vault.Vault.{Bytes, ok}
use open_vault.Fs.{Fs, read, write, exists, is_child, read_dir}

module _ (fs : Fs) (path : String) (bytes : Bytes) where
  pub read-write_self :
      (write fs path bytes).0 ≡ ok tt → read (write fs path bytes).1 path ≡ ok bytes
  unfolding read write
  read-write_self e = ground (arith, get-insert path path bytes fs.files, eq_iff path path)

  pub read-write_ne :
      (other : String) → path ≢ other → read (write fs path bytes).1 other ≡ read fs other
  unfolding read write
  read-write_ne other n = ground (arith, get-insert path other bytes fs.files, eq_iff path other)

  pub read-write :
      (write fs path bytes).0 ≡ ok tt
      → (other : String)
      → read (write fs path bytes).1 other ≡ (if path == other then ok bytes else read fs other)
  unfolding read write
  read-write e other = ground (arith, get-insert path other bytes fs.files, eq_iff path other)

  -- A write succeeds or changes nothing.
  pub write-cases : ((write fs path bytes).0 ≡ ok tt) ⊎ ((write fs path bytes).1 ≡ fs)
  unfolding write
  write-cases = ground arith

  pub write-ok : fs.refuses path ≡ none → (write fs path bytes).0 ≡ ok tt
  unfolding write
  write-ok q = ground arith

  pub exists-write_ne :
      (other : String) → path ≢ other → exists (write fs path bytes).1 other ≡ exists fs other
  unfolding exists write Map.contains_key
  exists-write_ne other n = ground (arith, get-insert path other bytes fs.files, eq_iff path other)

  pub exists-write_self :
      (write fs path bytes).0 ≡ ok tt → exists (write fs path bytes).1 path ≡ true
  unfolding exists write Map.contains_key
  exists-write_self e = ground (arith, get-insert path path bytes fs.files, eq_iff path path)

  -- A directory that does not have the path as a child is listed as before.
  pub read_dir-write :
      (dir : String)
      → is_child dir path ≡ false
      → read_dir (write fs path bytes).1 dir ≡ read_dir fs dir
  unfolding read_dir write
  read_dir-write dir e = ground (arith, filter-insert (is_child dir) path bytes fs.files e)
