-- ===== src/Fs.antt =====
-- What the program uses of `std::fs`: a table of files, and the paths that refuse access.
-- Directories are not kept: `create_dir_all` succeeds where the path does not refuse, and a file
-- can be written wherever its own path does not. A path is its text, which is exact where no
-- component is `.` or `..` and no link is followed; Local resolves its paths before it comes here.
pub mod Laws
use Prim.Native.Char.{code}
use open_vault.Common.{
  nat_beq, strip_prefix, ℕ, String, Bool, true, false, Option, none, some, List, [], ◌∷◌, concat,
  if◌then◌else◌, filter, not, any, contains_text,
}
use open_vault.Common.Map
use open_vault.Common.Map.{Map}
use open_vault.Vault.{text, Message, Bytes, VaultError, VaultResult, ok, err, map_err}

pub record Fs : Type 0 where
  pub files : Map Bytes
  -- The error that each access to a path meets.
  pub refuses : String → Option Message

-- `Path::join` on a relative path.
unfoldable pub join : String → String → String
join base rest = concat base (concat "/" rest)

-- The directory of a path that `join` makes: what stands before the last `/`.
unfoldable pub parent : String → Option String
parent String.[] = none
parent (String.◌∷◌ c s) = elim (parent s) [
  | some p ↦ some (String.◌∷◌ c p)
  | none ↦ if nat_beq (code c) 47 then some "" else none
]

-- The text behind the last of a character.
unfoldable pub after_last : ℕ → String → Option String
after_last sign String.[] = none
after_last sign (String.◌∷◌ c s) = elim (after_last sign s) [
  | some rest ↦ some rest
  | none ↦ if nat_beq (code c) sign then some s else none
]

-- `Path::file_name` and `Path::extension`; a dot at the beginning of a name starts no extension.
unfoldable pub file_name : String → String
unfolding after_last
file_name path = elim (after_last 47 path) [ some name ↦ name | none ↦ path ]

unfoldable pub name_extension : String → Option String
unfolding after_last
name_extension String.[] = none
name_extension (String.◌∷◌ c s) = after_last 46 s

unfoldable pub extension : String → Option String
unfolding file_name name_extension
extension path = name_extension (file_name path)

abbrev pub not_found : Message
not_found = text "No such file or directory" ∷ []

-- An access, unless the path refuses it.
abbrev guarded {ℓ} : {A : Type ℓ} → Option Message → VaultResult A → VaultResult A
guarded none r = r
guarded (some m) r = err (VaultError.io m)

abbrev found : Option Bytes → VaultResult Bytes
found none = err (VaultError.io not_found)
found (some b) = ok b

unfoldable pub read : Fs → String → VaultResult Bytes
read fs path = guarded (fs.refuses path) (found (Map.get path fs.files))

abbrev changed : Option Message → Fs → Fs → VaultResult (Unit {0}) × Fs
changed none fs fs' = (ok tt, fs')
changed (some m) fs fs' = (err (VaultError.io m), fs)

unfoldable pub write : Fs → String → Bytes → VaultResult (Unit {0}) × Fs
write fs path bytes =
    changed (fs.refuses path) fs (record fs { files = Map.insert path bytes fs.files })

unfoldable pub exists : Fs → String → Bool
exists fs path = Map.contains_key path fs.files

unfoldable pub create_dir_all : Fs → String → VaultResult (Unit {0})
create_dir_all fs path = guarded (fs.refuses path) (ok tt)

-- Whether the path stands below the directory, at any depth.
unfoldable pub is_under : String → String → Bool
is_under dir path = Map.is_some (strip_prefix (concat dir "/") path)

-- A directory exists where a file stands below it.
unfoldable pub dir_exists : Fs → String → Bool
unfolding is_under
dir_exists fs dir = any (λ (f : String × Bytes). is_under dir f.0) fs.files

-- The files of a directory itself, with their contents.
unfoldable pub is_child : String → String → Bool
is_child dir path = elim (strip_prefix (concat dir "/") path) [
  | none ↦ false
  | some name ↦ not (contains_text name "/")
]

unfoldable pub read_dir : Fs → String → VaultResult (List (String × Bytes))
unfolding is_child
read_dir fs dir =
    guarded (fs.refuses dir) (ok (filter (λ (f : String × Bytes). is_child dir f.0) fs.files))

unfoldable pub remove_file : Fs → String → VaultResult (Unit {0}) × Fs
remove_file fs path =
    if exists fs path
    then changed (fs.refuses path) fs (record fs { files = Map.remove path fs.files })
    else (err (VaultError.io not_found), fs)

unfoldable pub remove_dir_all : Fs → String → VaultResult (Unit {0}) × Fs
unfolding is_under
remove_dir_all fs dir =
    changed (fs.refuses dir) fs
      (record fs { files = filter (λ (f : String × Bytes). not (is_under dir f.0)) fs.files })
