-- ===== src/Strategy/Source.antt =====
-- The source of a backup in crates/openvault-core/src/strategy.rs: the tree that `read_dir` shows,
-- the patterns that exclude, and the files that `walk_dir` collects. The tree does not change
-- during a backup.
use open_vault.Common.{
  ℕ, String, Bool, ◌&&◌, ◌||◌, Option, none, some, List, [], ◌∷◌, ◌++◌, any, concat, starts_with,
  strip_prefix, contains_text, if◌then◌else◌, ◌==◌, string_eq,
}
use open_vault.Vault.{Message, Bytes, VaultError, VaultResult, ok, err}

-- A file with the seconds of its modification time, and what `fs::read` returns.
mutual
  pub data Node : Type 0 where
    file : String → ℕ → ℕ → VaultResult Bytes → Node
    directory : String → Nodes → Node
    unreadable_directory : String → Message → Node
    special : String → Node
    bad_entry : Message → Node

  pub data Nodes : Type 0 where
    nil : Nodes
    cons : Node → Nodes → Nodes

pub record SourceFile : Type 0 where
  pub rel : String
  pub size : ℕ
  pub mtime : ℕ
  pub contents : VaultResult Bytes

-- The parts before and behind the first separator.
unfoldable pub split_once : String → String → Option (String × String)
split_once sep String.[] = elim (strip_prefix sep "") [ some rest ↦ some ("", rest) | none ↦ none ]
split_once sep (String.◌∷◌ c s) = elim (strip_prefix sep (String.◌∷◌ c s)) [
  | some rest ↦ some ("", rest)
  | none ↦ elim (split_once sep s) [
    | some (before, rest) ↦ some (String.◌∷◌ c before, rest)
    | none ↦ none
  ]
]

unfoldable pub ends_with : String → String → Bool
ends_with String.[] t = t == ""
ends_with (String.◌∷◌ c s) t = let rest = ends_with s t in String.◌∷◌ c s == t || rest

-- The two parts where the separator stands once.
unfoldable pub two_parts : String → String → Option (String × String)
unfolding split_once
two_parts sep pattern = elim (split_once sep pattern) [
  | none ↦ none
  | some (before, rest) ↦ if contains_text rest sep then none else some (before, rest)
]

abbrev around : String → String × String → Bool
around s (before, rest) = starts_with s before && ends_with s rest

unfoldable pub glob_match : String → String → Bool
unfolding two_parts ends_with
glob_match pattern s = elim (two_parts "**" pattern) [
  | some parts ↦ around s parts
  | none ↦ elim (two_parts "*" pattern) [
    | some parts ↦ around s parts
    | none ↦ contains_text s pattern
  ]
]

abbrev excluded : List String → String → Bool
excluded exclude rel = any (λ (pattern : String). glob_match pattern rel) exclude

-- The path below the root.
abbrev below : String → String → String
below dir name = if dir == "" then name else concat dir (concat "/" name)

unfoldable mutual
  pub walk_dir : List String → String → Nodes → VaultResult (List SourceFile)
  walk_dir exclude dir nil = ok []
  walk_dir exclude dir (cons node rest) = elim (walk_entry exclude dir node) [
    | err e ↦ err e
    | ok here ↦ elim (walk_dir exclude dir rest) [ err e ↦ err e | ok more ↦ ok (here ++ more) ]
  ]

  pub walk_entry : List String → String → Node → VaultResult (List SourceFile)
  walk_entry exclude dir (file name size mtime contents) =
      if excluded exclude (below dir name)
      then ok []
      else ok
          (record { rel = below dir name; size = size; mtime = mtime; contents = contents } ∷ [])
  walk_entry exclude dir (directory name nodes) =
      let inside = walk_dir exclude (below dir name) nodes in
      if excluded exclude (below dir name) then ok [] else inside
  walk_entry exclude dir (unreadable_directory name e) =
      if excluded exclude (below dir name) then ok [] else err (VaultError.io e)
  walk_entry exclude dir (special name) = ok []
  walk_entry exclude dir (bad_entry e) = err (VaultError.io e)

unfoldable pub collect_files : Node → List String → VaultResult (List SourceFile)
collect_files (directory name nodes) exclude = walk_dir exclude "" nodes
collect_files (unreadable_directory name e) exclude = err (VaultError.io e)
collect_files (file name size mtime contents) exclude = err (VaultError.io [])
collect_files (special name) exclude = err (VaultError.io [])
collect_files (bad_entry e) exclude = err (VaultError.io e)
