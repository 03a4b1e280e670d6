-- ===== src/Compliance/Globs.antt =====
-- Paths and patterns in crates/openvault-core/src/compliance.rs.
use Prim.Native.Char.{code}
use open_vault.Common.{
  ℕ, ◌+◌, String, Bool, true, false, not, ◌&&◌, ◌||◌, Option, none, some, List, [], ◌∷◌,
  if◌then◌else◌, leb, nat_beq, ◌==◌, string_eq, starts_with, strip_prefix, contains_text,
}
use open_vault.Strategy.Source.{ends_with}

-- `split('*')`: the parts between the stars; there is always one.
unfoldable pub split_star : String → List String
split_star String.[] = "" ∷ []
split_star (String.◌∷◌ c s) = elim (split_star s) [
  | [] ↦ []
  | part ∷ parts ↦ if nat_beq (code c) 42 then "" ∷ part ∷ parts else String.◌∷◌ c part ∷ parts
]

-- What stands behind the first occurrence, as `find` gives it.
unfoldable pub after_first : String → String → Option String
after_first part String.[] = strip_prefix part ""
after_first part (String.◌∷◌ c s) = elim (strip_prefix part (String.◌∷◌ c s)) [
  | some rest ↦ some rest
  | none ↦ after_first part s
]

-- The loop over the parts: whether the part is the first, and the text from `idx` on.
unfoldable pub match_parts : String → Bool → List String → String → Bool
match_parts whole is_first [] rest = true
match_parts whole is_first (part ∷ parts) rest =
    let skipped = match_parts whole false parts rest in
    if part == "" then skipped else elim (after_first part rest) [
      | none ↦ false
      | some rest' ↦
          let later = match_parts whole false parts rest' in
          if is_first && not (starts_with whole part) then false else later
    ]

abbrev pub last_part : List String → String
last_part [] = ""
last_part (part ∷ []) = part
last_part (part ∷ next ∷ parts) = last_part (next ∷ parts)

unfoldable pub glob_match : String → String → Bool
unfolding split_star match_parts ends_with
glob_match pattern path =
    if pattern == "*" || pattern == "**"
    then true
    else if contains_text pattern "*"
    then match_parts path true (split_star pattern) path
      && (ends_with pattern "*" || ends_with path (last_part (split_star pattern)))
    else pattern == path

-- `eq_ignore_ascii_case`.
abbrev pub lower_code : ℕ → ℕ
lower_code n = if leb 65 n && leb n 90 then n + 32 else n

unfoldable pub eq_ignore_ascii_case : String → String → Bool
eq_ignore_ascii_case String.[] String.[] = true
eq_ignore_ascii_case String.[] (String.◌∷◌ d t) = false
eq_ignore_ascii_case (String.◌∷◌ c s) String.[] = false
eq_ignore_ascii_case (String.◌∷◌ c s) (String.◌∷◌ d t) =
    nat_beq (lower_code (code c)) (lower_code (code d)) && eq_ignore_ascii_case s t
