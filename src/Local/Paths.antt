-- ===== src/Local/Paths.antt =====
-- What `Path::join` and the operating system make of the paths of
-- crates/openvault-storage/src/local.rs, where no link is followed: `.` and empty components are
-- passed over, `..` leaves a directory, an absolute path replaces what it is joined to.
use Prim.Native.Char.{Char, code, char}
use text.Mathlib.TextEquality.{Char-path}
use open_vault.Common.{
  ◌≡◌, refl, sym, ap, ◌∙◌, inl, inr, String, Bool, true, not, ◌&&◌, ◌||◌, List, [], ◌∷◌, nat_beq,
  nat_beq_iff, ◌==◌, string_eq, concat, concat_assoc, concat_nil, cons_concat, nil_concat,
  if◌then◌else◌, Bool-cases, arith,
}
use open_vault.Fs.{join}

abbrev is_slash : Char → Bool
is_slash c = nat_beq (code c) 47

-- `Path::join`
unfoldable pub path_join : String → String → String
path_join base String.[] = join base ""
path_join base (String.◌∷◌ c s) = if is_slash c then String.◌∷◌ c s else join base (String.◌∷◌ c s)

abbrev leave : List String → List String
leave [] = []
leave (d ∷ ds) = ds

-- One component, from a directory whose components are listed from the innermost out.
abbrev enter : List String → String → List String
enter ds name =
    if name == "" || name == "." then ds else if name == ".." then leave ds else name ∷ ds

abbrev snoc : String → Char → String
snoc name c = concat name (String.◌∷◌ c "")

unfoldable pub walk : List String → String → String → List String
walk ds name String.[] = enter ds name
walk ds name (String.◌∷◌ c s) =
    let further = walk (enter ds name) "" s in
    let longer = walk ds (snoc name c) s in if is_slash c then further else longer

unfoldable pub render : List String → String
render [] = ""
render (d ∷ ds) = concat (render ds) (concat "/" d)

-- The file that an absolute path names.
unfoldable pub real : String → String
real path = render (walk [] "" path)

abbrev is_plain_component : String → Bool
is_plain_component name = not (name == "" || name == ".") && not (name == "..")

unfoldable pub plain_from : String → String → Bool
plain_from name String.[] = is_plain_component name
plain_from name (String.◌∷◌ c s) =
    let further = plain_from "" s in
    let longer = plain_from (snoc name c) s in
    if is_slash c then is_plain_component name && further else longer

slash-eq : (c : Char) → is_slash c ≡ true → c ≡ char 47 tt
slash-eq c h = Char-path c (char 47 tt) ((nat_beq_iff (code c) 47).0 h)

-- A path behind a `/` goes on from where the path before it has come to.
walk-concat :
    (ds : List String) (name base rest : String)
    → walk ds name (concat base (concat "/" rest)) ≡ walk (walk ds name base) "" rest
unfolding walk
walk-concat ds name String.[] rest =
    ap (walk ds name) (nil_concat (concat "/" rest) ∙ cons_concat (char 47 tt) "" rest)
    ∙ ap (walk (enter ds name) "") (nil_concat rest)
walk-concat ds name (String.◌∷◌ c s) rest =
    ap (walk ds name) (cons_concat c s (concat "/" rest)) ∙ elim (Bool-cases (is_slash c)) [
      | inl slash ↦ rw slash (walk-concat (enter ds name) "" s rest)
      | inr other ↦ rw other (walk-concat ds (snoc name c) s rest)
    ]

enter-plain :
    (ds : List String) (name : String) → is_plain_component name ≡ true → enter ds name ≡ name ∷ ds
enter-plain ds name h = ground arith

walk-plain :
    (ds : List String) (name path : String)
    → plain_from name path ≡ true
    → render (walk ds name path) ≡ concat (render ds) (concat "/" (concat name path))
unfolding walk plain_from render
walk-plain ds name String.[] h =
    ap render (enter-plain ds name h)
    ∙ ap (λ t. concat (render ds) (concat "/" t)) (sym (concat_nil name))
walk-plain ds name (String.◌∷◌ c s) h = elim (Bool-cases (is_slash c)) [
  | inl slash ↦
      let both : is_plain_component name && plain_from "" s ≡ true = ground arith in
      let e : enter ds name ≡ name ∷ ds = enter-plain ds name (ground arith) in
      rw slash (
        walk-plain (enter ds name) "" s (ground arith)
        ∙ ap (λ l. concat (render l) (concat "/" (concat "" s))) e
        ∙ concat_assoc (render ds) (concat "/" name) (concat "/" (concat "" s))
        ∙ ap (concat (render ds)) (
            concat_assoc "/" name (concat "/" (concat "" s))
            ∙ ap (λ t. concat "/" (concat name t))
                (ap (concat "/") (nil_concat s)
                  ∙ cons_concat (char 47 tt) "" s
                  ∙ ap (String.◌∷◌ (char 47 tt)) (nil_concat s)
                  ∙ ap (λ d. String.◌∷◌ d s) (sym (slash-eq c slash)))))
  | inr other ↦ rw other (
      walk-plain ds (snoc name c) s (ground arith)
      ∙ ap (λ t. concat (render ds) (concat "/" t))
          (concat_assoc name (String.◌∷◌ c "") s
            ∙ ap (concat name) (cons_concat c "" s ∙ ap (String.◌∷◌ c) (nil_concat s))))
]

pub path_join-plain :
    (base path : String) → plain_from "" path ≡ true → path_join base path ≡ join base path
unfolding path_join plain_from
path_join-plain base String.[] h = refl
path_join-plain base (String.◌∷◌ c s) h = ground arith

-- What a plain path names below a directory is spelled as it is.
pub real-plain :
    (base path : String)
    → plain_from "" path ≡ true
    → real (path_join base path) ≡ join (real base) path
unfolding real join
real-plain base path h =
    ap real (path_join-plain base path h)
    ∙ ap render (walk-concat [] "" base path)
    ∙ walk-plain (walk [] "" base) "" path h
    ∙ ap (λ t. concat (real base) (concat "/" t)) (nil_concat path)
