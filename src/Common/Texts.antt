-- ===== src/Common/Texts.antt =====
-- Texts: concatenation, as `format!` does it where every argument is a text, the tests of `str`,
-- and the UTF-8 bytes.
use Prim.Native.Nat.{ℕ, ◌+◌, ◌/◌, ◌%◌}
use Prim.Native.Char.{Char, code}
use Prim.Native.String.{String, len, find, begins, ◌++◌ as append_text}
use text.Mathlib.TextLemmas.{
  append_cancel_left, append_cancel_right, append_assoc, nil-append, cons-append, append-nil,
}
use mathlib.Core.Path.{◌≡◌, refl, ap, sym, ◌∙◌}
use mathlib.Core.Bool.{Bool, false}
use mathlib.Core.Option.{Option, none, some}
use native.Mathlib.Omega.{arith}
use mathlib.Core.List.{List, [], ◌∷◌, ◌++◌}
use mathlib.Core.List.{append_assoc as list_append_assoc}
use open_vault.Common.Tests.{leb, ltb, nat_beq, if◌then◌else◌}

unfoldable pub concat : String → String → String
concat s t = append_text s t

-- Texts with the same beginning differ in what follows.
pub concat_cancel : (s t u : String) → concat s t ≡ concat s u → t ≡ u
unfolding concat
concat_cancel s t u e = append_cancel_left s t u e

pub concat_assoc : (s t u : String) → concat (concat s t) u ≡ concat s (concat t u)
unfolding concat
concat_assoc s t u = append_assoc s t u

pub concat_nil : (s : String) → concat s "" ≡ s
unfolding concat
concat_nil s = append-nil s

pub nil_concat : (s : String) → concat "" s ≡ s
unfolding concat
nil_concat s = nil-append s

pub cons_concat : (c : Char) (s t : String) → concat (String.◌∷◌ c s) t ≡ String.◌∷◌ c (concat s t)
unfolding concat
cons_concat c s t = cons-append c s t

-- `str::contains` and `str::starts_with` with a text.
pub contains_text : String → String → Bool
contains_text s t = leb (find s t) (len s)

pub starts_with : String → String → Bool
starts_with s t = nat_beq (begins s t 0 1) 0

-- `str::strip_prefix`, and the rest of a path inside a directory.
unfoldable pub strip_prefix : String → String → Option String
strip_prefix String.[] s = some s
strip_prefix (String.◌∷◌ c p) String.[] = none
strip_prefix (String.◌∷◌ c p) (String.◌∷◌ d s) =
    if nat_beq (code c) (code d) then strip_prefix p s else none

pub strip_prefix-concat :
    (r p s : String) → strip_prefix (concat r p) (concat r s) ≡ strip_prefix p s
unfolding strip_prefix concat
strip_prefix-concat String.[] p s = rw (nil-append p) (rw (nil-append s) refl)
strip_prefix-concat (String.◌∷◌ c r) p s =
    rw (cons-append c r p) (rw (cons-append c r s) (ground (arith, strip_prefix-concat r p s)))

pub strip_prefix_self : (p s : String) → strip_prefix p (concat p s) ≡ some s
unfolding strip_prefix concat
strip_prefix_self String.[] s = rw (nil-append s) refl
strip_prefix_self (String.◌∷◌ c p) s =
    rw (cons-append c p s) (ground (arith, strip_prefix_self p s))

-- Texts that differ at the first sign.
pub strip_prefix-differ :
    (c d : Char) (p q s : String)
    → nat_beq (code c) (code d) ≡ false
    → strip_prefix (String.◌∷◌ c p) (concat (String.◌∷◌ d q) s) ≡ none
unfolding strip_prefix concat
strip_prefix-differ c d p q s e = rw (cons-append d q s) (rw e refl)

pub concat_cancel_right : (s t u : String) → concat s u ≡ concat t u → s ≡ t
unfolding concat
concat_cancel_right s t u e = append_cancel_right s t u e

pub encode_utf8 : Char → List ℕ
encode_utf8 c =
    let n = code c in
    if ltb n 128
    then n ∷ []
    else if ltb n 2048
    then (192 + n / 64) ∷ (128 + n % 64) ∷ []
    else if ltb n 65536
    then (224 + n / 4096) ∷ (128 + n / 64 % 64) ∷ (128 + n % 64) ∷ []
    else (240 + n / 262144) ∷ (128 + n / 4096 % 64) ∷ (128 + n / 64 % 64) ∷ (128 + n % 64) ∷ []

pub as_bytes : String → List ℕ
unfolding encode_utf8
as_bytes String.[] = []
as_bytes (String.◌∷◌ c s) = encode_utf8 c ++ as_bytes s

pub as_bytes-concat : (s t : String) → as_bytes (concat s t) ≡ as_bytes s ++ as_bytes t
unfolding as_bytes concat
as_bytes-concat String.[] t = ap as_bytes (nil-append t)
as_bytes-concat (String.◌∷◌ c s) t =
    ap as_bytes (cons-append c s t)
    ∙ ap (λ x. encode_utf8 c ++ x) (as_bytes-concat s t)
    ∙ sym (list_append_assoc (encode_utf8 c) (as_bytes s) (as_bytes t))
