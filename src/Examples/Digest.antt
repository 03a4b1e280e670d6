-- ===== src/Examples/Digest.antt =====
-- A digest without collisions: a byte is as many marks, with a bar behind them.
use Prim.Native.Char.{Char, code}
use open_vault.Common.{ℕ, zero, suc, String, ◌≡◌, ◌≢◌, refl, ap, [], ◌∷◌, arith}
use open_vault.Vault.{Bytes, Time}

module _ (bar mark : Char) where
  abbrev pub marks : ℕ → String → String
  marks zero rest = String.◌∷◌ bar rest
  marks (suc n) rest = String.◌∷◌ mark (marks n rest)

  abbrev pub bars : Bytes → String
  bars [] = String.[]
  bars (b ∷ bs) = marks b (bars bs)

module _ (bar mark : Char) (apart : bar ≢ mark) where
  marks-injective :
      (n m : ℕ) (s t : String) → marks bar mark n s ≡ marks bar mark m t → (n ≡ m) × (s ≡ t)
  marks-injective zero zero s t e = (refl, cc)
  marks-injective zero (suc m) s t e = absurd (apart cc)
  marks-injective (suc n) zero s t e = absurd (apart cc)
  marks-injective (suc n) (suc m) s t e = let (p, q) = marks-injective n m s t cc in (ap suc p, q)

  bars-injective : (a b : Bytes) → bars bar mark a ≡ bars bar mark b → a ≡ b
  bars-injective [] [] e = refl
  bars-injective [] (zero ∷ b) e = absurd cc
  bars-injective [] (suc n ∷ b) e = absurd cc
  bars-injective (zero ∷ a) [] e = absurd cc
  bars-injective (suc n ∷ a) [] e = absurd cc
  bars-injective (x ∷ a) (y ∷ b) e =
      let (p, q) = marks-injective x y (bars bar mark a) (bars bar mark b) e in
      let r = bars-injective a b q in cc

  bar-injective :
      (a b : Bytes) → String.◌∷◌ bar (bars bar mark a) ≡ String.◌∷◌ bar (bars bar mark b) → a ≡ b
  bar-injective a b e = bars-injective a b cc

bar-non_empty : (bar : Char) (s : String) → String.◌∷◌ bar s ≢ ""
bar-non_empty bar s e = cc

abbrev pub digest : Bytes → String
digest bytes = String.◌∷◌ "|" (bars "|" "1" bytes)

-- The printing of a time: the same marks.
abbrev pub print_time : Time → String
print_time now = marks "|" "1" now ""

chars_apart : (c d : Char) → code c ≢ code d → c ≢ d
chars_apart c d n e = n (ap code e)

pub digest-injective : (a b : Bytes) → digest a ≡ digest b → a ≡ b
digest-injective = bar-injective "|" "1" (chars_apart "|" "1" (λ e. absurd (omega arith)))

pub digest-non_empty : (b : Bytes) → digest b ≢ ""
digest-non_empty b = bar-non_empty "|" (bars "|" "1" b)
