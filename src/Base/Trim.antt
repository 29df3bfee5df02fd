-- ===== src/Base/Trim.antt =====
-- `strings.TrimSpace`, and that it leaves a text that it trimmed.
use Prim.Native.Char.{Char, code}
use Prim.Native.String.{String}
use mathlib.Core.Path.{◌≡◌, refl, ap}
use mathlib.Core.Logic.{◌≢◌, inl, inr}
use mathlib.Core.Bool.{Bool, true, false, ◌&&◌, ◌||◌}
use text.Mathlib.Text.{◌==◌}
use rv_tx.Base.Tests.{leb, eqb, if◌then◌else◌, Bool-cases}

-- `unicode.IsSpace`
abbrev pub is_white : Char → Bool
is_white c =
    let n = code c in
    leb 9 n && leb n 13
    || eqb n 32
    || eqb n 0x85
    || eqb n 0xA0
    || eqb n 0x1680
    || leb 0x2000 n && leb n 0x200A
    || eqb n 0x2028
    || eqb n 0x2029
    || eqb n 0x202F
    || eqb n 0x205F
    || eqb n 0x3000

unfoldable pub trim_left : String → String
trim_left String.[] = ""
trim_left (String.◌∷◌ c s) = let rest = trim_left s in if is_white c then rest else String.◌∷◌ c s

unfoldable pub trim_right : String → String
trim_right String.[] = ""
trim_right (String.◌∷◌ c s) =
    let rest = trim_right s in if rest == "" && is_white c then "" else String.◌∷◌ c rest

-- `strings.TrimSpace`
unfoldable pub trim_space : String → String
unfolding trim_left trim_right
trim_space s = trim_left (trim_right s)

trim_right-again : (s : String) → trim_right (trim_right s) ≡ trim_right s
unfolding trim_right
trim_right-again String.[] = refl
trim_right-again (String.◌∷◌ c s) = elim (Bool-cases (trim_right s == "" && is_white c)) [
  | inl blank ↦ rw blank refl
  | inr text ↦ rw text (rw (trim_right-again s) (rw text refl))
]

abbrev tail_of : String → String
tail_of String.[] = ""
tail_of (String.◌∷◌ c s) = s

abbrev is_cons : String → Bool
is_cons String.[] = false
is_cons (String.◌∷◌ c s) = true

pub not_cons : (c : Char) (s : String) → "" ≢ String.◌∷◌ c s
not_cons c s e = let differ = ap is_cons e in cc

trim_right-tail :
    (c : Char) (s : String) → trim_right (String.◌∷◌ c s) ≡ String.◌∷◌ c s → trim_right s ≡ s
unfolding trim_right
trim_right-tail c s e = elim (Bool-cases (trim_right s == "" && is_white c)) [
  | inl blank ↦ let e' = rw (blank, trim_right) at e in absurd (not_cons c s e')
  | inr text ↦ ap tail_of (rw (text, trim_right) at e)
]

trim_left-again : (s : String) → trim_left (trim_left s) ≡ trim_left s
unfolding trim_left
trim_left-again String.[] = refl
trim_left-again (String.◌∷◌ c s) = elim (Bool-cases (is_white c)) [
  | inl white ↦ rw white (trim_left-again s)
  | inr text ↦ rw text (rw text refl)
]

trim_right-trim_left : (s : String) → trim_right s ≡ s → trim_right (trim_left s) ≡ trim_left s
unfolding trim_left
trim_right-trim_left String.[] e = e
trim_right-trim_left (String.◌∷◌ c s) e = elim (Bool-cases (is_white c)) [
  | inl white ↦ rw white (trim_right-trim_left s (trim_right-tail c s e))
  | inr text ↦ rw text e
]

pub trim_space-again : (s : String) → trim_space (trim_space s) ≡ trim_space s
unfolding trim_space
trim_space-again s =
    rw (trim_right-trim_left (trim_right s) (trim_right-again s)) (trim_left-again (trim_right s))
