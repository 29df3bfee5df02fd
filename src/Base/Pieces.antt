-- ===== src/Base/Pieces.antt =====
-- Texts that lack a byte: the pieces between separators, and what trimming leaves of them.
use Prim.Native.Nat.{ℕ}
use Prim.Native.Char.{Char, code}
use Prim.Native.String.{◌++◌ as append, String}
use text.Mathlib.TextLemmas.{nil-append, cons-append}
use mathlib.Core.Path.{◌≡◌, refl}
use mathlib.Core.Logic.{inl, inr}
use mathlib.Core.Bool.{Bool, true, false, not, ◌&&◌}
use mathlib.Core.Option.{some}
use mathlib.Core.List.{List, [], ◌∷◌}
use native.Mathlib.Omega.{arith}
use text.Mathlib.Text.{◌==◌}
use rv_tx.Base.Tests.{eqb, Bool-cases}
use rv_tx.Base.Lists.{All}
use rv_tx.Base.Text.{split, cut}
use rv_tx.Base.Trim.{is_white, trim_left, trim_right, trim_space}

unfoldable pub lacks : ℕ → String → Bool
lacks sep String.[] = true
lacks sep (String.◌∷◌ c s) = not (eqb (code c) sep) && lacks sep s

pub lacks-cons :
    (sep : ℕ) (c : Char) (s : String)
    → lacks sep (String.◌∷◌ c s) ≡ true
    → (eqb (code c) sep ≡ false) × (lacks sep s ≡ true)
unfolding lacks
lacks-cons sep c s h = ground arith

pub split-at :
    (sep : ℕ) (s : String) (c : Char) (t : String)
    → lacks sep s ≡ true
    → eqb (code c) sep ≡ true
    → split sep (append s (String.◌∷◌ c t)) ≡ s ∷ split sep t
unfolding split lacks
split-at sep String.[] c t h is_sep = rw (nil-append, is_sep)
split-at sep (String.◌∷◌ d s) c t h is_sep =
    rw cons-append
      (let (other, rest) = lacks-cons sep d s h in rw (split-at sep s c t rest is_sep, other))

pub cut-at :
    (sep : ℕ) (s : String) (c : Char) (t : String)
    → lacks sep s ≡ true
    → eqb (code c) sep ≡ true
    → cut sep (append s (String.◌∷◌ c t)) ≡ (s, some t)
unfolding cut lacks
cut-at sep String.[] c t h is_sep = rw (nil-append, is_sep)
cut-at sep (String.◌∷◌ d s) c t h is_sep =
    rw cons-append
      (let (other, rest) = lacks-cons sep d s h in rw (cut-at sep s c t rest is_sep, other))

pub split-one : (sep : ℕ) (s : String) → lacks sep s ≡ true → split sep s ≡ s ∷ []
unfolding split lacks
split-one sep String.[] h = refl
split-one sep (String.◌∷◌ c s) h = ground (arith, split-one sep s)

abbrev pub Lacks : ℕ → List String → Type 0
Lacks sep = All (λ w. lacks sep w ≡ true)

joined :
    (sep : ℕ) (c : Char) (ws : List String)
    → eqb (code c) sep ≡ false
    → Lacks sep ws
    → Lacks sep (elim ws [ [] ↦ String.◌∷◌ c "" ∷ [] | w ∷ ws ↦ String.◌∷◌ c w ∷ ws ])
unfolding lacks
joined sep c [] other h = (ground arith, tt)
joined sep c (w ∷ ws) other h = (ground arith, h.1)

-- No piece has the separator.
pub lacks-split : (sep : ℕ) (s : String) → Lacks sep (split sep s)
unfolding split lacks
lacks-split sep String.[] = (refl, tt)
lacks-split sep (String.◌∷◌ c s) = elim (Bool-cases (eqb (code c) sep)) [
  | inl here ↦ rw here (refl, lacks-split sep s)
  | inr other ↦ rw other (joined sep c (split sep s) other (lacks-split sep s))
]

lacks-trim_left : (sep : ℕ) (s : String) → lacks sep s ≡ true → lacks sep (trim_left s) ≡ true
unfolding lacks trim_left
lacks-trim_left sep String.[] h = refl
lacks-trim_left sep (String.◌∷◌ c s) h = ground (arith, lacks-trim_left sep s)

lacks-trim_right : (sep : ℕ) (s : String) → lacks sep s ≡ true → lacks sep (trim_right s) ≡ true
unfolding lacks trim_right
lacks-trim_right sep String.[] h = refl
lacks-trim_right sep (String.◌∷◌ c s) h = elim (Bool-cases (trim_right s == "" && is_white c)) [
  | inl blank ↦ rw blank refl
  | inr text ↦ rw text (ground (arith, lacks-trim_right sep s))
]

pub lacks-trim_space : (sep : ℕ) (s : String) → lacks sep s ≡ true → lacks sep (trim_space s) ≡ true
unfolding trim_space
lacks-trim_space sep s h = lacks-trim_left sep (trim_right s) (lacks-trim_right sep s h)

pub lacks-append :
    (sep : ℕ) (s t : String)
    → lacks sep s ≡ true
    → lacks sep t ≡ true
    → lacks sep (append s t) ≡ true
unfolding lacks
lacks-append sep String.[] t h k = rw nil-append k
lacks-append sep (String.◌∷◌ c s) t h k = rw cons-append (
    let (other, rest) = lacks-cons sep c s h in
    let tail = lacks-append sep s t rest k in ground arith)
