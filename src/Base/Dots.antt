-- ===== src/Base/Dots.antt =====
-- Texts without a dot: splitting and cutting at the dot after one.
use Prim.Native.String.{◌++◌ as append, String}
use text.Mathlib.TextLemmas.{nil-append, cons-append}
use mathlib.Core.Path.{◌≡◌, refl, ◌∙◌, ap}
use mathlib.Core.Bool.{Bool, true}
use mathlib.Core.Option.{some}
use mathlib.Core.List.{[], ◌∷◌}
use rv_tx.Base.Text.{split, cut}
use rv_tx.Base.Pieces.{lacks, split-at, split-one, cut-at}

unfoldable pub no_dot : String → Bool
unfolding lacks
no_dot s = lacks b'.' s

dot-append : (s t : String) → append s (append "." t) ≡ append s (String.◌∷◌ "." t)
dot-append s t = ap (append s) (cons-append "." String.[] t ∙ ap (String.◌∷◌ ".") (nil-append t))

pub split-dot :
    (s t : String) → no_dot s ≡ true → split b'.' (append s (append "." t)) ≡ s ∷ split b'.' t
unfolding no_dot
split-dot s t h = ap (split b'.') (dot-append s t) ∙ split-at b'.' s "." t h refl

pub split_last : (s : String) → no_dot s ≡ true → split b'.' s ≡ s ∷ []
unfolding no_dot
split_last s h = split-one b'.' s h

pub cut-dot : (s t : String) → no_dot s ≡ true → cut b'.' (append s (append "." t)) ≡ (s, some t)
unfolding no_dot
cut-dot s t h = ap (cut b'.') (dot-append s t) ∙ cut-at b'.' s "." t h refl
