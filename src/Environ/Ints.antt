-- ===== src/Environ/Ints.antt =====
-- What `envOrInt` makes of its variable.
use rv_tx.Base.{◌≡◌, ◌≢◌, String, some, none, eq-false_of_ne, ap, ◌∙◌, sym, refl, arith}
use rv_tx.Base.Text.{ℤ, itoa, cut_prefix}
use rv_tx.Base.Atoi.{atoi, Fits, atoi-itoa}
use rv_tx.Environ.{Environ, env_or_int}

atoi-nil : atoi "" ≡ none
unfolding atoi cut_prefix
atoi-nil = refl

no_int : (z : ℤ) → atoi "" ≢ some z
no_int z e = let clash = sym atoi-nil ∙ e in absurd (ground arith)

itoa-ne : (z : ℤ) → Fits z → itoa z ≢ ""
itoa-ne z h e = no_int z (ap atoi (sym e) ∙ atoi-itoa z h)

-- A variable that holds the text of a 64-bit integer, as `Itoa` writes it, is read as this integer.
pub env_or_int-itoa :
    (env : Environ) (key : String) (fallback z : ℤ)
    → Fits z
    → env key ≡ itoa z
    → env_or_int env key fallback ≡ some z
unfolding env_or_int
env_or_int-itoa env key fallback z h e =
    rw e (rw (eq-false_of_ne (itoa z) "" (itoa-ne z h)) (atoi-itoa z h))
