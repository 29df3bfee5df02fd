-- ===== src/Environ/Lists.antt =====
-- What `envOrList` makes of its variable.
use mathlib.Core.List.{map}
use Prim.Native.String.{◌++◌ as append}
use text.Mathlib.TextLemmas.{nil-append, cons-append}
use rv_tx.Base.{
  ◌≡◌, ◌≢◌, refl, ◌∙◌, ap, sym, inl, inr, String, true, not, List, [], ◌∷◌, keep, All,
  if◌then◌else◌, ◌==◌, eq_iff, Bool-cases, eq-false_of_ne,
}
use rv_tx.Base.Text.{split}
use rv_tx.Base.Trim.{trim_space}
use rv_tx.Base.Pieces.{lacks, split-at, split-one}
use rv_tx.Agent.{join_comma}
use rv_tx.Environ.{Environ, env_or_list, list_entries}

-- A text with no blanks around it, no comma, and something in it.
abbrev pub IsEntry : String → Type 0
IsEntry p = (p ≢ "") × (trim_space p ≡ p) × (lacks b',' p ≡ true)

comma-append : (t : String) → append "," t ≡ String.◌∷◌ "," t
comma-append t = cons-append "," String.[] t ∙ ap (String.◌∷◌ ",") (nil-append t)

split-join :
    (p : String) (ps : List String)
    → All IsEntry (p ∷ ps)
    → split b',' (join_comma (p ∷ ps)) ≡ p ∷ ps
unfolding join_comma
split-join p [] h = split-one b',' p h.0.2
split-join p (q ∷ ps) h =
    ap (λ t. split b',' (append p t)) (comma-append (join_comma (q ∷ ps)))
    ∙ split-at b',' p "," (join_comma (q ∷ ps)) h.0.2 refl
    ∙ ap (λ ws. p ∷ ws) (split-join q ps h.1)

kept : (ps : List String) → All IsEntry ps → keep (λ p. not (p == "")) (map trim_space ps) ≡ ps
kept [] h = refl
kept (p ∷ ps) h =
    rw (h.0.1) (rw (eq-false_of_ne p "" h.0.0, keep) (ap (λ ws. p ∷ ws) (kept ps h.1)))

list_entries-nil : list_entries "" ≡ []
unfolding list_entries split trim_space
list_entries-nil = refl

list_entries-join : (ps : List String) → All IsEntry ps → list_entries (join_comma ps) ≡ ps
unfolding list_entries join_comma
list_entries-join [] h = list_entries-nil
list_entries-join (p ∷ ps) h = rw (split-join p ps h) (kept (p ∷ ps) h)

guarded : (v : String) → (if v == "" then [] else list_entries v) ≡ list_entries v
guarded v = elim (Bool-cases (v == "")) [
  | inl empty ↦ rw empty (sym (ap list_entries ((eq_iff v "").0 empty) ∙ list_entries-nil))
  | inr some_text ↦ rw some_text refl
]

-- A variable that joins entries by commas reads as them.
pub env_or_list-join :
    (env : Environ) (key : String) (ps : List String)
    → All IsEntry ps
    → env key ≡ join_comma ps
    → env_or_list env key ≡ ps
unfolding env_or_list
env_or_list-join env key ps h e = guarded (env key) ∙ ap list_entries e ∙ list_entries-join ps h
