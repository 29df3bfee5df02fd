-- ===== src/Agent/Shown.antt =====
-- What `wg show <interface> allowed-ips` prints: a line has a peer's key, a tab, and its networks between
-- spaces, or "(none)".
pub mod Reads
use Prim.Native.Char.{Char, code}
use Prim.Native.String.{◌++◌ as append}
use text.Mathlib.TextLemmas.{nil-append, cons-append}
use rv_tx.Base.{
  ℕ, ◌≡◌, ◌≢◌, refl, ◌∙◌, ap, sym, inl, inr, String, Bool, true, false, not, ◌&&◌, ◌||◌, List, [],
  ◌∷◌, keep, All, map, if◌then◌else◌, ◌==◌, eq_iff, Bool-cases, eq-false_of_ne, arith, eqb, leb,
}
use rv_tx.Base.Dict.{Dict, insert}
use rv_tx.Base.Text.{split}
use rv_tx.Base.Trim.{not_cons, is_white, trim_left, trim_right, trim_space}
use rv_tx.Base.Pieces.{lacks, split-at, split-one, lacks-append}
use rv_tx.Agent.Output.{words_from, fields, add_line, add_lines, parse_peers}

-- No white space.
unfoldable pub solid : String → Bool
solid String.[] = true
solid (String.◌∷◌ c s) = not (is_white c) && solid s

abbrev pub IsWord : String → Type 0
IsWord w = (w ≢ "") × (solid w ≡ true)

abbrev pub shown_ips : List String → String
shown_ips [] = "(none)"
shown_ips (ip ∷ []) = ip
shown_ips (ip ∷ next ∷ ips) = append ip (String.◌∷◌ " " (shown_ips (next ∷ ips)))

abbrev pub shown_line : String × List String → String
shown_line (key, ips) = append key (String.◌∷◌ "\t" (shown_ips ips))

abbrev pub shown : Dict (List String) → String
shown [] = ""
shown (peer ∷ peers) = append (shown_line peer) (String.◌∷◌ "\n" (shown peers))

-- A peer as the command knows it.
abbrev pub IsPeer : String × List String → Type 0
IsPeer (key, ips) = IsWord key × All (λ ip. IsWord ip × (ip ≢ "(none)")) ips

-- The map with each of the peers, in their order.
abbrev pub assigned : Dict (List String) → Dict (List String) → Dict (List String)
assigned [] m = m
assigned ((key, ips) ∷ peers) m = assigned peers (insert key ips m)

pub solid-cons :
    (c : Char) (s : String)
    → solid (String.◌∷◌ c s) ≡ true
    → (is_white c ≡ false) × (solid s ≡ true)
unfolding solid
solid-cons c s h = ground arith

-- The words.
words-at :
    (w : String) (c : Char) (s : String)
    → solid w ≡ true
    → is_white c ≡ true
    → words_from (append w (String.◌∷◌ c s)) ≡ (w, fields s)
unfolding words_from solid fields
words-at String.[] c s h white = rw (nil-append, white) refl
words-at (String.◌∷◌ d w) c s h white =
    rw cons-append
      (let (black, rest) = solid-cons d w h in rw (words-at w c s rest white, black) refl)

words-one : (w : String) → solid w ≡ true → words_from w ≡ (w, [])
unfolding words_from solid
words-one String.[] h = refl
words-one (String.◌∷◌ d w) h =
    let (black, rest) = solid-cons d w h in rw (words-one w rest, black) refl

fields-at :
    (w : String) (c : Char) (s : String)
    → IsWord w
    → is_white c ≡ true
    → fields (append w (String.◌∷◌ c s)) ≡ w ∷ fields s
unfolding fields
fields-at w c s (some_text, h) white =
    rw (words-at w c s h white, eq-false_of_ne w "" some_text) refl

fields-one : (w : String) → IsWord w → fields w ≡ w ∷ []
unfolding fields
fields-one w (some_text, h) = rw (words-one w h, eq-false_of_ne w "" some_text) refl

-- The networks of a line.
none-IsWord : IsWord "(none)"
unfolding solid
none-IsWord = ((λ e. let differ : false ≡ true = ap (λ s. s == "") e in cc), refl)

fields-ips :
    (ips : List String)
    → All (λ ip. IsWord ip × (ip ≢ "(none)")) ips
    → keep (λ f. not (f == "(none)")) (fields (shown_ips ips)) ≡ ips
fields-ips [] h = rw (fields-one "(none)" none-IsWord) refl
fields-ips (ip ∷ []) h = rw (fields-one ip h.0.0) (rw (eq-false_of_ne ip "(none)" h.0.1, keep) refl)
fields-ips (ip ∷ next ∷ ips) h =
    let rest = fields-ips (next ∷ ips) h.1 in
    rw (fields-at ip " " (shown_ips (next ∷ ips)) h.0.0 refl)
      (rw (eq-false_of_ne ip "(none)" h.0.1, keep) (ap (λ ws. ip ∷ ws) rest))

add_line-shown :
    (key : String) (ips : List String) (m : Dict (List String))
    → IsPeer (key, ips)
    → add_line (shown_line (key, ips)) m ≡ insert key ips m
unfolding add_line
add_line-shown key ips m (word, h) =
    rw (fields-at key "\t" (shown_ips ips) word refl, add_line) (rw (fields-ips ips h) refl)

pub add_lines-shown :
    (peers m : Dict (List String))
    → All IsPeer peers
    → add_lines (map shown_line peers) m ≡ assigned peers m
unfolding add_lines
add_lines-shown [] m h = refl
add_lines-shown ((key, ips) ∷ peers) m h =
    rw (add_line-shown key ips m h.0, add_lines) (add_lines-shown peers (insert key ips m) h.1)

-- What the trimming takes is the last line's end.
trim_right-solid : (w : String) → solid w ≡ true → trim_right w ≡ w
unfolding trim_right solid
trim_right-solid String.[] h = refl
trim_right-solid (String.◌∷◌ c w) h =
    let (black, rest) = solid-cons c w h in let same = trim_right-solid w rest in ground arith

append-some : (s t : String) → (t == "") ≡ false → (append s t == "") ≡ false
append-some String.[] t h = rw nil-append h
append-some (String.◌∷◌ c s) t h =
    rw cons-append (eq-false_of_ne _ "" (λ e. not_cons c (append s t) (sym e)))

trim_right-append :
    (s t : String)
    → (trim_right t == "") ≡ false
    → trim_right (append s t) ≡ append s (trim_right t)
unfolding trim_right
trim_right-append String.[] t h = ap trim_right (nil-append t) ∙ sym (nil-append (trim_right t))
trim_right-append (String.◌∷◌ c s) t h =
    let same = trim_right-append s t h in
    let some_text = append-some s (trim_right t) h in
    let kept : trim_right (String.◌∷◌ c (append s t)) ≡ String.◌∷◌ c (append s (trim_right t)) =
      rw same (rw (some_text) refl) in
    ap trim_right (cons-append c s t) ∙ kept ∙ sym (cons-append c s (trim_right t))

trim_right-blank : (s t : String) → trim_right t ≡ "" → trim_right (append s t) ≡ trim_right s
unfolding trim_right
trim_right-blank String.[] t h = rw nil-append h
trim_right-blank (String.◌∷◌ c s) t h = rw cons-append (rw (trim_right-blank s t h) refl)

cons-some : (c : Char) (t : String) → (String.◌∷◌ c t == "") ≡ false
cons-some c t = eq-false_of_ne _ "" (λ e. not_cons c t (sym e))

trim_right-cons :
    (c : Char) (t : String)
    → (trim_right t == "") ≡ false
    → trim_right (String.◌∷◌ c t) ≡ String.◌∷◌ c (trim_right t)
unfolding trim_right
trim_right-cons c t h = rw h refl

-- A text, a byte and what is left of the rest.
trim_right-after :
    (s : String) (c : Char) (t u : String)
    → trim_right t ≡ u
    → (u == "") ≡ false
    → (trim_right (append s (String.◌∷◌ c t)) ≡ append s (String.◌∷◌ c u))
      × ((append s (String.◌∷◌ c u) == "") ≡ false)
trim_right-after s c t u e h =
    let step : trim_right (String.◌∷◌ c t) ≡ String.◌∷◌ c u =
      trim_right-cons c t (ap (λ x. x == "") e ∙ h) ∙ ap (String.◌∷◌ c) e in
    (
      trim_right-append s (String.◌∷◌ c t) (ap (λ x. x == "") step ∙ cons-some c u)
          ∙ ap (append s) step,
      append-some s (String.◌∷◌ c u) (cons-some c u),
    )

-- A text that trimming on the right leaves, and that is not empty.
abbrev IsEnded : String → Type 0
IsEnded s = (trim_right s ≡ s) × ((s == "") ≡ false)

word-IsEnded : (w : String) → IsWord w → IsEnded w
word-IsEnded w (some_text, h) = (trim_right-solid w h, eq-false_of_ne w "" some_text)

ips-IsEnded :
    (ips : List String) → All (λ ip. IsWord ip × (ip ≢ "(none)")) ips → IsEnded (shown_ips ips)
ips-IsEnded [] h = word-IsEnded "(none)" none-IsWord
ips-IsEnded (ip ∷ []) h = word-IsEnded ip h.0.0
ips-IsEnded (ip ∷ next ∷ ips) h =
    let (same, some_text) = ips-IsEnded (next ∷ ips) h.1 in
    trim_right-after ip " " (shown_ips (next ∷ ips)) _ same some_text

line-IsEnded : (peer : String × List String) → IsPeer peer → IsEnded (shown_line peer)
line-IsEnded (key, ips) (word, h) =
    let (same, some_text) = ips-IsEnded ips h in
    trim_right-after key "\t" (shown_ips ips) _ same some_text

-- The lines without the end of the last.
abbrev pub unended : Dict (List String) → String
unended [] = ""
unended (peer ∷ []) = shown_line peer
unended (peer ∷ next ∷ peers) = append (shown_line peer) (String.◌∷◌ "\n" (unended (next ∷ peers)))

pub shown-trimmed :
    (peer : String × List String) (peers : Dict (List String))
    → All IsPeer (peer ∷ peers)
    → (trim_right (shown (peer ∷ peers)) ≡ unended (peer ∷ peers))
      × ((unended (peer ∷ peers) == "") ≡ false)
unfolding trim_right
shown-trimmed peer [] h =
    let (same, some_text) = line-IsEnded peer h.0 in
    (trim_right-blank (shown_line peer) "\n" refl ∙ same, some_text)
shown-trimmed peer (next ∷ peers) h =
    let (same, some_text) = shown-trimmed next peers h.1 in
    trim_right-after (shown_line peer) "\n" (shown (next ∷ peers)) _ same some_text
