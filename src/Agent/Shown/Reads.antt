-- ===== src/Agent/Shown/Reads.antt =====
-- The lines of the output, and the whole of it.
use Prim.Native.String.{◌++◌ as append}
use text.Mathlib.TextLemmas.{cons-append}
use rv_tx.Base.{
  ◌≡◌, ◌≢◌, refl, ◌∙◌, ap, String, Bool, true, false, not, List, [], ◌∷◌, All, map, arith,
}
use rv_tx.Base.Dict.{Dict}
use rv_tx.Base.Text.{split}
use rv_tx.Base.Trim.{is_white, trim_left, trim_space}
use rv_tx.Base.Pieces.{lacks, split-at, split-one, lacks-append}
use rv_tx.Agent.Output.{fields, add_line, add_lines, parse_peers}
use rv_tx.Agent.Shown.{
  solid, solid-cons, IsWord, IsPeer, shown_ips, shown_line, shown, unended, assigned,
  add_lines-shown, shown-trimmed,
}

-- The text starts with something else than white space.
abbrev starts_black : String → Bool
starts_black String.[] = false
starts_black (String.◌∷◌ c s) = not (is_white c)

starts-append : (s t : String) → starts_black s ≡ true → starts_black (append s t) ≡ true
starts-append String.[] t h = cc
starts-append (String.◌∷◌ c s) t h = rw cons-append h

word_starts : (w : String) → IsWord w → starts_black w ≡ true
unfolding solid
word_starts String.[] (some_text, h) = absurd (some_text refl)
word_starts (String.◌∷◌ c s) (some_text, h) = rw (solid-cons c s h).0 refl

trim_left-black : (s : String) → starts_black s ≡ true → trim_left s ≡ s
unfolding trim_left
trim_left-black String.[] h = refl
trim_left-black (String.◌∷◌ c s) h = ground arith

unended_starts :
    (peer : String × List String) (peers : Dict (List String))
    → IsPeer peer
    → starts_black (unended (peer ∷ peers)) ≡ true
unended_starts (key, ips) [] (word, h) = starts-append key _ (word_starts key word)
unended_starts (key, ips) (next ∷ peers) (word, h) =
    starts-append (shown_line (key, ips)) _ (starts-append key _ (word_starts key word))

-- No line has the end of a line.
solid-lacks : (w : String) → solid w ≡ true → lacks 10 w ≡ true
unfolding solid lacks
solid-lacks String.[] h = refl
solid-lacks (String.◌∷◌ c s) h =
    let (black, rest) = solid-cons c s h in let tail = solid-lacks s rest in ground arith

ips-lack :
    (ips : List String)
    → All (λ ip. IsWord ip × (ip ≢ "(none)")) ips
    → lacks 10 (shown_ips ips) ≡ true
unfolding lacks
ips-lack [] h = refl
ips-lack (ip ∷ []) h = solid-lacks ip h.0.0.1
ips-lack (ip ∷ next ∷ ips) h =
    lacks-append 10 ip _ (solid-lacks ip h.0.0.1) (ips-lack (next ∷ ips) h.1)

line-lacks : (peer : String × List String) → IsPeer peer → lacks 10 (shown_line peer) ≡ true
unfolding lacks
line-lacks (key, ips) (word, h) = lacks-append 10 key _ (solid-lacks key word.1) (ips-lack ips h)

split-unended :
    (peer : String × List String) (peers : Dict (List String))
    → All IsPeer (peer ∷ peers)
    → split 10 (unended (peer ∷ peers)) ≡ map shown_line (peer ∷ peers)
split-unended peer [] h = split-one 10 (shown_line peer) (line-lacks peer h.0)
split-unended peer (next ∷ peers) h =
    split-at 10 (shown_line peer) "\n" (unended (next ∷ peers)) (line-lacks peer h.0) refl
    ∙ ap (λ ls. shown_line peer ∷ ls) (split-unended next peers h.1)

trim-shown :
    (peer : String × List String) (peers : Dict (List String))
    → All IsPeer (peer ∷ peers)
    → trim_space (shown (peer ∷ peers)) ≡ unended (peer ∷ peers)
unfolding trim_space
trim-shown peer peers h =
    ap trim_left (shown-trimmed peer peers h).0
    ∙ trim_left-black (unended (peer ∷ peers)) (unended_starts peer peers h.0)

-- currentPeers reads back what `wg show` prints of peers, with any number of networks each and none: whatever
-- the keys and the networks are, as long as they are words, it is the map of the keys to their networks.
pub parse_peers-shown :
    (peers : Dict (List String)) → All IsPeer peers → parse_peers (shown peers) ≡ assigned peers []
unfolding parse_peers trim_space split add_line add_lines fields
parse_peers-shown [] h = refl
parse_peers-shown (peer ∷ peers) h =
    ap (λ s. add_lines (split 10 s) []) (trim-shown peer peers h)
    ∙ ap (λ ls. add_lines ls []) (split-unended peer peers h)
    ∙ add_lines-shown (peer ∷ peers) [] h
