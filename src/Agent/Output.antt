-- ===== src/Agent/Output.antt =====
-- internal/agent/wgmanager/wgmanager.go: the reading of what `wg show` and `ip` print, with the functions
-- of Go's strings package that it uses.
use rv_tx.Base.{String, Bool, true, none, some, List, [], ◌∷◌, keep, not, if◌then◌else◌, ◌==◌}
use rv_tx.Base.Dict.{Dict, insert}
use rv_tx.Base.Text.{split, cut_prefix}
use rv_tx.Base.Trim.{is_white, trim_space}

abbrev pub cons_word : String → List String → List String
cons_word word words = if word == "" then words else word ∷ words

-- The word at the start of a text, if any, and the words after it.
unfoldable pub words_from : String → String × List String
words_from String.[] = ("", [])
words_from (String.◌∷◌ c s) =
    let (word, words) = words_from s in
    if is_white c then ("", cons_word word words) else (String.◌∷◌ c word, words)

-- `strings.Fields`
unfoldable pub fields : String → List String
unfolding words_from
fields s = let (word, words) = words_from s in cons_word word words

-- `strings.Contains`
unfoldable pub contains_text : String → String → Bool
contains_text String.[] t = t == ""
contains_text (String.◌∷◌ c s) t =
    let rest = contains_text s t in
    elim (cut_prefix t (String.◌∷◌ c s)) [ some after ↦ true | none ↦ rest ]

-- One line: the key, and what follows it but "(none)".
unfoldable pub add_line : String → Dict (List String) → Dict (List String)
add_line line peers = elim (fields line) [
  | [] ↦ peers
  | key ∷ ips ↦ insert key (keep (λ f. not (f == "(none)")) ips) peers
]

unfoldable pub add_lines : List String → Dict (List String) → Dict (List String)
add_lines [] peers = peers
add_lines (line ∷ lines) peers = add_lines lines (add_line line peers)

-- The map that `currentPeers` makes of the output.
unfoldable pub parse_peers : String → Dict (List String)
unfolding trim_space add_line add_lines
parse_peers out = add_lines (split 10 (trim_space out)) []
