-- ===== src/Dashboard/Email.antt =====
-- cmd/controlplane/main.go: the checks of a role, of a password's length and of an email address, by the
-- regular expression ^[^@\s]+@[^@\s]+\.[^@\s]+$.
use Prim.Native.Char.{Char, code}
use rv_tx.Base.{
  ℕ, ◌+◌, String, Bool, true, false, not, ◌&&◌, ◌||◌, none, some, eqb, ltb, if◌then◌else◌, ◌==◌,
}
use rv_tx.Base.Text.{cut}

abbrev pub is_space : Char → Bool
is_space c =
    eqb (code c) 9 || eqb (code c) 10 || eqb (code c) 12 || eqb (code c) 13 || eqb (code c) 32

-- One or more characters of `[^@\s]`.
unfoldable pub all_plain : String → Bool
all_plain String.[] = true
all_plain (String.◌∷◌ c s) = not (eqb (code c) b'@' || is_space c) && all_plain s

-- A dot with something after it.
unfoldable pub has_dot_before_more : String → Bool
has_dot_before_more String.[] = false
has_dot_before_more (String.◌∷◌ c s) = (eqb (code c) b'.' && not (s == "")) || has_dot_before_more s

-- What may follow the @: something, a dot, something.
unfoldable pub is_domain : String → Bool
unfolding all_plain has_dot_before_more
is_domain String.[] = false
is_domain (String.◌∷◌ c s) = all_plain (String.◌∷◌ c s) && has_dot_before_more s

-- `emailRe.MatchString`
unfoldable pub is_email_address : String → Bool
unfolding is_domain
is_email_address s =
    let parts = cut b'@' s in
    elim parts.1 [
      | none ↦ false
      | some domain ↦ not (parts.0 == "") && (all_plain parts.0 && is_domain domain)
    ]

-- `validRole`
abbrev pub valid_role : String → Bool
valid_role role = role == "admin" || role == "viewer"

-- `len` of a text in UTF-8 bytes.
abbrev pub utf8_size : ℕ → ℕ
utf8_size c = if ltb c 128 then 1 else (if ltb c 2048 then 2 else (if ltb c 65536 then 3 else 4))

unfoldable pub byte_length : String → ℕ
byte_length String.[] = 0
byte_length (String.◌∷◌ c s) = utf8_size (code c) + byte_length s
