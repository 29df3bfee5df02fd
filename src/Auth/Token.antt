-- ===== src/Auth/Token.antt =====
-- internal/controlplane/auth/auth.go: RandomToken. The bytes of crypto/rand are an argument, `none` its error.
use mathlib.Core.Option
use Prim.Native.Char.{Char, code}
use rv_tx.Net.Bits.{everywhere, everywhere-at}
use mathlib.Core.Option.{some-injective}
use rv_tx.Base.{
  ℕ, zero, suc, ◌+◌, ◌-◌, ◌*◌, ◌/◌, ◌%◌, ◌<◌, ◌≡◌, refl, ap, ◌∙◌, subst, String, Bool, true, ◌&&◌,
  ◌||◌, Option, some, List, [], ◌∷◌, All, arith, eqb, eqb_iff, length, leb, if◌then◌else◌,
}

-- A hexadecimal digit, below 16.
abbrev hex_digit : ℕ → Char
hex_digit zero = "0"
hex_digit (suc zero) = "1"
hex_digit (suc (suc zero)) = "2"
hex_digit (suc (suc (suc zero))) = "3"
hex_digit (suc (suc (suc (suc zero)))) = "4"
hex_digit (suc (suc (suc (suc (suc zero))))) = "5"
hex_digit (suc (suc (suc (suc (suc (suc zero)))))) = "6"
hex_digit (suc (suc (suc (suc (suc (suc (suc zero))))))) = "7"
hex_digit (suc (suc (suc (suc (suc (suc (suc (suc zero)))))))) = "8"
hex_digit (suc (suc (suc (suc (suc (suc (suc (suc (suc zero))))))))) = "9"
hex_digit (suc (suc (suc (suc (suc (suc (suc (suc (suc (suc zero)))))))))) = "a"
hex_digit (suc (suc (suc (suc (suc (suc (suc (suc (suc (suc (suc zero))))))))))) = "b"
hex_digit (suc (suc (suc (suc (suc (suc (suc (suc (suc (suc (suc (suc zero)))))))))))) = "c"
hex_digit (suc (suc (suc (suc (suc (suc (suc (suc (suc (suc (suc (suc (suc zero))))))))))))) = "d"
hex_digit (suc (suc (suc (suc (suc (suc (suc (suc (suc (suc (suc (suc (suc (suc zero)))))))))))))) =
    "e"
hex_digit _ = "f"

-- `hex.EncodeToString`
unfoldable pub hex : List ℕ → String
hex [] = ""
hex (b ∷ bytes) = String.◌∷◌ (hex_digit (b / 16)) (String.◌∷◌ (hex_digit (b % 16)) (hex bytes))

-- `RandomToken`
unfoldable pub random_token : Option (List ℕ) → Option String
random_token bytes = Option.map hex bytes

abbrev pub is_hex : Char → Bool
is_hex c = (leb b'0' (code c) && leb (code c) b'9') || (leb b'a' (code c) && leb (code c) b'f')

unfoldable pub all_hex : String → Bool
all_hex String.[] = true
all_hex (String.◌∷◌ c s) = is_hex c && all_hex s

-- The number of a digit.
abbrev hex_value : Char → ℕ
hex_value c = if leb (code c) b'9' then code c - b'0' else code c - b'a' + 10

-- The bytes of a token.
unfoldable pub unhex : String → List ℕ
unhex String.[] = []
unhex (String.◌∷◌ c String.[]) = []
unhex (String.◌∷◌ c (String.◌∷◌ d s)) = (hex_value c * 16 + hex_value d) ∷ unhex s

abbrev read_back : ℕ → Bool
read_back n = eqb (hex_value (hex_digit n)) n && is_hex (hex_digit n)

digits_table : everywhere read_back 16 ≡ true
unfolding everywhere
digits_table = refl

both : (a b : Bool) → (a && b) ≡ true → (a ≡ true) × (b ≡ true)
both a b h = ground arith

digit_read : (n : ℕ) → n < 16 → (hex_value (hex_digit n) ≡ n) × (is_hex (hex_digit n) ≡ true)
digit_read n h =
    let (value, digit) = both _ _ (everywhere-at read_back 16 n h digits_table) in
    ((eqb_iff _ _).0 value, digit)

unfoldable pub size : String → ℕ
size String.[] = 0
size (String.◌∷◌ c s) = suc (size s)

hex_read :
    (bytes : List ℕ)
    → All (λ b. b < 256) bytes
    → (unhex (hex bytes) ≡ bytes)
      × (all_hex (hex bytes) ≡ true)
      × (size (hex bytes) ≡ 2 * length bytes)
unfolding unhex hex all_hex size
hex_read [] h = (refl, refl, refl)
hex_read (b ∷ bytes) h =
    let (same, digits, long) = hex_read bytes h.1 in
    let (high, high_digit) = digit_read (b / 16) (omega arith) in
    let (low, low_digit) = digit_read (b % 16) (omega arith) in
    (
      ap (λ (n : ℕ). n ∷ unhex (hex bytes)) (byte b _ _ high low) ∙ ap (λ bs. b ∷ bs) same,
      digits_and _ _ _ high_digit low_digit digits,
      omega arith,
    )
  where
    byte : (b h l : ℕ) → h ≡ b / 16 → l ≡ b % 16 → h * 16 + l ≡ b
    byte b h l eh el = omega arith

    digits_and : (a b c : Bool) → a ≡ true → b ≡ true → c ≡ true → (a && (b && c)) ≡ true
    digits_and a b c ha hb hc = ground arith

-- The token of RandomToken has two hexadecimal digits for each byte, and determines the bytes.
pub random_token-unhex :
    (bytes : List ℕ) (token : String)
    → All (λ b. b < 256) bytes
    → random_token (some bytes) ≡ some token
    → (unhex token ≡ bytes) × (all_hex token ≡ true) × (size token ≡ 2 * length bytes)
unfolding random_token
random_token-unhex bytes token h e =
    subst
      (λ token. (unhex token ≡ bytes) × (all_hex token ≡ true) × (size token ≡ 2 * length bytes))
      (some-injective _ _ e) (hex_read bytes h)
