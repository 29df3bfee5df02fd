-- ===== src/Base/Atoi.antt =====
-- `strconv.Atoi` of Go, for an `int` of 64 bits, and that it reads what `strconv.Itoa` prints.
use Prim.Native.Nat.{ℕ, zero, suc, ◌+◌, ◌-◌, ◌*◌, ◌/◌, ◌%◌, ◌^◌, ◌<◌}
use Prim.Native.Char.{Char, code}
use Prim.Native.String.{String, ◌++◌}
use text.Mathlib.TextLemmas.{nil-append, cons-append}
use text.Mathlib.Text.{◌==◌}
use text.Mathlib.TextEquality.{eq_iff}
use mathlib.Core.Path.{◌≡◌, refl, ◌∙◌, ap, subst}
use mathlib.Core.Logic.{◌≢◌, inl, inr}
use mathlib.Core.Bool.{false}
use mathlib.Core.Option.{Option, none, some}
use native.Mathlib.Omega.{arith}
use rv_tx.Base.Tests.{ltb, leb, eqb, if◌then◌else◌, Bool-cases}
use rv_tx.Base.Text.{
  ℤ, pos, negsuc, decimal_fuel, decimal, itoa, is_digit, digits_value, digit, cut_prefix,
}

-- One or more digits.
unfoldable pub unsigned : String → Option ℕ
unsigned s = if s == "" then none else digits_value 0 s

-- The limits of an `int`.
abbrev pub positive : Option ℕ → Option ℤ
positive none = none
positive (some n) = if ltb n (2 ^ 63) then some (pos n) else none

abbrev pub opposite : ℕ → ℤ
opposite zero = pos zero
opposite (suc n) = negsuc n

abbrev pub negative : Option ℕ → Option ℤ
negative none = none
negative (some n) = if leb n (2 ^ 63) then some (opposite n) else none

abbrev pub unprefixed : String → Option String → String
unprefixed s none = s
unprefixed s (some rest) = rest

-- A sign, and digits; `none` is an error.
unfoldable pub atoi : String → Option ℤ
unfolding unsigned
atoi s = elim (cut_prefix "-" s) [
  | some rest ↦ negative (unsigned rest)
  | none ↦ positive (unsigned (unprefixed s (cut_prefix "+" s)))
]

abbrev pub Fits : ℤ → Type 0
Fits (pos n) = n < 2 ^ 63
Fits (negsuc n) = n < 2 ^ 63

abbrev read_on : String → Option ℕ → Option ℕ
read_on t none = none
read_on t (some acc) = digits_value acc t

digits_value-append :
    (acc : ℕ) (s t : String) → digits_value acc (s ++ t) ≡ read_on t (digits_value acc s)
unfolding digits_value
digits_value-append acc String.[] t = rw nil-append refl
digits_value-append acc (String.◌∷◌ c s) t = rw cons-append (elim (Bool-cases (is_digit c)) [
  | inl digit_first ↦ rw digit_first (digits_value-append (acc * 10 + (code c - b'0')) s t)
  | inr other ↦ rw other refl
])

digits_value-digit : (acc n : ℕ) → n < 10 → digits_value acc (digit n) ≡ some (acc * 10 + n)
unfolding digits_value
digits_value-digit acc zero h = refl
digits_value-digit acc (suc zero) h = refl
digits_value-digit acc (suc (suc zero)) h = refl
digits_value-digit acc (suc (suc (suc zero))) h = refl
digits_value-digit acc (suc (suc (suc (suc zero)))) h = refl
digits_value-digit acc (suc (suc (suc (suc (suc zero))))) h = refl
digits_value-digit acc (suc (suc (suc (suc (suc (suc zero)))))) h = refl
digits_value-digit acc (suc (suc (suc (suc (suc (suc (suc zero))))))) h = refl
digits_value-digit acc (suc (suc (suc (suc (suc (suc (suc (suc zero)))))))) h = refl
digits_value-digit acc (suc (suc (suc (suc (suc (suc (suc (suc (suc zero))))))))) h = refl
digits_value-digit acc (suc (suc (suc (suc (suc (suc (suc (suc (suc (suc n)))))))))) h =
    absurd (omega arith)

digits_value-decimal_fuel : (f n : ℕ) → n < f → digits_value 0 (decimal_fuel f n) ≡ some n
unfolding decimal_fuel
digits_value-decimal_fuel zero n h = absurd (omega arith)
digits_value-decimal_fuel (suc f) n h = elim (Bool-cases (ltb n 10)) [
  | inl small ↦ rw small (digits_value-digit 0 n (ground arith) ∙ ground arith)
  | inr large ↦
      let rest = digits_value-decimal_fuel f (n / 10) (ground arith) in
      rw large (
        digits_value-append 0 (decimal_fuel f (n / 10)) (digit (n % 10))
        ∙ rw rest (digits_value-digit (n / 10) (n % 10) (omega arith) ∙ ground arith))
]

digits_value-decimal : (n : ℕ) → digits_value 0 (decimal n) ≡ some n
unfolding decimal
digits_value-decimal n = digits_value-decimal_fuel (suc n) n (omega arith)

-- A text of digits has no sign.
cut_prefix-none :
    (c : Char) (s : String) (acc : ℕ) {n : ℕ}
    → is_digit c ≡ false
    → digits_value acc s ≡ some n
    → cut_prefix (String.◌∷◌ c String.[]) s ≡ none
unfolding digits_value cut_prefix
cut_prefix-none c String.[] acc other e = refl
cut_prefix-none c (String.◌∷◌ d s) acc other e = elim (Bool-cases (eqb (code c) (code d))) [
  | inl same ↦ absurd (ground arith)
  | inr differs ↦ rw differs refl
]

not_zero : (n : ℕ) → digits_value 0 "" ≢ some (suc n)
unfolding digits_value
not_zero n e = ground arith

decimal-ne : (n : ℕ) → (decimal n == "") ≡ false
unfolding decimal decimal_fuel
decimal-ne zero = refl
decimal-ne (suc n) = elim (Bool-cases (decimal (suc n) == "")) [
  | inl empty ↦
      let is_zero : digits_value 0 "" ≡ some (suc n) =
        subst (λ s. digits_value 0 s ≡ some (suc n)) ((eq_iff _ _).0 empty)
          (digits_value-decimal (suc n)) in
      absurd (not_zero n is_zero)
  | inr some_digit ↦ some_digit
]

unsigned-decimal : (n : ℕ) → unsigned (decimal n) ≡ some n
unfolding unsigned
unsigned-decimal n = rw (decimal-ne n, unsigned) (digits_value-decimal n)

itoa-pos : (n : ℕ) → itoa (pos n) ≡ decimal n
unfolding itoa
itoa-pos n = refl

itoa-negsuc : (n : ℕ) → itoa (negsuc n) ≡ String.◌∷◌ "-" (decimal (suc n))
unfolding itoa
itoa-negsuc n = cons-append "-" String.[] _ ∙ ap (String.◌∷◌ "-") (nil-append _)

cut_prefix_self :
    (c : Char) (s : String) → cut_prefix (String.◌∷◌ c String.[]) (String.◌∷◌ c s) ≡ some s
unfolding cut_prefix
cut_prefix_self c s = ground arith

-- An `int` is read back from its text.
pub atoi-itoa : (z : ℤ) → Fits z → atoi (itoa z) ≡ some z
unfolding atoi
atoi-itoa (pos n) h =
    let minus = cut_prefix-none "-" (decimal n) 0 refl (digits_value-decimal n) in
    let plus = cut_prefix-none "+" (decimal n) 0 refl (digits_value-decimal n) in
    rw (itoa-pos n) (rw (minus, atoi) (rw plus (rw (unsigned-decimal n) (ground arith))))
atoi-itoa (negsuc n) h = rw (itoa-negsuc n) (
    rw (cut_prefix_self "-" (decimal (suc n)), atoi) (rw (unsigned-decimal (suc n)) (ground arith)))
