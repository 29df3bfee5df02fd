-- ===== src/Base/Lists.antt =====
-- Lists measured and indexed by native numbers, and lists of texts.
use Prim.Native.Nat.{ℕ, zero, suc}
use Prim.Native.String.{String}
use mathlib.Core.Path.{◌≡◌, sym}
use mathlib.Core.Logic.{◌↔◌, ◌≢◌, inl, inr}
use mathlib.Core.Logic.Or
use mathlib.Core.Bool.{Bool, true, false, ◌||◌, ◌&&◌, Bool-set, or-true}
use mathlib.Core.List.{List, [], ◌∷◌, ◌++◌, Mem, not-mem-nil, mem-cons, mem-cons_of_mem}
use native.Mathlib.Omega.{arith}
use text.Mathlib.Text.{◌==◌}
use text.Mathlib.TextEquality.{eq_iff}
use rv_tx.Base.Tests.{Bool-cases}

module _ {ℓ} {A : Type ℓ} where
  abbrev pub length : List A → ℕ
  length [] = 0
  length (x ∷ xs) = suc (length xs)

  abbrev pub get_or : List A → ℕ → A → A
  get_or [] i d = d
  get_or (x ∷ xs) zero d = x
  get_or (x ∷ xs) (suc i) d = get_or xs i d

  -- A write out of bounds changes nothing.
  abbrev pub set : List A → ℕ → A → List A
  set [] i v = []
  set (x ∷ xs) zero v = v ∷ xs
  set (x ∷ xs) (suc i) v = x ∷ set xs i v

  abbrev pub All {κ} : (A → Type κ) → List A → Type κ
  All P [] = Unit
  All P (x ∷ xs) = P x × All P xs

  -- The elements that pass a Boolean test, in order.
  abbrev pub keep : (A → Bool) → List A → List A
  keep p [] = []
  keep p (x ∷ xs) = elim (p x) [ true ↦ x ∷ keep p xs | false ↦ keep p xs ]

  abbrev pub any : (A → Bool) → List A → Bool
  any p [] = false
  any p (x ∷ xs) = p x || any p xs

  abbrev pub all : (A → Bool) → List A → Bool
  all p [] = true
  all p (x ∷ xs) = p x && all p xs

-- Whether a text is in a list.
unfoldable pub contains : List String → String → Bool
contains [] a = false
contains (x ∷ xs) a = x == a || contains xs a

mem_of_contains : (xs : List String) (a : String) → contains xs a ≡ true → Mem a xs
unfolding contains
mem_of_contains [] a h = cc
mem_of_contains (x ∷ xs) a h = elim (Bool-cases (x == a)) [
  | inl e ↦ mem-cons.1 (Or.inl (sym ((eq_iff x a).0 e)))
  | inr n ↦ mem-cons_of_mem _ (mem_of_contains xs a (ground arith))
]

pub contains_iff : (xs : List String) (a : String) → (contains xs a ≡ true) ↔ Mem a xs
unfolding contains
contains_iff [] a = (λ h. cc, λ m. absurd (not-mem-nil m))
contains_iff (x ∷ xs) a = (
  mem_of_contains (x ∷ xs) a,
  λ m.
      Or.elim (Bool-set _ _) (mem-cons.0 m) (λ e. rw ((eq_iff x a).1 (sym e)))
        (λ t. rw ((contains_iff xs a).1 t) (or-true (x == a))),
)

-- Texts that all differ.
abbrev pub Absent : String → List String → Type 0
Absent a [] = Unit {0}
Absent a (x ∷ xs) = (x ≢ a) × Absent a xs

abbrev pub Distinct : List String → Type 0
Distinct [] = Unit {0}
Distinct (x ∷ xs) = Absent x xs × Distinct xs

pub Absent-append :
    {a : String} (xs : List String) {b : String} → Absent a xs → b ≢ a → Absent a (xs ++ b ∷ [])
Absent-append [] h n = (n, tt)
Absent-append (x ∷ xs) h n = (h.0, Absent-append xs h.1 n)

pub Distinct-append :
    (xs : List String) (a : String) → Distinct xs → Absent a xs → Distinct (xs ++ a ∷ [])
Distinct-append [] a d h = (tt, tt)
Distinct-append (x ∷ xs) a d h =
    (Absent-append xs d.0 (λ e. h.0 (sym e)), Distinct-append xs a d.1 h.1)

module _ {ℓ κ} {A : Type ℓ} (P : A → Type κ) where
  pub All-append : (xs : List A) {a : A} → All P xs → P a → All P (xs ++ a ∷ [])
  All-append [] h p = (p, tt)
  All-append (x ∷ xs) h p = (h.0, All-append xs h.1 p)

module _ {ℓ κ} {A : Type ℓ} {B : Type κ} where
  -- Two lists of one length whose elements are related in order.
  abbrev pub Pairwise : (A → B → Type 0) → List A → List B → Type 0
  Pairwise R [] [] = Unit
  Pairwise R [] (y ∷ ys) = ⊥
  Pairwise R (x ∷ xs) [] = ⊥
  Pairwise R (x ∷ xs) (y ∷ ys) = R x y × Pairwise R xs ys

module _ {ℓ κ} {A : Type ℓ} (P : A → Type κ) where
  pub All-++ : (xs ys : List A) → All P xs → All P ys → All P (xs ++ ys)
  All-++ [] ys h k = k
  All-++ (x ∷ xs) ys h k = (h.0, All-++ xs ys h.1 k)

module _ {ℓ κ μ} {A : Type ℓ} {P : A → Type κ} {Q : A → Type μ} where
  pub All-map : ((a : A) → P a → Q a) → (xs : List A) → All P xs → All Q xs
  All-map f [] h = tt
  All-map f (x ∷ xs) h = (f x h.0, All-map f xs h.1)
