-- ===== src/Auth/Sample.antt =====
-- Packages that are tables at one session, for the tests.
use rv_tx.Base.{
  ℕ, ◌≡◌, refl, Bool, true, false, ◌&&◌, some, none, List, [], ◌∷◌, eqb, if◌then◌else◌, ◌==◌, arith,
}
use rv_tx.Base.Dots.{no_dot}
use rv_tx.Auth.{Session, Crypto, IsCrypto, new_session}

abbrev pub made : ℕ
made = 1000000000

abbrev pub session : Session
session = new_session "a@b.c" "admin" made

unfoldable pub same : List ℕ → List ℕ → Bool
same [] [] = true
same [] (y ∷ ys) = false
same (x ∷ xs) [] = false
same (x ∷ xs) (y ∷ ys) = eqb x y && same xs ys

pub same_refl : (b : List ℕ) → same b b ≡ true
unfolding same
same_refl [] = refl
same_refl (x ∷ xs) = ground (arith, same_refl xs)

pub same-eq : (a b : List ℕ) → same a b ≡ true → a ≡ b
unfolding same
same-eq [] [] e = refl
same-eq [] (y ∷ ys) e = cc
same-eq (x ∷ xs) [] e = cc
same-eq (x ∷ xs) (y ∷ ys) e = ground (arith, same-eq xs ys)

abbrev pub tables : Crypto
tables = record {
  mac = λ secret payload. 2 ∷ [];
  encode = λ b. if same b (1 ∷ []) then "payload" else "mac";
  decode =
      λ s. if s == "payload" then some (1 ∷ []) else (if s == "mac" then some (2 ∷ []) else none);
  marshal = λ s. 1 ∷ [];
  unmarshal = λ b. if same b (1 ∷ []) then some session else none;
  same_bytes = same;
  bcrypt_hash = λ p. some p;
  bcrypt_matches = λ h p. h == p;
}

pub tables-IsCrypto : IsCrypto tables "secret" session
unfolding same no_dot
tables-IsCrypto = record {
  decode-payload = refl;
  decode-mac = refl;
  no_dot-payload = refl;
  unmarshal-marshal = refl;
  same_bytes_refl = same_refl;
}
