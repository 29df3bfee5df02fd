-- ===== src/Auth.antt =====
-- internal/controlplane/auth/auth.go: the signed session cookie and the passwords. The packages that it
-- calls (crypto/hmac with crypto/sha256, encoding/base64, encoding/json, bcrypt) are the fields of a
-- Crypto. Times are nanoseconds; the cookie's expiry is in seconds.
pub mod Cookies
pub mod Sample
pub mod Token
pub mod Tests
use Prim.Native.String.{◌++◌}
use rv_tx.Base.{
  ℕ, ◌+◌, ◌*◌, ◌/◌, ◌≡◌, String, Bool, true, false, Option, none, some, List, leb, if◌then◌else◌,
  ◌==◌, inl, inr,
}
use rv_tx.Base.Dots.{no_dot}
use rv_tx.Base.Text.{ℤ, pos, negsuc, cut}

pub record Session : Type 0 where
  pub email : String
  pub role : String
  pub exp : ℤ

-- Bytes are lists of numbers.
pub record Crypto : Type 0 where
  pub mac : String → String → List ℕ
  pub encode : List ℕ → String
  pub decode : String → Option (List ℕ)
  pub marshal : Session → List ℕ
  pub unmarshal : List ℕ → Option Session
  -- `subtle.ConstantTimeCompare(x, y) == 1`
  pub same_bytes : List ℕ → List ℕ → Bool
  -- `bcrypt.GenerateFromPassword`, which fails on a password of over 72 bytes, and
  -- `bcrypt.CompareHashAndPassword`.
  pub bcrypt_hash : String → Option String
  pub bcrypt_matches : String → String → Bool

-- What the packages document, for the cookie of a session: base64 decoding undoes encoding and its
-- alphabet has no dot, parsing undoes printing, and the comparison is equality.
pub record IsCrypto (c : Crypto) (secret : String) (s : Session) : Type 0 where
  pub decode-payload : c.decode (c.encode (c.marshal s)) ≡ some (c.marshal s)
  pub decode-mac :
      c.decode (c.encode (c.mac secret (c.encode (c.marshal s))))
      ≡ some (c.mac secret (c.encode (c.marshal s)))
  pub no_dot-payload : no_dot (c.encode (c.marshal s)) ≡ true
  pub unmarshal-marshal : c.unmarshal (c.marshal s) ≡ some s
  pub same_bytes_refl : (b : List ℕ) → c.same_bytes b b ≡ true

abbrev pub second : ℕ
second = 1000000000

-- `sessionTTL`
abbrev pub session_ttl : ℕ
session_ttl = 30 * 24 * 3600 * second

abbrev pub unix : ℕ → ℕ
unix t = t / second

-- `Session.IsAdmin`
abbrev pub is_admin : Session → Bool
is_admin s = s.role == "admin"

-- `now >= exp`
abbrev pub has_expired : ℕ → ℤ → Bool
has_expired now (pos e) = leb e now
has_expired now (negsuc e) = true

-- The session of `NewSessionCookie`.
abbrev pub new_session : String → String → ℕ → Session
new_session email role now = record {
  email = email;
  role = role;
  exp = pos (unix (now + session_ttl));
}

-- `http.Cookie`; SameSite is Lax in all of them, and 0 is no Max-Age.
pub record Cookie : Type 0 where
  pub name : String
  pub value : String
  pub path : String
  pub http_only : Bool
  pub expires : Option ℕ
  pub max_age : ℤ

abbrev pub cookie_name : String
cookie_name = "rvtx_session"

-- `ExpiredCookie`
abbrev pub expired_cookie : Cookie
expired_cookie = record {
  name = cookie_name;
  value = "";
  path = "/";
  http_only = true;
  expires = none;
  max_age = negsuc 0;
}

module _ (c : Crypto) where
  -- `signValue`
  unfoldable pub sign_value : String → Session → String
  sign_value secret s =
      let payload = c.encode (c.marshal s) in payload ++ "." ++ c.encode (c.mac secret payload)

  -- `verifyValue`, from the parts of the value on.
  unfoldable pub verify_parts : String → String → String → Option Session
  verify_parts secret payload sig_text = elim (c.decode sig_text) [
    | none ↦ none
    | some sig ↦
        if c.same_bytes sig (c.mac secret payload)
        then (elim (c.decode payload) [ none ↦ none | some raw ↦ c.unmarshal raw ])
        else none
  ]

  abbrev pub verify_cut : String → String × Option String → Option Session
  verify_cut secret (payload, none) = none
  verify_cut secret (payload, some sig) = verify_parts secret payload sig

  -- `verifyValue`
  unfoldable pub verify_value : String → String → Option Session
  verify_value secret value = verify_cut secret (cut b'.' value)

  -- The value of `NewSessionCookie`.
  unfoldable pub new_session_cookie : String → String → String → ℕ → String
  new_session_cookie secret email role now = sign_value secret (new_session email role now)

  -- `NewSessionCookie`
  unfoldable pub session_cookie : String → String → String → ℕ → Cookie
  session_cookie secret email role now = record {
    name = cookie_name;
    value = new_session_cookie secret email role now;
    path = "/";
    http_only = true;
    expires = some (unix (now + session_ttl));
    max_age = pos 0;
  }

  abbrev pub unexpired : ℕ → Session → Option Session
  unexpired now s = if has_expired (unix now) s.exp then none else some s

  -- `ValidSession`, of the cookie of the request if it has one.
  unfoldable pub valid_session : Option String → String → ℕ → Option Session
  valid_session none secret now = none
  valid_session (some value) secret now = elim (verify_value secret value) [
    | none ↦ none
    | some s ↦ unexpired now s
  ]

  -- `HashPassword`
  abbrev pub hash_password : String → Option String
  hash_password plaintext = c.bcrypt_hash plaintext

  -- `VerifyPassword`
  unfoldable pub verify_password : String → String → Bool
  verify_password hash plaintext = if hash == "" then false else c.bcrypt_matches hash plaintext
