-- ===== src/Auth/Cookies.antt =====
-- What a session cookie proves.
use rv_tx.Base.{
  ℕ, ◌+◌, ◌*◌, ◌/◌, ◌≡◌, refl, sym, ◌∙◌, String, true, false, Option, none, some, ltb,
  if◌then◌else◌, inl, inr, Option-cases, Bool-cases, arith, ap, List, unguarded,
}
use rv_tx.Base.Text.{pos, cut}
use rv_tx.Base.Dots.{cut-dot}
use rv_tx.Auth.{
  Session, Crypto, IsCrypto, has_expired, sign_value, verify_parts, verify_value, verify_cut,
  new_session, new_session_cookie, valid_session,
}

module _ (c : Crypto) (secret : String) (s : Session) (k : IsCrypto c secret s) where
  genuine :
      verify_parts c secret
        (c.encode (c.marshal s))
        (c.encode (c.mac secret (c.encode (c.marshal s))))
      ≡ some s
  unfolding verify_parts
  genuine =
      let sig = c.mac secret (c.encode (c.marshal s)) in
      rw (k.decode-mac, verify_parts)
        (rw (k.same_bytes_refl sig) (rw k.decode-payload k.unmarshal-marshal))

  verify-sign : verify_value c secret (sign_value c secret s) ≡ some s
  unfolding verify_value sign_value
  verify-sign =
      let payload = c.encode (c.marshal s) in
      let sig = c.encode (c.mac secret payload) in
      ap (verify_cut c secret) (cut-dot payload sig k.no_dot-payload) ∙ genuine

-- If the packages do at this session what they document: a cookie of `NewSessionCookie` is the
-- session of its email and role until the second that is thirty days after it was made, and none
-- from then on.
pub valid_session-new :
    (c : Crypto) (secret email role : String) (made now : ℕ)
    → IsCrypto c secret (new_session email role made)
    → valid_session c (some (new_session_cookie c secret email role made)) secret now ≡ (
        if ltb (now / 1000000000) ((made + 30 * 24 * 3600 * 1000000000) / 1000000000)
        then some (record {
          email = email;
          role = role;
          exp = pos ((made + 30 * 24 * 3600 * 1000000000) / 1000000000);
        })
        else none)
unfolding valid_session new_session_cookie
valid_session-new c secret email role made now k =
    rw (verify-sign c secret (new_session email role made) k, valid_session) (ground arith)

-- The parts of a value that verifies: a signature that is the MAC of the payload, and the session that
-- the payload reads as.
abbrev pub IsSigned : Crypto → String → String × Option String → Session → Type 0
IsSigned c secret parts s =
    (sig : String) × (raw : List ℕ) × (parts.1 ≡ some sig)
    × (c.decode sig ≡ some (c.mac secret parts.0))
    × (c.decode parts.0 ≡ some raw)
    × (c.unmarshal raw ≡ some s)

module _ (c : Crypto) (secret : String) (k : (a b : List ℕ) → c.same_bytes a b ≡ true → a ≡ b) where
  parts-IsSigned :
      (payload sig : String) {s : Session}
      → verify_parts c secret payload sig ≡ some s
      → IsSigned c secret (payload, some sig) s
  unfolding verify_parts
  parts-IsSigned payload sig e = elim (Option-cases (c.decode sig)) [
    | inl bad ↦ let e' = rw (bad, verify_parts) at e in cc
    | inr (b, decoded) ↦ elim (Bool-cases (c.same_bytes b (c.mac secret payload))) [
      | inr differs ↦ let e' = rw (decoded, verify_parts, differs) at e in cc
      | inl fits ↦ elim (Option-cases (c.decode payload)) [
        | inl bad ↦ let e' = rw (decoded, verify_parts, fits, bad) at e in cc
        | inr (raw, read) ↦
            let e' = rw (decoded, verify_parts, fits, read) at e in
            (sig, raw, refl, decoded ∙ ap some (k b (c.mac secret payload) fits), read, e')
      ]
    ]
  ]

  cut-IsSigned :
      (parts : String × Option String) {s : Session}
      → verify_cut c secret parts ≡ some s
      → IsSigned c secret parts s
  cut-IsSigned (payload, none) e = cc
  cut-IsSigned (payload, some sig) e = parts-IsSigned payload sig e

  -- If the comparison of bytes is equality: only a cookie whose part after the first dot decodes to
  -- the MAC of the part before it, under the server's secret, is a session, the one that the signed
  -- part reads as, and before its expiry.
  pub valid_session-IsSigned :
      (value : String) (now : ℕ) {s : Session}
      → valid_session c (some value) secret now ≡ some s
      → IsSigned c secret (cut b'.' value) s × (has_expired (now / 1000000000) s.exp ≡ false)
  unfolding valid_session verify_value
  valid_session-IsSigned value now {s} e = elim (Option-cases (verify_value c secret value)) [
    | inl bad ↦ let e' = rw (bad, valid_session) at e in cc
    | inr (s', found) ↦
        let (live, same) = unguarded _ (rw (found, valid_session) at e) in
        (
          cut-IsSigned (cut b'.' value) (found ∙ ap some same),
          ap (λ (s : Session). has_expired (now / 1000000000) s.exp) (sym same) ∙ live,
        )
  ]
