-- ===== src/Dashboard/Headers.antt =====
-- An address that the invitation accepts adds no header field to the mail.
use Prim.Native.Char.{code}
use Prim.Native.String.{◌++◌ as append}
use rv_tx.Base.{
  ◌≡◌, refl, String, Bool, true, Option, none, some, ◌∷◌, arith, eqb, inl, inr, Bool-cases,
  Option-cases,
}
use rv_tx.Base.Text.{cut, split}
use rv_tx.Base.Pieces.{lacks}
use rv_tx.Mail.{message}
use rv_tx.Mail.Message.{line, split-message}
use rv_tx.Dashboard.Email.{all_plain, is_domain, is_email_address}
use rv_tx.Dashboard.Letters.{invite_letter}

plain-lacks : (s : String) → all_plain s ≡ true → lacks 10 s ≡ true
unfolding all_plain lacks
plain-lacks String.[] h = refl
plain-lacks (String.◌∷◌ c s) h = ground (arith, plain-lacks s)

domain-lacks : (s : String) → is_domain s ≡ true → lacks 10 s ≡ true
unfolding is_domain
domain-lacks String.[] h = cc
domain-lacks (String.◌∷◌ c s) h = plain-lacks (String.◌∷◌ c s) (ground arith)

abbrev after_lacks : Option String → Bool
after_lacks none = true
after_lacks (some s) = lacks 10 s

cut-lacks :
    (s : String)
    → lacks 10 (cut b'@' s).0 ≡ true
    → after_lacks (cut b'@' s).1 ≡ true
    → lacks 10 s ≡ true
unfolding cut lacks
cut-lacks String.[] h k = refl
cut-lacks (String.◌∷◌ c s) h k = elim (Bool-cases (eqb (code c) b'@')) [
  | inl at ↦ ground arith
  | inr other ↦ ground (arith, cut-lacks s)
]

email-lacks : (s : String) → is_email_address s ≡ true → lacks 10 s ≡ true
unfolding is_email_address
email-lacks s h = elim (Option-cases (cut b'@' s).1) [
  | inl none_after ↦ let h' = rw (none_after, is_email_address) at h in cc
  | inr (domain, after) ↦
      let h' = rw (after, is_email_address) at h in
      let after_at = domain-lacks domain (ground arith) in
      cut-lacks s (plain-lacks (cut b'@' s).0 (ground arith)) (rw after after_at)
]

-- Where the sender of the configuration has no line feed, and whatever the link: the lines of the mail to an
-- address that inviteUserHandler accepts are its three header fields, an empty line and the body.
pub invite_letter-lines :
    (from base_url email role token : String)
    → lacks 10 from ≡ true
    → is_email_address email ≡ true
    → let letter = invite_letter base_url email role token in
      split 10 (message from letter.to letter.subject letter.body)
      ≡ line "From: " from
        ∷ line "To: " email
        ∷ line "Subject: " "rv-tx dashboard invite"
        ∷ "\r"
        ∷ split 10 (append letter.body "\r\n")
unfolding invite_letter lacks
invite_letter-lines from base_url email role token f h =
    split-message from email "rv-tx dashboard invite" _ f (email-lacks email h) refl
