-- ===== src/Dashboard/Letters.antt =====
-- cmd/controlplane/main.go: the mails of inviteUserHandler and forgotPasswordHandler, and their sending.
use Prim.Native.String.{◌++◌ as append}
use rv_tx.Base.{
  ◌≡◌, refl, inl, inr, String, Bool, true, false, Option, none, some, [], ◌∷◌, ◌++◌, if◌then◌else◌,
  Bool-cases,
}
use rv_tx.Mail.{MailError, quit_failed, send}
use rv_tx.Dashboard.{Letter, Site, Outside}

-- The links of the mails.
unfoldable pub invite_link : String → String → String
invite_link base_url token = append base_url (append "/accept-invite?token=" token)

unfoldable pub reset_link : String → String → String
reset_link base_url token = append base_url (append "/reset-password?token=" token)

unfoldable pub invite_letter : String → String → String → String → Letter
unfolding invite_link
invite_letter base_url email role token = record {
  to = email;
  subject = "rv-tx dashboard invite";
  body = append "You've been invited to the rv-tx dashboard as a " (
      append role (
        append ".\n\nSet your password here (link expires in 7 days):\n"
          (append (invite_link base_url token) "\n")));
}

unfoldable pub reset_letter : String → String → String → Letter
unfolding reset_link
reset_letter base_url email token = record {
  to = email;
  subject = "rv-tx dashboard password reset";
  body =
      append
        "A password reset was requested for your rv-tx dashboard account.\n\nReset it here (link expires in 1 hour):\n"
        (append (reset_link base_url token) "\n\nIf you didn't request this, ignore this email.\n");
}

-- The error of `mail.Send`.
unfoldable pub send_error : Outside → Letter → Option MailError
send_error o letter = (send o.relay o.smtp letter.to letter.subject letter.body).1

-- The mail server has the mail: nil, or only the goodbye failed.
abbrev pub is_taken : Option MailError → Bool
is_taken none = true
is_taken (some quit_failed) = true
is_taken (some _) = false

-- The site after the sending.
unfoldable pub after_sending : Outside → Letter → Site → Site
after_sending o letter site =
    if is_taken (send_error o letter)
    then record site { mails = site.mails ++ letter ∷ [] }
    else site

abbrev pub is_sent : Option MailError → Bool
is_sent none = true
is_sent (some e) = false

-- Sending a mail changes nothing but the mails.
pub after_sending-tables :
    (o : Outside) (letter : Letter) (site : Site)
    → ((after_sending o letter site).users ≡ site.users)
      × ((after_sending o letter site).nodes ≡ site.nodes)
      × ((after_sending o letter site).resources ≡ site.resources)
unfolding after_sending
after_sending-tables o letter site = elim (Bool-cases (is_taken (send_error o letter))) [
  | inl taken ↦ rw taken (refl, refl, refl)
  | inr lost ↦ rw lost (refl, refl, refl)
]
