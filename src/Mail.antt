-- ===== src/Mail.antt =====
-- internal/controlplane/mail/mail.go: `Send` and the SMTP session that it holds. The mail server, with the
-- network before it, is a Relay: whether it answers a call without an error, given the calls before it.
pub mod Session
pub mod Message
pub mod Tests
use Prim.Native.String.{◌++◌ as append}
use rv_tx.Base.{
  String, Bool, true, false, not, Option, none, some, List, [], ◌∷◌, ◌++◌, if◌then◌else◌, ◌==◌,
}
use rv_tx.Base.Text.{contains_byte}

-- The calls of `Send` on the net, smtp and tls packages.
pub data Call : Type 0 where
  dial : String → Call
  new_client : String → Call
  start_tls : String → Call
  -- The user and the password, by `PlainAuth`.
  auth : String → String → Call
  mail_from : String → Call
  rcpt_to : String → Call
  open_data : Call
  write : String → Call
  close_data : Call
  quit : Call

pub data MailError : Type 0 where
  not_configured : MailError
  dial_failed : MailError
  client_failed : MailError
  starttls_failed : MailError
  auth_failed : MailError
  mail_from_failed : MailError
  rcpt_to_failed : MailError
  data_failed : MailError
  write_failed : MailError
  close_failed : MailError
  quit_failed : MailError

pub record Config : Type 0 where
  pub server : String
  pub port : String
  pub user : String
  pub password : String
  pub from : String

abbrev pub Relay : Type 0
Relay = List Call → Call → Bool

-- `Configured`
unfoldable pub is_configured : Config → Bool
is_configured cfg = not (cfg.server == "")

-- `net.JoinHostPort`: a host with a colon is put in brackets.
unfoldable pub join_host_port : String → String → String
join_host_port host port =
    if contains_byte b':' host
    then append "[" (append host (append "]:" port))
    else append host (append ":" port)

-- The address of the sender.
unfoldable pub sender : Config → String
sender cfg = if cfg.from == "" then cfg.user else cfg.from

-- The text that is written.
unfoldable pub message : String → String → String → String → String
message from to subject body = append "From: " (
    append from (
      append "\r\nTo: " (
        append to
          (append "\r\nSubject: " (append subject (append "\r\n\r\n" (append body "\r\n")))))))

-- The calls that were made, and the error.
abbrev pub Sent : Type 0
Sent = List Call × Option MailError

-- One call: its error ends `Send`, else the rest follows.
abbrev pub answered : Bool → MailError → List Call → (List Call → Sent) → Sent
answered true e made rest = rest made
answered false e made rest = (made, some e)

module _ (relay : Relay) where
  unfoldable pub call : Call → MailError → (List Call → Sent) → List Call → Sent
  call c e rest made = answered (relay made c) e (made ++ c ∷ []) rest

  unfoldable pub authenticate : Config → (List Call → Sent) → List Call → Sent
  unfolding call
  authenticate cfg rest made =
      if cfg.user == "" then rest made else call (auth cfg.user cfg.password) auth_failed rest made

  -- The session after the dial.
  unfoldable pub deliver : Config → String → String → String → List Call → Sent
  deliver cfg to subject body = call (mail_from (sender cfg)) mail_from_failed (
      call (rcpt_to to) rcpt_to_failed (
        call open_data data_failed (
          call (write (message (sender cfg) to subject body)) write_failed
            (call close_data close_failed (call quit quit_failed (λ made. (made, none)))))))

  -- `Send`
  unfoldable pub send : Config → String → String → String → Sent
  send cfg to subject body =
      if not (is_configured cfg)
      then ([], some not_configured)
      else call (dial (join_host_port cfg.server cfg.port)) dial_failed
          (call (new_client cfg.server) client_failed (
            call (start_tls cfg.server) starttls_failed
              (authenticate cfg (deliver cfg to subject body))))
          []
