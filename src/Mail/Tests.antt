-- ===== src/Mail/Tests.antt =====
-- Sessions with a relay that needs no user and with one that refuses the receiver.
use rv_tx.Base.{◌≡◌, refl, true, false, some, [], ◌∷◌}
use rv_tx.Base.Text.{contains_byte}
use rv_tx.Mail.{
  dial, new_client, start_tls, auth, mail_from, rcpt_to, rcpt_to_failed, not_configured, Config,
  Relay, send, authenticate, deliver, sender, join_host_port, is_configured,
}
use rv_tx.Mail.Session.{Describes, script, calls_of, send-IsSecure}

abbrev cfg : Config
cfg = record { server = "mail.b.c"; port = "587"; user = "rv"; password = "pw"; from = "" }

abbrev refuses_receiver : Relay
refuses_receiver made (rcpt_to to) = false
refuses_receiver made _ = true

stops : send refuses_receiver cfg "x@y.z" "s" "b" ≡ (
  dial "mail.b.c:587"
      ∷ new_client "mail.b.c"
      ∷ start_tls "mail.b.c"
      ∷ auth "rv" "pw"
      ∷ mail_from "rv"
      ∷ rcpt_to "x@y.z"
      ∷ [],
  some rcpt_to_failed,
)
unfolding send authenticate deliver sender join_host_port contains_byte is_configured
stops = refl

unset :
    send refuses_receiver (record cfg { server = "" }) "x@y.z" "s" "b" ≡ ([], some not_configured)
unfolding send is_configured
unset = refl

ipv6 : join_host_port "fd00::1" "587" ≡ "[fd00::1]:587"
unfolding join_host_port contains_byte
ipv6 = refl

send-IsSecure_example :
    Describes refuses_receiver
      (calls_of (script cfg "x@y.z" "s" "b"))
      (send refuses_receiver cfg "x@y.z" "s" "b")
send-IsSecure_example = send-IsSecure refuses_receiver cfg "x@y.z" "s" "b"
