-- ===== src/Auth/Tests.antt =====
-- One session and its cookie, under packages that are tables at that session.
use rv_tx.Base.{◌/◌, ◌≡◌, refl, false, some, none}
use rv_tx.Base.Text.{cut}
use rv_tx.Auth.{verify_parts, verify_value, valid_session, has_expired}
use rv_tx.Auth.Sample.{made, session, same, same-eq, tables}
use rv_tx.Auth.Cookies.{IsSigned, valid_session-IsSigned}

accepted : valid_session tables (some "payload.mac") "secret" made ≡ some session
unfolding valid_session verify_value verify_parts cut same
accepted = refl

-- Another signature, and a cookie without a dot.
forged : valid_session tables (some "payload.payload") "secret" made ≡ none
unfolding valid_session verify_value verify_parts cut same
forged = refl

undotted : valid_session tables (some "payload") "secret" made ≡ none
unfolding valid_session verify_value cut
undotted = refl

valid_session-IsSigned_example :
    IsSigned tables "secret" (cut b'.' "payload.mac") session
    × (has_expired (made / 1000000000) session.exp ≡ false)
valid_session-IsSigned_example =
    valid_session-IsSigned tables "secret" same-eq "payload.mac" made accepted
