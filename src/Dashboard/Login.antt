-- ===== src/Dashboard/Login.antt =====
-- From the login to the requests that carry its cookie.
use rv_tx.Base.{ℕ, ◌≡◌, ◌<◌, ◌+◌, ◌*◌, ◌/◌, refl, ap, ◌∙◌, String, true, some, none, arith}
use rv_tx.Db.User.{User, user_by_email}
use rv_tx.Auth.{
  IsCrypto, Cookie, session_cookie, new_session, new_session_cookie, valid_session, verify_password,
}
use rv_tx.Auth.Cookies.{valid_session-new}
use rv_tx.Dashboard.{
  Site, Outside, with_body, no_body, identity, authorized, require_auth, login, whoami,
}
use rv_tx.Dashboard.Handlers.{handle, login_handler, whoami_handler}

-- If the packages do at this session what they document, and the database answers: after a login
-- with the right password, the cookie that it sets makes the later requests, for thirty days, those
-- of the user with the email and the role that the table had at the login, whatever the tables are
-- by then.
pub login-whoami :
    (o : Outside) (site : Site) (later_site : Site) (email password : String) (t : ℕ) (user : User)
    (hash : String)
    → IsCrypto o.crypto o.secret (new_session user.email user.role o.now)
    → o.db_up ≡ true
    → user_by_email email site.users ≡ some (user, hash)
    → verify_password o.crypto hash password ≡ true
    → t / 1000000000 < (o.now + 30 * 24 * 3600 * 1000000000) / 1000000000
    → (cookie : Cookie) × ((handle o none (login (some (email, password))) site).0
        ≡ record { status = 200; set_cookie = some cookie; body = no_body })
      × ((handle (record o { now = t }) (some cookie.value) whoami later_site).0
          ≡ with_body (identity user.email user.role))
unfolding handle login_handler whoami_handler require_auth session_cookie
login-whoami o site later_site email password t user hash k up found right soon = (
  session_cookie o.crypto o.secret user.email user.role o.now,
  rw (up, login_handler) (rw (found) (rw right refl)),
  ap (λ v. (authorized later_site (λ s. whoami_handler (record o { now = t }) later_site s) v).0)
      (valid o user.email user.role t k soon),
)
  where
    valid :
        (o : Outside) (email role : String) (t : ℕ)
        → IsCrypto o.crypto o.secret (new_session email role o.now)
        → t / 1000000000 < (o.now + 30 * 24 * 3600 * 1000000000) / 1000000000
        → valid_session o.crypto
            (some (new_session_cookie o.crypto o.secret email role o.now))
            o.secret
            t
          ≡ some (new_session email role o.now)
    valid o email role t k soon =
        valid_session-new o.crypto o.secret email role o.now t k ∙ ground arith
