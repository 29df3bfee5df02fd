-- ===== src/Dashboard/Tests.antt =====
-- Requests of an administrator, of a viewer and of a stranger, and the theorems at them.
use rv_tx.Base.{◌≡◌, ◌⊎◌, ◌+◌, refl, String, true, false, Option, some, none, [], ◌∷◌, arith}
use rv_tx.Base.Text.{cut}
use rv_tx.Db.User.{
  UserRow, UserTable, User, find_where, update_where, delete_where, user_by_email, selected,
  is_email,
}
use rv_tx.Auth.{Cookie, valid_session, verify_value, verify_parts, verify_password}
use rv_tx.Auth.Sample.{made, session, same, tables, tables-IsCrypto}
use rv_tx.Dashboard.{
  plain, require_admin, login, whoami, delete_user, forgot_password, with_body, no_body, identity,
  set_user_role,
}
use rv_tx.Dashboard.Email.{is_email_address, all_plain, is_domain, has_dot_before_more}
use rv_tx.Dashboard.Handlers.{handle, delete_user_handler}
use rv_tx.Dashboard.Guards.{is_admin_cookie, handle-refuses, forgot_password-uniform}
use rv_tx.Dashboard.Sample.{account, site, outside}
use rv_tx.Dashboard.Roles.{find_role}
use rv_tx.Dashboard.Effects.{Effect}
use rv_tx.Dashboard.Effects.Requests.{handle-Effect}
use rv_tx.Dashboard.OwnRole.{handle-keeps_own_role}
use rv_tx.Dashboard.Login.{login-whoami}

plain_address : is_email_address "alice.b@mail.example.com" ≡ true
unfolding is_email_address cut all_plain is_domain has_dot_before_more
plain_address = refl

-- No dot after the @, a dot at its end, and two @.
no_address : is_email_address "a@b" ≡ false
unfolding is_email_address cut all_plain is_domain has_dot_before_more
no_address = refl

dot_last : is_email_address "a@b." ≡ false
unfolding is_email_address cut all_plain is_domain has_dot_before_more
dot_last = refl

two_ats : is_email_address "a@b@c.d" ≡ false
unfolding is_email_address cut all_plain is_domain has_dot_before_more
two_ats = refl

no_admin : is_admin_cookie outside none ≡ false
unfolding valid_session
no_admin = refl

handle-refuses_example :
    (handle outside none (delete_user "v@b.c") site ≡ (plain 401, site))
    ⊎ (handle outside none (delete_user "v@b.c") site ≡ (plain 403, site))
handle-refuses_example = handle-refuses outside none site (delete_user "v@b.c") refl no_admin

abbrev cookie : Option String
cookie = some "payload.mac"

signed_in : valid_session tables cookie "secret" made ≡ some session
unfolding valid_session verify_value verify_parts cut same
signed_in = refl

deletes : handle outside cookie (delete_user "v@b.c") site ≡ (
  plain 204,
  record site { users = record { rows = account 0 "a@b.c" "admin" ∷ []; next_id = 2 } },
)
unfolding handle require_admin valid_session verify_value verify_parts cut same delete_user_handler
    rv_tx.Db.User.delete_user delete_where
deletes = refl

deletes_own : handle outside cookie (delete_user "a@b.c") site ≡ (plain 400, site)
unfolding handle require_admin valid_session verify_value verify_parts cut same delete_user_handler
deletes_own = refl

has_role :
    find_role "a@b.c" (account 0 "a@b.c" "admin" ∷ account 1 "v@b.c" "viewer" ∷ []) ≡ some "admin"
unfolding find_role
has_role = refl

handle-keeps_own_role_example :
    find_role "a@b.c"
      (handle outside cookie (set_user_role "a@b.c" (some "viewer")) site).1.users.rows
    ≡ some "admin"
handle-keeps_own_role_example =
    handle-keeps_own_role outside cookie site session (set_user_role "a@b.c" (some "viewer"))
      signed_in has_role

forgot_password-uniform_example :
    (handle outside none (forgot_password (some "nobody@b.c")) site).0 ≡ plain 200
forgot_password-uniform_example =
    forgot_password-uniform outside none site "nobody@b.c" "t0k3n" refl refl refl

abbrev admin : User
admin = selected (account 0 "a@b.c" "admin")

known : user_by_email "a@b.c" site.users ≡ some (admin, "pw")
unfolding user_by_email find_where
known = refl

right : verify_password tables "pw" "pw" ≡ true
unfolding verify_password
right = refl

abbrev LoggedIn : Type 0
LoggedIn =
    (cookie : Cookie) × ((handle outside none (login (some ("a@b.c", "pw"))) site).0
      ≡ record { status = 200; set_cookie = some cookie; body = no_body })
    × ((handle (record outside { now = made + 5 }) (some cookie.value) whoami site).0
        ≡ with_body (identity "a@b.c" "admin"))

login-whoami_example : LoggedIn
login-whoami_example =
    login-whoami outside site site "a@b.c" "pw" (made + 5) admin "pw" tables-IsCrypto refl known
      right (omega arith)

handle-Effect_example :
    Effect outside cookie site (handle outside cookie (delete_user "v@b.c") site).1
handle-Effect_example = handle-Effect outside cookie site (delete_user "v@b.c")
