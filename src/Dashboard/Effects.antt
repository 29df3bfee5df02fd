-- ===== src/Dashboard/Effects.antt =====
-- What a request may do to the tables: one statement that its route, its session and its body allow.
pub mod Writes
pub mod Accounts
pub mod Requests
use rv_tx.Base.{
  ℕ, ◌≡◌, ◌≢◌, refl, sym, ap, ◌∙◌, subst, inl, inr, String, Bool, true, false, Option, none, some,
  ltb, if◌then◌else◌, ◌==◌, Bool-cases, Option-cases, ne_of_eq-false,
}
use mathlib.Core.Option.{some-injective}
use rv_tx.Db.Target.{Outcome, ok, err}
use rv_tx.Db.Resource.{ResourceTables, ResourceOp, perform}
use rv_tx.Db.User.{UserTable, create_invite, create_reset_token}
use rv_tx.Db.User.Statements.{UserOp, perform_user}
use rv_tx.Auth.{Session, valid_session, is_admin, hash_password}
use rv_tx.Dashboard.{
  Letter, Site, Outside, Response, plain, authorized, require_auth, require_admin, Request, login,
  logout, traefik_config, whoami, list_nodes, list_resources, invite_info, accept_invite,
  forgot_password, reset_password, create_resource, update_resource, delete_resource, list_users,
  invite_user, delete_user, set_user_role,
}
use rv_tx.Dashboard.Email.{byte_length, is_email_address, valid_role}
use rv_tx.Dashboard.Letters.{after_sending, after_sending-tables, invite_letter, reset_letter}
use rv_tx.Dashboard.Roles.{answered}
use rv_tx.Dashboard.Reads.{login-site, listed-site, nodes-site, info-site, users-site}
use rv_tx.Dashboard.Guards.{is_admin_cookie, of_admin}
use rv_tx.Dashboard.Handlers.{
  queried, wrote_users, wrote_resources, with_hash, decoded, logout_handler, whoami_handler,
  create_resource_handler, update_resource_handler, delete_resource_handler, invite_user_handler,
  delete_user_handler, set_user_role_handler, accept_invite_handler, forgot_password_handler,
  reset_password_handler, handle,
}

-- The account is not that of the session.
abbrev pub IsOther : Outside → Option String → String → Type 0
IsOther o cookie email =
    (s : Session) → valid_session o.crypto cookie o.secret o.now ≡ some s → email ≢ s.email

-- A hash of a password that is long enough.
abbrev pub IsHash : Outside → String → Type 0
IsHash o hash =
    (password : String) × (ltb (byte_length password) 8 ≡ false)
    × (hash_password o.crypto password ≡ some hash)

abbrev pub IsAllowed : Outside → Option String → UserOp → Type 0
IsAllowed o cookie (UserOp.invite email role token now) =
    (is_admin_cookie o cookie ≡ true)
    × (is_email_address email ≡ true)
    × (valid_role role ≡ true)
    × (o.token ≡ some token)
IsAllowed o cookie (UserOp.accept token hash) = IsHash o hash
IsAllowed o cookie (UserOp.delete email) =
    (is_admin_cookie o cookie ≡ true) × IsOther o cookie email
IsAllowed o cookie (UserOp.set_role email role) =
    (is_admin_cookie o cookie ≡ true) × IsOther o cookie email × (valid_role role ≡ true)
IsAllowed o cookie (UserOp.forget email token now) = o.token ≡ some token
IsAllowed o cookie (UserOp.reset_by token hash) = IsHash o hash

pub data Effect (o : Outside) (cookie : Option String) (site site' : Site) : Type 0 where
  unchanged : site' ≡ site → Effect o cookie site site'
  on_users :
      (op : UserOp)
      → IsAllowed o cookie op
      → perform_user op o.db_now site.users ≡ some site'.users
      → site'.nodes ≡ site.nodes
      → site'.resources ≡ site.resources
      → Effect o cookie site site'
  on_resources :
      (op : ResourceOp)
      → is_admin_cookie o cookie ≡ true
      → perform op site.nodes site.resources ≡ ok site'.resources
      → site'.nodes ≡ site.nodes
      → site'.users ≡ site.users
      → Effect o cookie site site'

-- What a response and the site after it come from.
abbrev pub Leads : Outside → Option String → Site → Response × Site → Type 0
Leads o cookie site r = Effect o cookie site r.1
