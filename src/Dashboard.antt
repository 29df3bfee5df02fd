-- ===== src/Dashboard.antt =====
-- cmd/controlplane/main.go: the HTTP handlers of the control plane and the guards of their routes. A
-- request has its path values, and its JSON body or `none` where the body does not decode. Outside is
-- what a request meets: the clock, the random token, whether queries and the mail server answer.
pub mod Email
pub mod Letters
pub mod Headers
pub mod Handlers
pub mod Mux
pub mod Guards
pub mod Effects
pub mod Roles
pub mod Reads
pub mod OwnRole
pub mod Down
pub mod History
pub mod Serving
pub mod Strangers
pub mod Login
pub mod Logout
pub mod Links
pub mod Bootstrap
pub mod Start
pub mod Sample
pub mod Tests
use rv_tx.Base.{
  ℕ, String, Bool, true, false, not, ◌||◌, Option, none, some, List, [], ◌∷◌, ◌++◌, ltb,
  if◌then◌else◌, ◌==◌,
}
use rv_tx.Db.Node.{Node, NodeTable}
use rv_tx.Db.Resource.{ResourceSpec, ResourceTables}
use rv_tx.Db.Listing.{Joined, ResourceWithTargets}
use rv_tx.Db.User.{UserRow, UserTable, User}
use rv_tx.Traefik.{Config}
use rv_tx.Mail
use rv_tx.Mail.{Relay}
use rv_tx.Auth.{Crypto, Cookie, Session, valid_session, is_admin}

-- A mail: the arguments of `mail.Send`.
pub record Letter : Type 0 where
  pub to : String
  pub subject : String
  pub body : String

-- The tables, and the mails that the mail server took.
pub record Site : Type 0 where
  pub users : UserTable
  pub nodes : NodeTable
  pub resources : ResourceTables
  pub mails : List Letter

pub record Outside : Type 0 where
  pub crypto : Crypto
  pub secret : String
  pub now : ℕ
  pub db_now : ℕ
  -- Queries answer.
  pub db_up : Bool
  -- `smtpCfg` and what the mail server answers, and RVTX_DASHBOARD_BASE_URL.
  pub smtp : rv_tx.Mail.Config
  pub relay : Relay
  pub base_url : String
  -- `auth.RandomToken`
  pub token : Option String
  -- The ORDER BY of the listings.
  pub order_joined : List Joined → List Joined
  pub order_users : List UserRow → List UserRow

pub data Body : Type 0 where
  no_body : Body
  identity : String → String → Body
  node_list : List Node → Body
  resource_list : List ResourceWithTargets → Body
  user_list : List User → Body
  config : Config → Body

pub record Response : Type 0 where
  pub status : ℕ
  pub set_cookie : Option Cookie
  pub body : Body

abbrev pub plain : ℕ → Response
plain status = record { status = status; set_cookie = none; body = no_body }

abbrev pub with_body : Body → Response
with_body b = record { status = 200; set_cookie = none; body = b }

-- `requireAuth`, from the session of the request's cookie on, and all of it.
abbrev pub authorized : Site → (Session → Response × Site) → Option Session → Response × Site
authorized site next none = (plain 401, site)
authorized site next (some s) = next s

unfoldable pub require_auth :
    Outside → Option String → Site → (Session → Response × Site) → Response × Site
require_auth o cookie site next =
    authorized site next (valid_session o.crypto cookie o.secret o.now)

-- `requireAdmin`
unfoldable pub require_admin :
    Outside → Option String → Site → (Session → Response × Site) → Response × Site
unfolding require_auth
require_admin o cookie site next =
    require_auth o cookie site λ s. if not (is_admin s) then (plain 403, site) else next s

pub data Request : Type 0 where
  login : Option (String × String) → Request
  logout : Request
  traefik_config : Request
  whoami : Request
  list_nodes : Request
  list_resources : Request
  invite_info : String → Request
  -- The token and the password.
  accept_invite : Option (String × String) → Request
  forgot_password : Option String → Request
  reset_password : Option (String × String) → Request
  create_resource : Option ResourceSpec → Request
  update_resource : String → Option ResourceSpec → Request
  delete_resource : String → Request
  list_users : Request
  -- The email and the role.
  invite_user : Option (String × String) → Request
  delete_user : String → Request
  set_user_role : String → Option String → Request
