-- ===== src/Dashboard/Logout.antt =====
-- A browser that logs out is a stranger afterwards.
use rv_tx.Base.{◌≡◌, refl, String, Bool, true, false, Option, none, some}
use rv_tx.Base.Text.{pos, negsuc}
use rv_tx.Auth.{Session, Cookie, valid_session}
use rv_tx.Dashboard.{
  Site, Outside, Response, plain, require_auth, require_admin, Request, login, logout,
  traefik_config, whoami, list_nodes, list_resources, invite_info, accept_invite, forgot_password,
  reset_password, create_resource, update_resource, delete_resource, list_users, invite_user,
  delete_user, set_user_role,
}
use rv_tx.Dashboard.Handlers.{handle, logout_handler}

-- What a browser keeps of the cookies that it is sent for the site: the last one, none if its Max-Age is
-- negative.
abbrev pub kept : Option String → Option Cookie → Option String
kept jar none = jar
kept jar (some cookie) = elim cookie.max_age [ pos age ↦ some cookie.value | negsuc age ↦ none ]

-- The routes behind requireAuth, those behind requireAdmin included.
abbrev pub is_guarded : Request → Bool
is_guarded (login body) = false
is_guarded logout = false
is_guarded traefik_config = false
is_guarded (invite_info token) = false
is_guarded (accept_invite body) = false
is_guarded (forgot_password body) = false
is_guarded (reset_password body) = false
is_guarded _ = true

unauthorized :
    (o : Outside) (site : Site) (next : Session → Response × Site)
    → (require_auth o none site next ≡ (plain 401, site))
      × (require_admin o none site next ≡ (plain 401, site))
unfolding require_auth require_admin valid_session
unauthorized o site next = (refl, refl)

-- After a logout, whatever the browser's cookie was, every guarded request of the browser is answered 401
-- and changes nothing.
pub logout-unauthorized :
    (o later : Outside) (cookie : Option String) (site site' : Site) (req : Request)
    → is_guarded req ≡ true
    → handle later (kept cookie (handle o cookie logout site).0.set_cookie) req site'
      ≡ (plain 401, site')
unfolding handle logout_handler
logout-unauthorized o later cookie site site' (login body) g = cc
logout-unauthorized o later cookie site site' logout g = cc
logout-unauthorized o later cookie site site' traefik_config g = cc
logout-unauthorized o later cookie site site' (invite_info token) g = cc
logout-unauthorized o later cookie site site' (accept_invite body) g = cc
logout-unauthorized o later cookie site site' (forgot_password body) g = cc
logout-unauthorized o later cookie site site' (reset_password body) g = cc
logout-unauthorized o later cookie site site' whoami g = (unauthorized later site' _).0
logout-unauthorized o later cookie site site' list_nodes g = (unauthorized later site' _).0
logout-unauthorized o later cookie site site' list_resources g = (unauthorized later site' _).0
logout-unauthorized o later cookie site site' (create_resource body) g =
    (unauthorized later site' _).1
logout-unauthorized o later cookie site site' (update_resource name body) g =
    (unauthorized later site' _).1
logout-unauthorized o later cookie site site' (delete_resource name) g =
    (unauthorized later site' _).1
logout-unauthorized o later cookie site site' list_users g = (unauthorized later site' _).1
logout-unauthorized o later cookie site site' (invite_user body) g = (unauthorized later site' _).1
logout-unauthorized o later cookie site site' (delete_user email) g = (unauthorized later site' _).1
logout-unauthorized o later cookie site site' (set_user_role email body) g =
    (unauthorized later site' _).1
