-- ===== src/Dashboard/Handlers.antt =====
-- cmd/controlplane/main.go: the handlers, each from a site to the response and the site after it.
use rv_tx.Base.{ℕ, String, not, Option, none, some, List, ltb, if◌then◌else◌, ◌==◌}
use rv_tx.Db.Node
use rv_tx.Db.Target.{Outcome, ok, err}
use rv_tx.Db.Resource
use rv_tx.Db.Resource.{ResourceSpec, ResourceTables}
use rv_tx.Db.Listing
use rv_tx.Db.User
use rv_tx.Db.User.{UserTable}
use rv_tx.Traefik
use rv_tx.Auth.{Session, session_cookie, expired_cookie, hash_password, verify_password}
use rv_tx.Dashboard.{
  Site, Outside, no_body, identity, node_list, resource_list, user_list, config, Response, plain,
  with_body, require_auth, require_admin, Request, login, logout, traefik_config, whoami,
  list_nodes, list_resources, invite_info, accept_invite, forgot_password, reset_password,
  create_resource, update_resource, delete_resource, list_users, invite_user, delete_user,
  set_user_role,
}
use rv_tx.Dashboard.Letters.{invite_letter, reset_letter, send_error, is_sent, after_sending}
use rv_tx.Dashboard.Email.{is_email_address, valid_role, byte_length}

-- The result of a query, an error while the database does not answer.
abbrev pub queried {ℓ} : {A : Type ℓ} → Outside → Option A → Option A
queried o r = if o.db_up then r else none

-- A handler that ends with a write: `failed` where the write is an error.
abbrev pub wrote_users : ℕ → ℕ → Option UserTable → Site → Response × Site
wrote_users done failed none site = (plain failed, site)
wrote_users done failed (some t) site = (plain done, record site { users = t })

abbrev pub wrote_resources : ℕ → ℕ → Outcome ResourceTables → Site → Response × Site
wrote_resources done failed (err e) site = (plain failed, site)
wrote_resources done failed (ok t) site = (plain done, record site { resources = t })

module _ (o : Outside) (site : Site) where
  -- `loginHandler`; a lookup that fails is a user that does not exist.
  unfoldable pub login_handler : Option (String × String) → Response × Site
  login_handler none = (plain 400, site)
  login_handler (some (email, password)) =
      elim (queried o (rv_tx.Db.User.user_by_email email site.users)) [
        | none ↦ (plain 401, site)
        | some (user, hash) ↦
            if not (verify_password o.crypto hash password) then (plain 401, site) else (
              record {
                status = 200;
                set_cookie = some (session_cookie o.crypto o.secret user.email user.role o.now);
                body = no_body;
              },
              site,
            )
      ]

  -- `logoutHandler`
  unfoldable pub logout_handler : Response × Site
  logout_handler = (record { status = 200; set_cookie = some expired_cookie; body = no_body }, site)

  abbrev pub listed : Option (List rv_tx.Db.Listing.ResourceWithTargets)
  listed =
      queried o
        (rv_tx.Db.Listing.list_resources_with_targets o.order_joined site.nodes site.resources)

  -- `traefikConfigHandler`
  unfoldable pub traefik_config_handler : Response × Site
  traefik_config_handler = elim listed [
    | none ↦ (plain 500, site)
    | some rs ↦ (with_body (config (rv_tx.Traefik.generate o.now rs)), site)
  ]

  -- `whoamiHandler`
  unfoldable pub whoami_handler : Session → Response × Site
  whoami_handler s = (with_body (identity s.email s.role), site)

  -- `listNodesHandler`
  unfoldable pub list_nodes_handler : Response × Site
  list_nodes_handler = elim (queried o (some (rv_tx.Db.Node.list_nodes site.nodes))) [
    | none ↦ (plain 500, site)
    | some ns ↦ (with_body (node_list ns), site)
  ]

  -- `listResourcesHandler`
  unfoldable pub list_resources_handler : Response × Site
  list_resources_handler = elim listed [
    | none ↦ (plain 500, site)
    | some rs ↦ (with_body (resource_list rs), site)
  ]

  -- The optional texts of a body: empty is nil.
  abbrev pub optional : Option String → Option String
  optional none = none
  optional (some s) = if s == "" then none else some s

  abbrev pub decoded : String → ResourceSpec → ResourceSpec
  decoded name s = record s {
    name = name;
    domain = optional s.domain;
    cert_resolver = optional s.cert_resolver;
  }

  -- `createResourceHandler`
  unfoldable pub create_resource_handler : Option ResourceSpec → Response × Site
  create_resource_handler none = (plain 400, site)
  create_resource_handler (some s) =
      if o.db_up
      then wrote_resources 201 400
          (rv_tx.Db.Resource.create_resource (decoded s.name s) site.nodes site.resources) site
      else (plain 400, site)

  -- `updateResourceHandler`
  unfoldable pub update_resource_handler : String → Option ResourceSpec → Response × Site
  update_resource_handler name none = (plain 400, site)
  update_resource_handler name (some s) =
      if o.db_up
      then wrote_resources 200 400
          (rv_tx.Db.Resource.update_resource (decoded name s) site.nodes site.resources) site
      else (plain 400, site)

  -- `deleteResourceHandler`
  unfoldable pub delete_resource_handler : String → Response × Site
  delete_resource_handler name =
      if o.db_up
      then wrote_resources 204 404 (rv_tx.Db.Resource.delete_resource name site.resources) site
      else (plain 404, site)

  -- `listUsersHandler`
  unfoldable pub list_users_handler : Response × Site
  list_users_handler = elim (queried o (some (rv_tx.Db.User.list_users o.order_users site.users))) [
    | none ↦ (plain 500, site)
    | some us ↦ (with_body (user_list us), site)
  ]

  -- `inviteUserHandler`; the account stays when its mail fails.
  unfoldable pub invite_user_handler : Option (String × String) → Response × Site
  invite_user_handler none = (plain 400, site)
  invite_user_handler (some (email, role)) =
      if not (is_email_address email)
      then (plain 400, site)
      else (if not (valid_role role) then (plain 400, site) else (elim o.token [
        | none ↦ (plain 500, site)
        | some token ↦
            elim (queried o
              (rv_tx.Db.User.create_invite email role token o.now o.db_now site.users)) [
                | none ↦ (plain 400, site)
                | some t ↦
                    let letter = invite_letter o.base_url email role token in
                    (
                      plain (if is_sent (send_error o letter) then 201 else 502),
                      after_sending o letter (record site { users = t }),
                    )
              ]
      ]))

  -- `deleteUserHandler`
  unfoldable pub delete_user_handler : Session → String → Response × Site
  delete_user_handler s email =
      if email == s.email
      then (plain 400, site)
      else wrote_users 204 404 (queried o (rv_tx.Db.User.delete_user email site.users)) site

  -- `setUserRoleHandler`
  unfoldable pub set_user_role_handler : Session → String → Option String → Response × Site
  set_user_role_handler s email body = if email == s.email then (plain 400, site) else (elim body [
    | none ↦ (plain 400, site)
    | some role ↦
        if not (valid_role role)
        then (plain 400, site)
        else wrote_users 200 404 (queried o (rv_tx.Db.User.set_user_role email role site.users))
            site
  ])

  -- `inviteInfoHandler`
  unfoldable pub invite_info_handler : String → Response × Site
  invite_info_handler token =
      elim (queried o (rv_tx.Db.User.user_by_invite_token token o.db_now site.users)) [
        | none ↦ (plain 404, site)
        | some u ↦ (with_body (identity u.email u.role), site)
      ]

  -- What `acceptInviteHandler` and `resetPasswordHandler` share: the checks and the hash.
  abbrev pub with_hash : String → (String → Option UserTable) → Response × Site
  with_hash password write =
      if ltb (byte_length password) 8
      then (plain 400, site)
      else (elim (hash_password o.crypto password) [
        | none ↦ (plain 500, site)
        | some hash ↦ wrote_users 200 400 (queried o (write hash)) site
      ])

  -- `acceptInviteHandler`
  unfoldable pub accept_invite_handler : Option (String × String) → Response × Site
  accept_invite_handler none = (plain 400, site)
  accept_invite_handler (some (token, password)) =
      with_hash password λ hash. rv_tx.Db.User.accept_invite token hash o.db_now site.users

  -- `forgotPasswordHandler`
  unfoldable pub forgot_password_handler : Option String → Response × Site
  forgot_password_handler none = (plain 400, site)
  forgot_password_handler (some email) = elim o.token [
    | none ↦ (plain 500, site)
    | some token ↦
        elim (queried o (rv_tx.Db.User.create_reset_token email token o.now site.users)) [
          | none ↦ (plain 500, site)
          | some (t, existed) ↦ (
            plain 200,
            if existed
                then after_sending o (reset_letter o.base_url email token)
                    (record site { users = t })
                else record site { users = t },
          )
        ]
  ]

  -- `resetPasswordHandler`
  unfoldable pub reset_password_handler : Option (String × String) → Response × Site
  reset_password_handler none = (plain 400, site)
  reset_password_handler (some (token, password)) =
      with_hash password λ hash. rv_tx.Db.User.reset_password token hash o.db_now site.users

-- The routes, with the cookie of the request.
unfoldable pub handle : Outside → Option String → Request → Site → Response × Site
handle o cookie (login body) site = login_handler o site body
handle o cookie logout site = logout_handler o site
handle o cookie traefik_config site = traefik_config_handler o site
handle o cookie whoami site = require_auth o cookie site λ s. whoami_handler o site s
handle o cookie list_nodes site = require_auth o cookie site λ s. list_nodes_handler o site
handle o cookie list_resources site = require_auth o cookie site λ s. list_resources_handler o site
handle o cookie (invite_info token) site = invite_info_handler o site token
handle o cookie (accept_invite body) site = accept_invite_handler o site body
handle o cookie (forgot_password body) site = forgot_password_handler o site body
handle o cookie (reset_password body) site = reset_password_handler o site body
handle o cookie (create_resource body) site =
    require_admin o cookie site λ s. create_resource_handler o site body
handle o cookie (update_resource name body) site =
    require_admin o cookie site λ s. update_resource_handler o site name body
handle o cookie (delete_resource name) site =
    require_admin o cookie site λ s. delete_resource_handler o site name
handle o cookie list_users site = require_admin o cookie site λ s. list_users_handler o site
handle o cookie (invite_user body) site =
    require_admin o cookie site λ s. invite_user_handler o site body
handle o cookie (delete_user email) site =
    require_admin o cookie site λ s. delete_user_handler o site s email
handle o cookie (set_user_role email body) site =
    require_admin o cookie site λ s. set_user_role_handler o site s email body
