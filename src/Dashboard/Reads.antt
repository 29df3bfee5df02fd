-- ===== src/Dashboard/Reads.antt =====
-- The site after the handlers that only read.
use rv_tx.Base.{◌≡◌, refl, inl, inr, String, Option, none, some, Option-cases, Bool-cases}
use rv_tx.Db.User
use rv_tx.Auth.{verify_password}
use rv_tx.Dashboard.{Site, Outside}
use rv_tx.Dashboard.Handlers.{
  queried, listed, login_handler, traefik_config_handler, list_nodes_handler,
  list_resources_handler, list_users_handler, invite_info_handler,
}

module _ (o : Outside) (site : Site) where
  pub login-site : (body : Option (String × String)) → (login_handler o site body).1 ≡ site
  unfolding login_handler
  login-site none = refl
  login-site (some (email, password)) =
      elim (Option-cases (queried o (rv_tx.Db.User.user_by_email email site.users))) [
        | inl e ↦ rw (e, login_handler) refl
        | inr (p, e) ↦ elim (Bool-cases (verify_password o.crypto p.1 password)) [
          | inl right ↦ rw (e, login_handler) (rw right refl)
          | inr wrong ↦ rw (e, login_handler) (rw wrong refl)
        ]
      ]

  pub listed-site :
      ((traefik_config_handler o site).1 ≡ site) × ((list_resources_handler o site).1 ≡ site)
  unfolding traefik_config_handler list_resources_handler
  listed-site = elim (Option-cases (listed o site)) [
    | inl e ↦ (rw (e, traefik_config_handler) refl, rw (e, list_resources_handler) refl)
    | inr (rs, e) ↦ (rw (e, traefik_config_handler) refl, rw (e, list_resources_handler) refl)
  ]

  pub nodes-site : (list_nodes_handler o site).1 ≡ site
  unfolding list_nodes_handler
  nodes-site = elim (Bool-cases o.db_up) [
    | inl up ↦ rw (up, list_nodes_handler) refl
    | inr down ↦ rw (down, list_nodes_handler) refl
  ]

  pub info-site : (token : String) → (invite_info_handler o site token).1 ≡ site
  unfolding invite_info_handler
  info-site token =
      elim (Option-cases
        (queried o (rv_tx.Db.User.user_by_invite_token token o.db_now site.users))) [
          | inl e ↦ rw (e, invite_info_handler) refl
          | inr (u, e) ↦ rw (e, invite_info_handler) refl
        ]

  pub users-site : (list_users_handler o site).1 ≡ site
  unfolding list_users_handler
  users-site =
      elim (Option-cases (queried o (some (rv_tx.Db.User.list_users o.order_users site.users)))) [
        | inl e ↦ rw (e, list_users_handler) refl
        | inr (us, e) ↦ rw (e, list_users_handler) refl
      ]
