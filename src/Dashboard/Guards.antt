-- ===== src/Dashboard/Guards.antt =====
-- Who may change what, and what a stranger learns.
use rv_tx.Base.{
  ℕ, ◌≡◌, ◌⊎◌, inl, inr, refl, String, Bool, true, false, not, Option, none, some, List, [], ◌∷◌,
  any, if◌then◌else◌, arith, Option-cases,
}
use rv_tx.Db.User.{UserTable, UserRow, holds, create_reset_token, is_email}
use rv_tx.Auth.{Session, valid_session, is_admin}
use rv_tx.Dashboard.{
  Site, Outside, Response, plain, authorized, require_admin, Request, login, logout, traefik_config,
  whoami, list_nodes, list_resources, invite_info, accept_invite, forgot_password, reset_password,
  create_resource, update_resource, delete_resource, list_users, invite_user, delete_user,
  set_user_role,
}
use rv_tx.Dashboard.Handlers.{handle, forgot_password_handler}

abbrev pub of_admin : Option Session → Bool
of_admin none = false
of_admin (some s) = is_admin s

-- The cookie is that of an administrator's session.
abbrev pub is_admin_cookie : Outside → Option String → Bool
is_admin_cookie o cookie = of_admin (valid_session o.crypto cookie o.secret o.now)

abbrev admin_next : Site → (Session → Response × Site) → Session → Response × Site
admin_next site next s = if not (is_admin s) then (plain 403, site) else next s

stopped :
    (site : Site) (next : Session → Response × Site) (v : Option Session)
    → of_admin v ≡ false
    → (authorized site (admin_next site next) v ≡ (plain 401, site))
      ⊎ (authorized site (admin_next site next) v ≡ (plain 403, site))
stopped site next none h = inl refl
stopped site next (some s) h = inr (rw h refl)

-- The routes behind requireAdmin.
abbrev pub is_admin_route : Request → Bool
is_admin_route (create_resource body) = true
is_admin_route (update_resource name body) = true
is_admin_route (delete_resource name) = true
is_admin_route list_users = true
is_admin_route (invite_user body) = true
is_admin_route (delete_user email) = true
is_admin_route (set_user_role email body) = true
is_admin_route _ = false

module _ (o : Outside) (cookie : Option String) (site : Site) where
  refused :
      (next : Session → Response × Site)
      → is_admin_cookie o cookie ≡ false
      → (require_admin o cookie site next ≡ (plain 401, site))
        ⊎ (require_admin o cookie site next ≡ (plain 403, site))
  unfolding require_admin
  refused next h = stopped site next (valid_session o.crypto cookie o.secret o.now) h

  -- Every route on users or that changes resources answers 401 or 403, and changes nothing, without
  -- the cookie of an administrator.
  pub handle-refuses :
      (req : Request)
      → is_admin_route req ≡ true
      → is_admin_cookie o cookie ≡ false
      → (handle o cookie req site ≡ (plain 401, site))
        ⊎ (handle o cookie req site ≡ (plain 403, site))
  unfolding handle
  handle-refuses (login body) r h = cc
  handle-refuses logout r h = cc
  handle-refuses traefik_config r h = cc
  handle-refuses whoami r h = cc
  handle-refuses list_nodes r h = cc
  handle-refuses list_resources r h = cc
  handle-refuses (invite_info token) r h = cc
  handle-refuses (accept_invite body) r h = cc
  handle-refuses (forgot_password body) r h = cc
  handle-refuses (reset_password body) r h = cc
  handle-refuses (create_resource body) r h = refused _ h
  handle-refuses (update_resource name body) r h = refused _ h
  handle-refuses (delete_resource name) r h = refused _ h
  handle-refuses list_users r h = refused _ h
  handle-refuses (invite_user body) r h = refused _ h
  handle-refuses (delete_user email) r h = refused _ h
  handle-refuses (set_user_role email body) r h = refused _ h

not_taken :
    (email token : String) (rows : List UserRow)
    → any (λ (r : UserRow). holds r.reset_token token) rows ≡ false
    → any (λ (r : UserRow). if is_email email r then false else holds r.reset_token token) rows
      ≡ false
not_taken email token [] e = refl
not_taken email token (r ∷ rows) e = ground (arith, not_taken email token rows)

created :
    (email token : String) (now : ℕ) (t : UserTable)
    → any (λ (r : UserRow). holds r.reset_token token) t.rows ≡ false
    → (p : UserTable × Bool) × (create_reset_token email token now t ≡ some p)
unfolding create_reset_token
created email token now t new =
    let free = not_taken email token t.rows new in
    elim (Option-cases (create_reset_token email token now t)) [
      | inl e ↦ absurd (ground arith)
      | inr found ↦ found
    ]

-- The response to a request for a password reset is the same for every email, known or not, while the
-- database answers and the token that was drawn is new.
pub forgot_password-uniform :
    (o : Outside) (cookie : Option String) (site : Site) (email token : String)
    → o.db_up ≡ true
    → o.token ≡ some token
    → any (λ (r : UserRow). holds r.reset_token token) site.users.rows ≡ false
    → (handle o cookie (forgot_password (some email)) site).0 ≡ plain 200
unfolding handle forgot_password_handler
forgot_password-uniform o cookie site email token up drawn new =
    let (_, e) = created email token o.now site.users new in
    rw (drawn, forgot_password_handler) (rw up (rw e refl))
