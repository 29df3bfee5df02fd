-- ===== src/Dashboard/Strangers.antt =====
-- What a request leaves as it is that does not carry the cookie of an administrator.
use rv_tx.Base.{◌≡◌, refl, ap, ◌∙◌, String, Bool, false, Option, some, List, [], ◌∷◌, map, arith}
use rv_tx.Db.User.{
  UserTable, UserRow, is_email, accepted, resettable, reset, update_where, is_invited, is_resetting,
}
use rv_tx.Db.User.Statements.{
  UserOp, invite, accept, delete, set_role, forget, reset_by, perform_user, perform_user-ok,
}
use rv_tx.Dashboard.{Site, Outside}
use rv_tx.Dashboard.Guards.{is_admin_cookie}
use rv_tx.Dashboard.Effects.{IsAllowed, Effect, unchanged, on_users, on_resources}

-- The emails of the accounts with their roles, in the order of the rows.
abbrev account : UserRow → String × String
account r = (r.email, r.role)

abbrev pub accounts : UserTable → List (String × String)
accounts t = map account t.rows

-- The tables of the second site are those of the first, but for passwords and tokens.
abbrev pub Keeps : Site → Site → Type 0
Keeps site site' =
    (site'.nodes ≡ site.nodes)
    × (site'.resources ≡ site.resources)
    × (accounts site'.users ≡ accounts site.users)

accounts-update :
    (p : UserRow → Bool) (f : UserRow → UserRow) (rows : List UserRow)
    → ((r : UserRow) → ((f r).email ≡ r.email) × ((f r).role ≡ r.role))
    → map account (update_where p f rows) ≡ map account rows
unfolding update_where
accounts-update p f [] h = refl
accounts-update p f (r ∷ rows) h =
    let rest = accounts-update p f rows h in let (same_email, same_role) = h r in ground arith

same : {site site' : Site} → site' ≡ site → Keeps site site'
same e = (
  ap (λ (s : Site). s.nodes) e,
  ap (λ (s : Site). s.resources) e,
  ap (λ (s : Site). accounts s.users) e,
)

module _ (o : Outside) (cookie : Option String) (stranger : is_admin_cookie o cookie ≡ false) where
  accounts-kept :
      (op : UserOp) (t : UserTable) {t' : UserTable}
      → IsAllowed o cookie op
      → perform_user op o.db_now t ≡ some t'
      → accounts t' ≡ accounts t
  accounts-kept (invite email role token now) t allowed e = cc
  accounts-kept (delete email) t allowed e = cc
  accounts-kept (set_role email role) t allowed e = cc
  accounts-kept (accept token hash) t allowed e =
      ap (map account) (perform_user-ok (accept token hash) o.db_now t e).0
      ∙ accounts-update (is_invited token o.db_now) (accepted hash) t.rows (λ r. (refl, refl))
  accounts-kept (forget email token now) t allowed e =
      ap (map account) (perform_user-ok (forget email token now) o.db_now t e).0
      ∙ accounts-update (is_email email) (resettable token now) t.rows (λ r. (refl, refl))
  accounts-kept (reset_by token hash) t allowed e =
      ap (map account) (perform_user-ok (reset_by token hash) o.db_now t e).0
      ∙ accounts-update (is_resetting token o.db_now) (reset hash) t.rows (λ r. (refl, refl))

  pub Effect-Keeps : (site : Site) {site' : Site} → Effect o cookie site site' → Keeps site site'
  Effect-Keeps site (unchanged e) = same e
  Effect-Keeps site (on_users op allowed e nodes resources) =
      (nodes, resources, accounts-kept op site.users allowed e)
  Effect-Keeps site (on_resources op admin e nodes users) = cc
