-- ===== src/Dashboard/OwnRole.antt =====
-- The role of the account whose session makes a request.
use rv_tx.Base.{◌≡◌, refl, ap, ◌∙◌, String, Option, some}
use rv_tx.Db.User.{UserTable, accepted, resettable, reset, is_email, is_invited, is_resetting}
use rv_tx.Db.User.Statements.{
  UserOp, invite, accept, delete, set_role, forget, reset_by, perform_user, rows_after,
  perform_user-ok,
}
use rv_tx.Auth.{Session, valid_session}
use rv_tx.Dashboard.{Site, Outside, Request}
use rv_tx.Dashboard.Handlers.{handle}
use rv_tx.Dashboard.Effects.{IsAllowed, Effect, unchanged, on_users, on_resources}
use rv_tx.Dashboard.Effects.Requests.{handle-Effect}
use rv_tx.Dashboard.Roles.{
  find_role, HasRole, find_role-update, find_role-set, find_role-delete, find_role-append,
}

module _ (o : Outside) (cookie : Option String) (s : Session) {role : String}
    (own : valid_session o.crypto cookie o.secret o.now ≡ some s) where
  statement-HasRole :
      (op : UserOp) (t : UserTable) {t' : UserTable}
      → IsAllowed o cookie op
      → perform_user op o.db_now t ≡ some t'
      → HasRole s.email role t
      → HasRole s.email role t'
  statement-HasRole op t allowed e h =
      ap (find_role s.email) (perform_user-ok op o.db_now t e).0 ∙ at op allowed
    where
      at :
          (op : UserOp)
          → IsAllowed o cookie op
          → find_role s.email (rows_after op o.db_now t) ≡ some role
      at (invite email r token now) allowed = find_role-append s.email _ t.rows role h
      at (accept token hash) allowed =
          find_role-update s.email (is_invited token o.db_now) (accepted hash) (λ r. (refl, refl))
            t.rows
          ∙ h
      at (delete email) (admin, other) = find_role-delete s.email email t.rows (other s own) ∙ h
      at (set_role email r) (admin, other, good) =
          find_role-set s.email email r t.rows (other s own) ∙ h
      at (forget email token now) allowed =
          find_role-update s.email (is_email email) (resettable token now) (λ r. (refl, refl))
            t.rows
          ∙ h
      at (reset_by token hash) allowed =
          find_role-update s.email (is_resetting token o.db_now) (reset hash) (λ r. (refl, refl))
            t.rows
          ∙ h

  Effect-HasRole :
      (site : Site) {site' : Site}
      → Effect o cookie site site'
      → HasRole s.email role site.users
      → HasRole s.email role site'.users
  Effect-HasRole site (unchanged e) h =
      ap (λ (site : Site). find_role s.email site.users.rows) e ∙ h
  Effect-HasRole site (on_users op allowed e nodes resources) h =
      statement-HasRole op site.users allowed e h
  Effect-HasRole site (on_resources op admin e nodes users) h =
      ap (λ (t : UserTable). find_role s.email t.rows) users ∙ h

module _ (o : Outside) (cookie : Option String) (site : Site) (s : Session) {role : String} where
  -- Whatever a request does, the account of the session that makes it exists afterwards, with the
  -- role that it had: nobody deletes or demotes their own account.
  pub handle-keeps_own_role :
      (req : Request)
      → valid_session o.crypto cookie o.secret o.now ≡ some s
      → find_role s.email site.users.rows ≡ some role
      → find_role s.email (handle o cookie req site).1.users.rows ≡ some role
  handle-keeps_own_role req own h =
      Effect-HasRole o cookie s own site (handle-Effect o cookie site req) h
