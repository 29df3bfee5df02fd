-- ===== src/Dashboard/Effects/Writes.antt =====
-- The guards of the routes, and the handlers' writes and mails.
use rv_tx.Base.{
  ℕ, ◌≡◌, refl, sym, ap, ◌∙◌, inl, inr, String, Bool, true, false, Option, none, some, ltb,
  if◌then◌else◌, Bool-cases, Option-cases,
}
use rv_tx.Db.Target.{Outcome, ok, err}
use rv_tx.Db.Resource.{ResourceTables, ResourceOp, perform}
use rv_tx.Db.User.{UserTable}
use rv_tx.Db.User.Statements.{UserOp, perform_user}
use rv_tx.Auth.{Session, valid_session, is_admin, hash_password}
use rv_tx.Dashboard.{
  Letter, Site, Outside, Response, plain, authorized, require_auth, require_admin,
}
use rv_tx.Dashboard.Email.{byte_length}
use rv_tx.Dashboard.Letters.{after_sending, after_sending-tables}
use rv_tx.Dashboard.Roles.{answered}
use rv_tx.Dashboard.Guards.{is_admin_cookie, of_admin}
use rv_tx.Dashboard.Handlers.{queried, wrote_users, wrote_resources, with_hash}
use rv_tx.Dashboard.Effects.{IsHash, IsAllowed, Effect, unchanged, on_users, on_resources, Leads}

module _ (o : Outside) (cookie : Option String) (site : Site) where
  -- The guards.
  pub auth-Leads :
      (next : Session → Response × Site)
      → ((s : Session)
          → valid_session o.crypto cookie o.secret o.now ≡ some s
          → Leads o cookie site (next s))
      → Leads o cookie site (require_auth o cookie site next)
  unfolding require_auth
  auth-Leads next h = at (valid_session o.crypto cookie o.secret o.now) refl
    where
      at :
          (v : Option Session)
          → valid_session o.crypto cookie o.secret o.now ≡ v
          → Leads o cookie site (authorized site next v)
      at none e = unchanged refl
      at (some s) e = h s e

  pub admin-Leads :
      (next : Session → Response × Site)
      → ((s : Session)
          → is_admin_cookie o cookie ≡ true
          → valid_session o.crypto cookie o.secret o.now ≡ some s
          → Leads o cookie site (next s))
      → Leads o cookie site (require_admin o cookie site next)
  unfolding require_admin
  admin-Leads next h = auth-Leads _ λ s e. elim (Bool-cases (is_admin s)) [
    | inl admin ↦ rw admin (h s (ap of_admin e ∙ admin) e)
    | inr viewer ↦ rw viewer (unchanged refl)
  ]

  -- The writes.
  pub wrote-Leads :
      (done failed : ℕ) (op : UserOp) (q : Option UserTable)
      → IsAllowed o cookie op
      → (q ≡ perform_user op o.db_now site.users)
      → Leads o cookie site (wrote_users done failed (queried o q) site)
  wrote-Leads done failed op q allowed same = at (queried o q) refl
    where
      at :
          (r : Option UserTable)
          → queried o q ≡ r
          → Leads o cookie site (wrote_users done failed r site)
      at none e = unchanged refl
      at (some t) e = on_users op allowed (sym same ∙ answered o q e) refl refl

  pub resources-Leads :
      (done failed : ℕ) (op : ResourceOp) (q : Outcome ResourceTables)
      → is_admin_cookie o cookie ≡ true
      → (q ≡ perform op site.nodes site.resources)
      → Leads o cookie site
          (if o.db_up then wrote_resources done failed q site else (plain failed, site))
  resources-Leads done failed op q admin same = up o.db_up
    where
      at :
          (r : Outcome ResourceTables)
          → q ≡ r
          → Leads o cookie site (wrote_resources done failed r site)
      at (err e) f = unchanged refl
      at (ok t) f = on_resources op admin (sym same ∙ f) refl refl

      up :
          (b : Bool)
          → Leads o cookie site
              (if b then wrote_resources done failed q site else (plain failed, site))
      up true = at q refl
      up false = unchanged refl

  pub sent-Leads :
      (op : UserOp) (letter : Letter) (t : UserTable)
      → IsAllowed o cookie op
      → perform_user op o.db_now site.users ≡ some t
      → Effect o cookie site (after_sending o letter (record site { users = t }))
  sent-Leads op letter t allowed e =
      let (users, nodes, resources) = after_sending-tables o letter (record site { users = t }) in
      on_users op allowed (e ∙ ap some (sym users)) nodes resources

  pub hash-Leads :
      (password : String) (write : String → Option UserTable) (op : String → UserOp)
      → ((hash : String) → IsHash o hash → IsAllowed o cookie (op hash))
      → ((hash : String) → write hash ≡ perform_user (op hash) o.db_now site.users)
      → Leads o cookie site (with_hash o site password write)
  hash-Leads password write op allowed same = elim (Bool-cases (ltb (byte_length password) 8)) [
    | inl short ↦ rw short (unchanged refl)
    | inr long ↦ rw long (elim (Option-cases (hash_password o.crypto password)) [
      | inl e ↦ rw e (unchanged refl)
      | inr (hash, e) ↦ rw e (
          wrote-Leads 200 400 (op hash) (write hash) (allowed hash (password, long, e)) (same hash))
    ])
  ]
