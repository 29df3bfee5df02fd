-- ===== src/Dashboard/Effects/Accounts.antt =====
-- The handlers that write accounts.
use rv_tx.Base.{
  ◌≡◌, refl, sym, ap, ◌∙◌, subst, inl, inr, String, Bool, true, false, Option, none, some,
  if◌then◌else◌, ◌==◌, Bool-cases, Option-cases, ne_of_eq-false,
}
use mathlib.Core.Option.{some-injective}
use rv_tx.Db.User.{UserTable, create_invite, create_reset_token}
use rv_tx.Db.User.Statements.{UserOp, perform_user}
use rv_tx.Auth.{Session, valid_session}
use rv_tx.Dashboard.{Site, Outside}
use rv_tx.Dashboard.Email.{is_email_address, valid_role}
use rv_tx.Dashboard.Letters.{after_sending, invite_letter, reset_letter}
use rv_tx.Dashboard.Roles.{answered}
use rv_tx.Dashboard.Guards.{is_admin_cookie}
use rv_tx.Dashboard.Handlers.{
  queried, invite_user_handler, delete_user_handler, set_user_role_handler, accept_invite_handler,
  forgot_password_handler, reset_password_handler,
}
use rv_tx.Dashboard.Effects.{IsOther, Effect, unchanged, on_users, Leads}
use rv_tx.Dashboard.Effects.Writes.{wrote-Leads, sent-Leads, hash-Leads}

module _ (o : Outside) (cookie : Option String) (site : Site) where
  pub accept-Leads :
      (body : Option (String × String)) → Leads o cookie site (accept_invite_handler o site body)
  unfolding accept_invite_handler perform_user
  accept-Leads none = unchanged refl
  accept-Leads (some (token, password)) =
      hash-Leads o cookie site password _ (UserOp.accept token) (λ hash h. h) (λ hash. refl)

  pub reset-Leads :
      (body : Option (String × String)) → Leads o cookie site (reset_password_handler o site body)
  unfolding reset_password_handler perform_user
  reset-Leads none = unchanged refl
  reset-Leads (some (token, password)) =
      hash-Leads o cookie site password _ (UserOp.reset_by token) (λ hash h. h) (λ hash. refl)

  pub forgot-Leads :
      (body : Option String) → Leads o cookie site (forgot_password_handler o site body)
  unfolding forgot_password_handler perform_user
  forgot-Leads none = unchanged refl
  forgot-Leads (some email) = elim (Option-cases o.token) [
    | inl e ↦ rw (e, forgot_password_handler) (unchanged refl)
    | inr (token, e) ↦
        let q = create_reset_token email token o.now site.users in
        let op = UserOp.forget email token o.now in
        elim (Option-cases (queried o q)) [
          | inl f ↦ rw (e, forgot_password_handler) (rw f (unchanged refl))
          | inr ((t, existed), f) ↦
              let made : perform_user op o.db_now site.users ≡ some t = rw (answered o q f) refl in
              subst (Effect o cookie site) (sym (simp (forgot_password_handler, e, f)))
                (sent existed t e made)
        ]
  ]
    where
      sent :
          (existed : Bool) (t : UserTable) {token : String}
          → o.token ≡ some token
          → perform_user (UserOp.forget email token o.now) o.db_now site.users ≡ some t
          → Effect o cookie site (
              if existed
              then after_sending o (reset_letter o.base_url email token) (record site { users = t })
              else record site { users = t })
      sent true t {token} e made =
          sent-Leads o cookie site (UserOp.forget email token o.now) _ t e made
      sent false t {token} e made = on_users (UserOp.forget email token o.now) e made refl refl

  pub invite-Leads :
      (body : Option (String × String))
      → is_admin_cookie o cookie ≡ true
      → Leads o cookie site (invite_user_handler o site body)
  unfolding invite_user_handler perform_user
  invite-Leads none admin = unchanged refl
  invite-Leads (some (email, role)) admin = elim (Bool-cases (is_email_address email)) [
    | inr bad ↦ rw (bad, invite_user_handler) (unchanged refl)
    | inl email_ok ↦ elim (Bool-cases (valid_role role)) [
      | inr bad ↦ rw (email_ok, invite_user_handler) (rw bad (unchanged refl))
      | inl role_ok ↦ elim (Option-cases o.token) [
        | inl e ↦ rw (email_ok, invite_user_handler) (rw role_ok (rw e (unchanged refl)))
        | inr (token, e) ↦
            let q = create_invite email role token o.now o.db_now site.users in
            elim (Option-cases (queried o q)) [
              | inl f ↦
                  rw (email_ok, invite_user_handler) (rw role_ok (rw e (rw f (unchanged refl))))
              | inr (t, f) ↦
                  subst (Effect o cookie site)
                    (sym (simp (invite_user_handler, email_ok, role_ok, e, f)))
                    (sent-Leads o cookie site (UserOp.invite email role token o.now)
                      (invite_letter o.base_url email role token) t (admin, email_ok, role_ok, e)
                      (answered o q f))
            ]
      ]
    ]
  ]

  other :
      (s : Session) (email : String)
      → valid_session o.crypto cookie o.secret o.now ≡ some s
      → (email == s.email) ≡ false
      → IsOther o cookie email
  other s email own differs t own' same =
      ne_of_eq-false _ _ differs
        (same ∙ ap (λ (s : Session). s.email) (some-injective _ _ (sym own' ∙ own)))

  pub delete-Leads :
      (s : Session) (email : String)
      → is_admin_cookie o cookie ≡ true
      → valid_session o.crypto cookie o.secret o.now ≡ some s
      → Leads o cookie site (delete_user_handler o site s email)
  unfolding delete_user_handler perform_user
  delete-Leads s email admin own = elim (Bool-cases (email == s.email)) [
    | inl same ↦ rw (same, delete_user_handler) (unchanged refl)
    | inr differs ↦
        rw (differs, delete_user_handler)
          (wrote-Leads o cookie site 204 404 (UserOp.delete email) _
            (admin, other s email own differs) refl)
  ]

  pub role-Leads :
      (s : Session) (email : String) (body : Option String)
      → is_admin_cookie o cookie ≡ true
      → valid_session o.crypto cookie o.secret o.now ≡ some s
      → Leads o cookie site (set_user_role_handler o site s email body)
  unfolding set_user_role_handler perform_user
  role-Leads s email none admin own = elim (Bool-cases (email == s.email)) [
    | inl same ↦ rw (same, set_user_role_handler) (unchanged refl)
    | inr differs ↦ rw (differs, set_user_role_handler) (unchanged refl)
  ]
  role-Leads s email (some role) admin own = elim (Bool-cases (email == s.email)) [
    | inl same ↦ rw (same, set_user_role_handler) (unchanged refl)
    | inr differs ↦ elim (Bool-cases (valid_role role)) [
      | inr bad ↦ rw (differs, set_user_role_handler) (rw bad (unchanged refl))
      | inl good ↦
          rw (differs, set_user_role_handler)
            (rw good (
              wrote-Leads o cookie site 200 404 (UserOp.set_role email role) _
                (admin, other s email own differs, good) refl))
    ]
  ]
