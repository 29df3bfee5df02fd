-- ===== src/Dashboard/Effects/Requests.antt =====
-- All the routes.
use rv_tx.Base.{refl, String, Option, none, some}
use rv_tx.Db.Resource.{ResourceOp, perform}
use rv_tx.Dashboard.{
  Site, Outside, Request, login, logout, traefik_config, whoami, list_nodes, list_resources,
  invite_info, accept_invite, forgot_password, reset_password, create_resource, update_resource,
  delete_resource, list_users, invite_user, delete_user, set_user_role,
}
use rv_tx.Dashboard.Reads.{login-site, listed-site, nodes-site, info-site, users-site}
use rv_tx.Dashboard.Handlers.{
  decoded, logout_handler, whoami_handler, create_resource_handler, update_resource_handler,
  delete_resource_handler, handle,
}
use rv_tx.Dashboard.Effects.{Effect, unchanged}
use rv_tx.Dashboard.Effects.Writes.{auth-Leads, admin-Leads, resources-Leads}
use rv_tx.Dashboard.Effects.Accounts.{
  accept-Leads, reset-Leads, forgot-Leads, invite-Leads, delete-Leads, role-Leads,
}

module _ (o : Outside) (cookie : Option String) (site : Site) where
  -- Whatever a request is, it leaves the site as it is, or it is one statement on the users or the resources,
  -- with the rights and the checks that the statement needs; only mails may be added beside it.
  pub handle-Effect : (req : Request) → Effect o cookie site (handle o cookie req site).1
  unfolding handle logout_handler whoami_handler create_resource_handler update_resource_handler
      delete_resource_handler perform
  handle-Effect (login body) = unchanged (login-site o site body)
  handle-Effect logout = unchanged refl
  handle-Effect traefik_config = unchanged (listed-site o site).0
  handle-Effect whoami = auth-Leads o cookie site _ (λ s e. unchanged refl)
  handle-Effect list_nodes = auth-Leads o cookie site _ (λ s e. unchanged (nodes-site o site))
  handle-Effect list_resources =
      auth-Leads o cookie site _ (λ s e. unchanged (listed-site o site).1)
  handle-Effect (invite_info token) = unchanged (info-site o site token)
  handle-Effect (accept_invite body) = accept-Leads o cookie site body
  handle-Effect (forgot_password body) = forgot-Leads o cookie site body
  handle-Effect (reset_password body) = reset-Leads o cookie site body
  handle-Effect (create_resource none) = admin-Leads o cookie site _ (λ s admin e. unchanged refl)
  handle-Effect (create_resource (some body)) = admin-Leads o cookie site _ λ s admin e.
      resources-Leads o cookie site 201 400 (ResourceOp.create (decoded o site body.name body)) _
        admin refl
  handle-Effect (update_resource name none) =
      admin-Leads o cookie site _ (λ s admin e. unchanged refl)
  handle-Effect (update_resource name (some body)) = admin-Leads o cookie site _ λ s admin e.
      resources-Leads o cookie site 200 400 (ResourceOp.update (decoded o site name body)) _ admin
        refl
  handle-Effect (delete_resource name) =
      admin-Leads o cookie site _
        λ s admin e. resources-Leads o cookie site 204 404 (ResourceOp.delete name) _ admin refl
  handle-Effect list_users =
      admin-Leads o cookie site _ (λ s admin e. unchanged (users-site o site))
  handle-Effect (invite_user body) =
      admin-Leads o cookie site _ (λ s admin e. invite-Leads o cookie site body admin)
  handle-Effect (delete_user email) =
      admin-Leads o cookie site _ (λ s admin e. delete-Leads o cookie site s email admin e)
  handle-Effect (set_user_role email body) =
      admin-Leads o cookie site _ (λ s admin e. role-Leads o cookie site s email body admin e)
