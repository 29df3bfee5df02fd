-- ===== src/Dashboard/Serving.antt =====
-- What Traefik is served.
use rv_tx.Base.{
  ◌≡◌, refl, sym, ap, subst, String, Bool, true, Option, none, some, List, passed, unguarded, not,
  ◌==◌,
}
use rv_tx.Db.Node.{NodeTable}
use rv_tx.Db.Listing.{ResourceWithTargets, list_resources_with_targets}
use rv_tx.Db.Listing.Links.{AreLinked, perform-AreLinked}
use rv_tx.Db.Listing.Total.{IsOrder, list_resources-made}
use rv_tx.Db.User.{count_users, create_admin_with_password, insert_user}
use rv_tx.Traefik.{generate}
use rv_tx.Dashboard.{Site, Outside, config, with_body, traefik_config}
use rv_tx.Dashboard.Bootstrap.{bootstrap_admin}
use rv_tx.Dashboard.Effects.{Effect, unchanged, on_users, on_resources}
use rv_tx.Dashboard.Effects.Requests.{handle-Effect}
use rv_tx.Dashboard.Handlers.{handle, traefik_config_handler}
use rv_tx.Dashboard.History.{new_site}
use rv_tx.Dashboard.Mux.{
  HttpRequest, Decoders, Target, agent_socket, health, api, routes, find_route, reply, serve_http,
}

-- Every target has an address or a node.
abbrev pub IsLinkedSite : Site → Type 0
IsLinkedSite site = AreLinked site.nodes site.resources

-- A request leaves the nodes, and every target linked.
abbrev pub Serves : Site → Site → Type 0
Serves site site' = (site'.nodes ≡ site.nodes) × IsLinkedSite site'

Effect-Serves :
    (o : Outside) (cookie : Option String) (site : Site) {site' : Site}
    → IsLinkedSite site
    → Effect o cookie site site'
    → Serves site site'
Effect-Serves o cookie site k (unchanged e) =
    (ap (λ (s : Site). s.nodes) e, subst IsLinkedSite (sym e) k)
Effect-Serves o cookie site k (on_users op allowed e nodes resources) =
    (nodes, rw (nodes, resources) k)
Effect-Serves o cookie site k (on_resources op admin e nodes users) =
    (nodes, rw nodes (perform-AreLinked site.nodes op site.resources k e))

module _ (d : Decoders) (exists : List String → Bool) where
  pub request-Serves :
      (o : Outside) (r : HttpRequest) (site : Site)
      → IsLinkedSite site
      → Serves site (serve_http o d exists r site).1
  unfolding serve_http
  request-Serves o r site k = at_target (find_route (routes d) r)
    where
      at_target : (t : Option Target) → Serves site (reply o exists r site t).1
      at_target none = (refl, k)
      at_target (some agent_socket) = (refl, k)
      at_target (some health) = (refl, k)
      at_target (some (api req)) =
          Effect-Serves o r.cookie site k (handle-Effect o r.cookie site req)

pub bootstrapped-nodes :
    (o : Outside) (email hash : String) (nodes : NodeTable) {site : Site}
    → bootstrap_admin o email hash (new_site nodes) ≡ some site
    → (nodes ≡ site.nodes) × IsLinkedSite site
unfolding bootstrap_admin count_users create_admin_with_password insert_user
bootstrapped-nodes o email hash nodes e =
    let (_, up) = passed (not o.db_up) e in
    let (_, named) = passed (email == "") up in
    let (_, made) = unguarded (hash == "") named in
    (ap (λ (s : Site). s.nodes) made, subst IsLinkedSite made tt)

-- While the database answers, and whatever collation orders its rows, Traefik's request lists the resources and
-- is answered with the configuration that is generated of them.
pub traefik_config-linked :
    (o : Outside) (cookie : Option String) (now : Site)
    → IsLinkedSite now
    → o.db_up ≡ true
    → IsOrder o.order_joined
    → (rs : List ResourceWithTargets) × (list_resources_with_targets o.order_joined now.nodes
          now.resources
        ≡ some rs)
      × (handle o cookie traefik_config now ≡ (with_body (config (generate o.now rs)), now))
unfolding handle traefik_config_handler
traefik_config-linked o cookie now linked up ordered =
    let (rs, listed) = list_resources-made o.order_joined now.nodes now.resources ordered linked in
    (rs, listed, simp (traefik_config_handler, up, listed))
