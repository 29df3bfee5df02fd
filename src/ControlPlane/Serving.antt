-- ===== src/ControlPlane/Serving.antt =====
-- What holds in every interleaving of requests and agents.
use rv_tx.Base.{◌≡◌, refl, sym, ◌∙◌, subst, String, true, Option, some, Bool, List, [], ◌∷◌, All}
use rv_tx.Mesh.Outcome.{IsHost}
use rv_tx.Db.Node.{NodeTable}
use rv_tx.Db.Node.Unique.{IsUnique, ips}
use rv_tx.Db.Listing.{ResourceWithTargets, list_resources_with_targets}
use rv_tx.Db.Listing.Links.{AreLinked-later}
use rv_tx.Db.Listing.Total.{IsOrder}
use rv_tx.Traefik.{generate}
use rv_tx.WsServer
use rv_tx.WsServer.{World}
use rv_tx.WsServer.Ids.{step-KeepsIds}
use rv_tx.WsServer.Invariant.{Inv}
use rv_tx.WsServer.Invariant.Steps.{step-Inv}
use rv_tx.WsServer.Addresses.{start-Inv}
use rv_tx.Dashboard.{Site, Outside, config, with_body, traefik_config}
use rv_tx.Dashboard.Bootstrap.{bootstrap_admin}
use rv_tx.Dashboard.Handlers.{handle}
use rv_tx.Dashboard.History.{
  IsConsistent, new_site, serve_http-IsConsistent, bootstrapped-IsConsistent,
}
use rv_tx.Dashboard.Serving.{
  IsLinkedSite, request-Serves, bootstrapped-nodes, traefik_config-linked,
}
use rv_tx.Dashboard.Mux.{Decoders}
use rv_tx.ControlPlane.{Happening, request, agent, State, happen, happens}

-- The tables and the connections, together.
pub record IsRunning (cidr : String) (state : State) : Type 0 where
  -- The handlers and the goroutines see one nodes table.
  pub same_nodes : state.0.nodes ≡ state.1.nodes
  pub mesh : Inv cidr state.1
  pub consistent : IsConsistent state.0
  pub linked : IsLinkedSite state.0

Inv-of :
    (cidr : String) (world : World) (nodes : NodeTable)
    → nodes ≡ world.nodes
    → Inv cidr world
    → Inv cidr (record world { nodes = nodes })
Inv-of cidr world nodes e v = subst (λ n. Inv cidr (record world { nodes = n })) (sym e) v

module _ (cidr : String) (d : Decoders) (exists : List String → Bool) where
  happen-IsRunning :
      (h : Happening) (state : State)
      → IsRunning cidr state
      → IsRunning cidr (happen cidr d exists h state)
  unfolding happen
  happen-IsRunning (request o r) (site, world) k =
      let (nodes, linked) = request-Serves d exists o r site k.linked in
      record {
        same_nodes = refl;
        mesh = Inv-of cidr world _ (nodes ∙ k.same_nodes) k.mesh;
        consistent = serve_http-IsConsistent d exists o r site k.consistent;
        linked = linked;
      }
  happen-IsRunning (agent e) (site, world) k =
      let world' = rv_tx.WsServer.step cidr world e in
      record {
        same_nodes = refl;
        mesh = step-Inv cidr world e k.mesh;
        consistent = record {
          emails_distinct = k.consistent.emails_distinct;
          roles_valid = k.consistent.roles_valid;
          resources_sound = k.consistent.resources_sound;
        };
        linked =
            AreLinked-later site.nodes world'.nodes site.resources.targets
              (λ id h. step-KeepsIds cidr world e id (rw⁻¹ k.same_nodes h)) k.linked;
      }

  happens-keeps :
      (later : List Happening) (state : State)
      → IsRunning cidr state
      → IsRunning cidr (happens cidr d exists later state)
  unfolding happens
  happens-keeps [] state k = k
  happens-keeps (h ∷ later) state k =
      happens-keeps later (happen cidr d exists h state) (happen-IsRunning h state k)

  module _ (first : Outside) (email hash : String) (nodes : NodeTable) {site : Site}
      (made : bootstrap_admin first email hash (new_site nodes) ≡ some site)
      (unique : IsUnique nodes.rows) (hosts : All (IsHost cidr) (ips nodes.rows)) where
    -- From the first administrator on, over a nodes table with unique names, keys and addresses that are hosts
    -- of the mesh network: in every interleaving of requests of http, refused ones included, with the
    -- steps of the agents' goroutines, whatever clocks, tokens, cookies and failures they meet, the
    -- nodes stay so, the replied addresses are stored, no two accounts have one email, every
    -- account's role is admin or viewer, the resources are sound, and every target has an address
    -- or a node.
    pub happens-IsRunning :
        (later : List Happening)
        → IsRunning cidr (happens cidr d exists later (site, rv_tx.WsServer.start site.nodes))
    unfolding rv_tx.WsServer.start
    happens-IsRunning later =
        let (same, linked) = bootstrapped-nodes first email hash nodes made in
        happens-keeps later (site, rv_tx.WsServer.start site.nodes)
          (record {
            same_nodes = refl;
            mesh =
                subst (λ n. Inv cidr (rv_tx.WsServer.start n)) same
                  (start-Inv cidr nodes unique hosts);
            consistent = bootstrapped-IsConsistent first email hash nodes made;
            linked = linked;
          })

    -- In every such interleaving, while the database answers, and whatever collation orders its rows: the
    -- request of Traefik lists the resources and is answered with the configuration that is generated of them.
    pub traefik_config-answered :
        (later : List Happening) (o : Outside) (cookie : Option String)
        → o.db_up ≡ true
        → IsOrder o.order_joined
        → let now = (happens cidr d exists later (site, rv_tx.WsServer.start site.nodes)).0 in
          (rs : List ResourceWithTargets) × (list_resources_with_targets o.order_joined now.nodes
              now.resources
            ≡ some rs)
          × (handle o cookie traefik_config now ≡ (with_body (config (generate o.now rs)), now))
    traefik_config-answered later o cookie up ordered =
        traefik_config-linked o cookie _ (happens-IsRunning later).linked up ordered
