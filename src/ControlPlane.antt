-- ===== src/ControlPlane.antt =====
-- cmd/controlplane/main.go: the program as a whole. The handlers of http and the goroutines of the agents'
-- connections share the tables; what happens is a list of requests and of steps of the goroutines.
pub mod Serving
mod Tests
use rv_tx.Base.{String, Bool, List, [], ◌∷◌}
use rv_tx.WsServer
use rv_tx.WsServer.{World}
use rv_tx.Dashboard.{Site, Outside}
use rv_tx.Dashboard.Mux.{HttpRequest, Decoders, serve_http}

pub data Happening : Type 0 where
  request : Outside → HttpRequest → Happening
  agent : rv_tx.WsServer.Event → Happening

-- The tables, and the connections with the nodes table that their goroutines see.
abbrev pub State : Type 0
State = Site × World

-- One thing that happens; a goroutine writes the nodes that the handlers read.
unfoldable pub happen : String → Decoders → (List String → Bool) → Happening → State → State
happen cidr d exists (request o r) (site, world) =
    let site' = (serve_http o d exists r site).1 in (site', record world { nodes = site'.nodes })
happen cidr d exists (agent e) (site, world) =
    let world' = rv_tx.WsServer.step cidr world e in (record site { nodes = world'.nodes }, world')

unfoldable pub happens : String → Decoders → (List String → Bool) → List Happening → State → State
unfolding happen
happens cidr d exists [] state = state
happens cidr d exists (h ∷ later) state = happens cidr d exists later (happen cidr d exists h state)
