-- ===== src/Agent/Connect/Tests.antt =====
-- Connections of an agent to a control plane, and the theorems at them.
use mathlib.Core.List.{mem-cons_self}
use rv_tx.Base.{
  ℕ, ◌*◌, ◌≡◌, refl, String, true, false, not, ◌&&◌, none, some, List, [], ◌∷◌, ◌++◌, contains, Mem,
  ◌==◌,
}
use rv_tx.Base.Dict.{Dict, insert}
use rv_tx.Base.Text.{pos, split}
use rv_tx.Base.Trim.{trim_space}
use rv_tx.Protocol.{register, heartbeat, ServerMessage}
use rv_tx.Db.Node.{Node}
use rv_tx.Mesh.{peer_list_for}
use rv_tx.WsServer.{broadcast}
use rv_tx.Agent.{
  current_peers, reconcile, remove_stale, wanted, delete_routes, set_peers, add_routes, has_route,
}
use rv_tx.Agent.Output.{parse_peers, fields}
use rv_tx.Agent.Sample.{Machine, machine, has_peer, without, machine-IsWireguard}
use rv_tx.Agent.Client.{Client, Inbound, on_message, read_messages, passes}
use rv_tx.Agent.Connect.{
  ticks, reads, fails, Connection, register_payload, serve, connect_once, run,
}
use rv_tx.Agent.Connect.Conversation.{IsConversation, obeyed, connect_once-IsConversation}
use rv_tx.Agent.Connect.Eventually.{on_time, Registers, run-Registers}
use rv_tx.Agent.Converge.{is_node, inbound, broadcast-converges}

abbrev client : Client
client = record {
  url = "ws://cp.b.c/ws/agent";
  name = "node-o";
  private_key = "private";
  public_key = "KO";
  listen_port = pos 51820;
  heartbeat_interval = pos 15000000000;
  endpoint_override = "";
  iface = "wg0";
  advertised_subnets = [];
}

abbrev good : Connection
good = record {
  dialled = true;
  accepts = true;
  events = ticks true ∷ reads (Inbound.unknown "ping") ∷ ticks false ∷ ticks true ∷ fails ∷ [];
}

abbrev down : Connection
down = record { dialled = false; accepts = false; events = [] }

abbrev machine_state : Machine
machine_state = ([], [])

-- After the write that fails there is no heartbeat any more.
says :
    (connect_once machine (λ m. m) client good machine_state).0
    ≡ register (register_payload client) ∷ heartbeat ∷ []
unfolding connect_once serve on_message
says = refl

connect_once-IsConversation_example :
    IsConversation client (connect_once machine (λ m. m) client good machine_state).0
    × ((connect_once machine (λ m. m) client good machine_state).1
        ≡ read_messages machine "wg0" "private"
            (pos 51820)
            (λ m. m)
            (obeyed machine (λ m. m) client true true good.events)
            machine_state)
connect_once-IsConversation_example =
    connect_once-IsConversation machine (λ m. m) client good machine_state

run-Registers_example :
    Registers machine
      (λ m. m)
      client
      2
      (2 * (30 * 1000000000))
      (run machine
        (λ m. m)
        client
        (on_time (down ∷ down ∷ []) ++ (passes, good) ∷ [])
        machine_state).0
run-Registers_example =
    run-Registers machine (λ m. m) client (down ∷ down ∷ []) good [] machine_state refl refl

abbrev node : ℕ → String → String → String → Node
node id name key ip = record {
  id = id;
  name = name;
  public_key = key;
  mesh_ip = ip;
  last_endpoint = none;
  last_seen = some 100;
  advertised_subnets = [];
}

abbrev nodes : List Node
nodes = node 0 "node-o" "KO" "10.8.0.2" ∷ node 1 "node-1" "k1" "10.8.0.1" ∷ []

abbrev before : Machine
before = ("stale" ∷ "k1" ∷ [], "10.8.0.9/32" ∷ "10.8.0.1/32" ∷ [])

abbrev current : Dict (List String)
current = ("stale", "10.8.0.9/32" ∷ []) ∷ ("k1", "10.8.0.1/32" ∷ []) ∷ []

shows_both : current_peers machine "wg0" before ≡ some current
unfolding current_peers parse_peers split fields insert
shows_both = refl

reconciles : (reconcile machine "wg0" (λ m. m) (peer_list_for "KO" nodes) before).1 ≡ true
unfolding reconcile current_peers parse_peers split fields contains insert remove_stale wanted
    delete_routes without set_peers add_routes has_route trim_space peer_list_for
reconciles = refl

abbrev Converges : Type 0
Converges =
    (message : ServerMessage) × Mem (3, message) (broadcast (λ c. true) nodes (("KO", 3) ∷ []) [])
    × (has_peer (on_message machine "wg0" "private" (pos 51820) (λ m. m) (inbound message) before)
          "stale"
        ≡ (not ("KO" == "stale") && is_node nodes "stale"))

broadcast-converges_example : Converges
unfolding contains
broadcast-converges_example =
    broadcast-converges machine "wg0" "KO" "stale" has_peer machine-IsWireguard (λ m. m) "private"
      (pos 51820) (λ c. true) nodes (("KO", 3) ∷ []) [] 3 before mem-cons_self refl (λ m. refl)
      shows_both refl reconciles
