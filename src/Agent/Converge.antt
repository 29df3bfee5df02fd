-- ===== src/Agent/Converge.antt =====
-- A control plane and an agent together: from a broadcast of the nodes to the peers of the interface.
use rv_tx.Base.{
  ℕ, ◌≡◌, String, Bool, true, not, ◌&&◌, some, List, [], ◌∷◌, Mem, any, ◌==◌, arith, eq_iff,
  Bool-cases, inl, inr,
}
use rv_tx.Base.Dict.{Dict}
use rv_tx.Base.Text.{ℤ}
use rv_tx.Protocol.{ServerMessage, peer_list}
use rv_tx.Db.Node.{Node}
use rv_tx.Mesh.{peer_list_for}
use rv_tx.WsServer.{broadcast}
use rv_tx.WsServer.Handlers.{mem-broadcast}
use rv_tx.Agent.{System, current_peers, wanted, reconcile}
use rv_tx.Agent.Peers.{IsWireguard, is_key, reconcile-peers}
use rv_tx.Agent.Client.{Inbound, on_message}

-- A public key of the nodes.
abbrev pub is_node : List Node → String → Bool
is_node nodes key = any (λ (n : Node). n.public_key == key) nodes

-- What an agent reads of a message that the control plane writes.
abbrev pub inbound : ServerMessage → Inbound
inbound (ServerMessage.registered p) = Inbound.registered (some p)
inbound (ServerMessage.peer_list p) = Inbound.peer_list (some p)

module _ {K : Type 0} (sys : System K) (iface : String) (own key : String) where
  wanted-peer_list_for :
      (nodes : List Node)
      → wanted sys iface (peer_list_for own nodes) key ≡ (not (own == key) && is_node nodes key)
  unfolding wanted peer_list_for
  wanted-peer_list_for [] = ground arith
  wanted-peer_list_for (n ∷ nodes) = elim (Bool-cases (n.public_key == own)) [
    | inl same ↦
        rw (same, peer_list_for)
          (ground (
            arith,
            wanted-peer_list_for nodes,
            eq_iff n.public_key own,
            eq_iff own key,
            eq_iff n.public_key key,
          ))
    | inr other ↦
        rw (other, peer_list_for)
          (ground (
            arith,
            wanted-peer_list_for nodes,
            eq_iff n.public_key own,
            eq_iff own key,
            eq_iff n.public_key key,
          ))
  ]

  -- If the commands act on the peers as documented: a broadcast of the nodes writes to every connection of
  -- the map that accepts it a message after which, if `wg show` listed the peers of the interface and
  -- the reconciliation succeeds, a key is a peer of the agent's interface exactly if it is the key of
  -- a node and not the agent's own.
  pub broadcast-converges :
      (has_peer : K → String → Bool) (w : IsWireguard sys iface has_peer)
      (range : Dict (List String) → Dict (List String)) (private_key : String) (listen_port : ℤ)
      (write_ok : ℕ → Bool) (nodes : List Node) (conns : List (String × ℕ))
      (sent : List (ℕ × ServerMessage)) (conn : ℕ) (s : K) {current : Dict (List String)}
      → Mem (own, conn) conns
      → write_ok conn ≡ true
      → ((m : Dict (List String)) → is_key key (range m) ≡ is_key key m)
      → current_peers sys iface s ≡ some current
      → is_key key current ≡ has_peer s key
      → (reconcile sys iface range (peer_list_for own nodes) s).1 ≡ true
      → (message : ServerMessage) × Mem (conn, message) (broadcast write_ok nodes conns sent)
        × (has_peer (on_message sys iface private_key listen_port range (inbound message) s) key
            ≡ (not (own == key) && is_node nodes key))
  unfolding on_message
  broadcast-converges has_peer w range private_key listen_port write_ok nodes conns sent conn s
        stored fine ranged shown listed done =
      (
        peer_list (record { peers = peer_list_for own nodes }),
        mem-broadcast write_ok nodes conns sent own conn stored fine,
        reached,
      )
    where
      r : K × Bool
      r = reconcile sys iface range (peer_list_for own nodes) s

      reached : has_peer r.0 key ≡ (not (own == key) && is_node nodes key)
      reached =
          let put =
            reconcile-peers sys iface has_peer w key range (peer_list_for own nodes) s ranged shown
              (λ i. (r.0, done i)) in
          ground (arith, wanted-peer_list_for nodes)
