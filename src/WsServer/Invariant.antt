-- ===== src/WsServer/Invariant.antt =====
-- What every interleaving of the handlers keeps: the nodes table and the addresses handed out.
pub mod Steps
use rv_tx.Base.{
  ℕ, ◌≡◌, refl, ◌∙◌, inl, inr, String, Bool, Option, none, some, List, [], ◌∷◌, All, eqb, ◌==◌,
  Bool-cases, Option-cases,
}
use rv_tx.Mesh.{Alloc, allocated, allocate_ip}
use rv_tx.Mesh.Outcome.{IsHost, allocate_ip-IsHost}
use rv_tx.Protocol.{
  RegisterPayload, AgentMessage, register, heartbeat, ServerMessage, registered, peer_list,
}
use rv_tx.Base.Dict.{insert, delete}
use rv_tx.Db.Node.{Node, list_nodes, NodeTable, Upsert, used_mesh_ips, upsert_node, touch_last_seen}
use rv_tx.Db.Node.Unique.{
  IsUnique, ips, upserted-IsUnique, touched-IsUnique, upserted-All_ips, upserted_ip, touched-ips,
}
use rv_tx.Db.Node.Address.{address_of, upsert-address, upsert-keeps_address, touch-keeps_address}
use rv_tx.WsServer.{
  Phase, unopened, reading, allocating, upserting, storing, listing, replying, touching, relisting,
  broadcasting, closing, closed, Session, World, Env, goto, update, upsert_of, act, advance,
  broadcast, on_read, on_phase, when_unopened, receive, open_conn, Event, opens, reads, runs, step,
  run,
}

module _ (cidr : String) where
  -- The name holds the address, which is one of the network's hosts.
  pub record Holds (nodes : NodeTable) (name ip : String) : Type 0 where
    pub stored : address_of name nodes ≡ some ip
    pub host : IsHost cidr ip

  -- A candidate is a host of the network, and an address to be replied is stored.
  abbrev pub PhaseOk : NodeTable → Phase → Type 0
  PhaseOk nodes (upserting p ip) = IsHost cidr ip
  PhaseOk nodes (storing p ip) = Holds nodes p.name ip
  PhaseOk nodes (listing p ip) = Holds nodes p.name ip
  PhaseOk nodes (replying p ip _) = Holds nodes p.name ip
  PhaseOk nodes _ = Unit {0}

  abbrev pub SentOk : NodeTable → ℕ × ServerMessage → Type 0
  SentOk nodes (_, registered r) = (name : String) × Holds nodes name r.mesh_ip
  SentOk nodes (_, peer_list p) = Unit {0}

  pub record Inv (w : World) : Type 0 where
    pub unique : IsUnique w.nodes.rows
    pub hosts : All (IsHost cidr) (ips w.nodes.rows)
    pub phases : (c : ℕ) → PhaseOk w.nodes (w.session c).phase
    pub replies : All (SentOk w.nodes) w.sent

  -- The table may grow and change under what a goroutine remembers.
  abbrev pub Keeps : NodeTable → NodeTable → Type 0
  Keeps t t' =
      (name : String) (ip : String) → address_of name t ≡ some ip → address_of name t' ≡ some ip

  Holds-mono :
      {t t' : NodeTable} {name ip : String} → Keeps t t' → Holds t name ip → Holds t' name ip
  Holds-mono k h = record { stored = k _ _ h.stored; host = h.host }

  PhaseOk-mono :
      (t t' : NodeTable) (phase : Phase) → Keeps t t' → PhaseOk t phase → PhaseOk t' phase
  PhaseOk-mono t t' (upserting p ip) k h = h
  PhaseOk-mono t t' (storing p ip) k h = Holds-mono k h
  PhaseOk-mono t t' (listing p ip) k h = Holds-mono k h
  PhaseOk-mono t t' (replying p ip nodes) k h = Holds-mono k h
  PhaseOk-mono t t' _ k h = h

  All-mono :
      (t t' : NodeTable) (sent : List (ℕ × ServerMessage))
      → Keeps t t'
      → All (SentOk t) sent
      → All (SentOk t') sent
  All-mono t t' [] k h = tt
  All-mono t t' ((c, registered r) ∷ sent) k h =
      ((h.0.0, Holds-mono k h.0.1), All-mono t t' sent k h.1)
  All-mono t t' ((c, peer_list p) ∷ sent) k h = (tt, All-mono t t' sent k h.1)

  -- A table with the rows' addresses kept.
  pub Inv-nodes :
      (w : World) (t' : NodeTable)
      → Inv w
      → Keeps w.nodes t'
      → IsUnique t'.rows
      → All (IsHost cidr) (ips t'.rows)
      → Inv (record w { nodes = t' })
  Inv-nodes w t' v k u h = record {
    unique = u;
    hosts = h;
    phases = λ c. PhaseOk-mono w.nodes t' (w.session c).phase k (v.phases c);
    replies = All-mono w.nodes t' w.sent k v.replies;
  }

  pub Inv-session :
      (w : World) (c : ℕ) (s : Session)
      → Inv w
      → PhaseOk w.nodes s.phase
      → Inv (record w { session = update w.session c s })
  Inv-session w c s v ok = record {
    unique = v.unique;
    hosts = v.hosts;
    phases = λ d. elim (Bool-cases (eqb c d)) [ inl e ↦ rw e ok | inr n ↦ rw n (v.phases d) ];
    replies = v.replies;
  }

  pub Inv-goto :
      (w : World) (c : ℕ) (phase : Phase) → Inv w → PhaseOk w.nodes phase → Inv (goto c phase w)
  Inv-goto w c phase v ok = Inv-session w c (record (w.session c) { phase = phase }) v ok

  pub Inv-conns : (w : World) (conns : List (String × ℕ)) → Inv w → Inv (record w { conns = conns })
  Inv-conns w conns v = record {
    unique = v.unique;
    hosts = v.hosts;
    phases = v.phases;
    replies = v.replies;
  }

  pub Inv-sent :
      (w : World) (sent : List (ℕ × ServerMessage))
      → Inv w
      → All (SentOk w.nodes) sent
      → Inv (record w { sent = sent })
  Inv-sent w sent v h = record {
    unique = v.unique;
    hosts = v.hosts;
    phases = v.phases;
    replies = h;
  }

  pub broadcast-SentOk :
      (t : NodeTable) (write_ok : ℕ → Bool) (nodes : List Node) (conns : List (String × ℕ))
      (sent : List (ℕ × ServerMessage))
      → All (SentOk t) sent
      → All (SentOk t) (broadcast write_ok nodes conns sent)
  unfolding broadcast
  broadcast-SentOk t write_ok nodes [] sent h = h
  broadcast-SentOk t write_ok nodes ((key, c) ∷ conns) sent h =
      broadcast-SentOk t write_ok nodes conns _
        (elim (Bool-cases (write_ok c)) [ inl fine ↦ rw fine (tt, h) | inr lost ↦ rw lost h ])
