-- ===== src/WsServer/Ids.antt =====
-- The ids of the nodes under the steps of the handlers.
use rv_tx.Base.{ℕ, inl, inr, String, Option, none, some, Bool-cases, Option-cases, ◌==◌}
use rv_tx.Mesh.{Alloc, allocated, allocate_ip}
use rv_tx.Protocol.{AgentMessage, heartbeat}
use rv_tx.Db.Node.{used_mesh_ips, upsert_node}
use rv_tx.Db.Node.Ids.{KeepsIds, upsert_node-KeepsIds, touch_last_seen-KeepsIds}
use rv_tx.WsServer.{
  Phase, unopened, reading, allocating, upserting, replying, touching, closing, World, Env, goto,
  update, upsert_of, act, advance, on_read, on_phase, when_unopened, receive, open_conn, Event,
  opens, reads, runs, step,
}

module _ (cidr : String) (w : World) where
  abbrev Grows : World → Type 0
  Grows w' = KeepsIds w.nodes w'.nodes

  act-Grows : (env : Env) (c : ℕ) (phase : Phase) → Grows (act cidr env c phase w)
  unfolding act
  act-Grows env c (allocating p) = elim (Bool-cases env.db_ok) [
    | inr lost ↦ rw lost (λ id h. h)
    | inl fine ↦ rw fine (allocation (allocate_ip cidr (used_mesh_ips w.nodes)))
  ]
    where
      allocation :
          (r : Alloc)
          → Grows (elim r [ allocated ip ↦ goto c (upserting p ip) w | _ ↦ goto c reading w ])
      allocation (allocated ip) id h = h
      allocation _ id h = h
  act-Grows env c (upserting p ip) = elim (Bool-cases env.db_ok) [
    | inr lost ↦ rw lost (λ id h. h)
    | inl fine ↦
        let u = upsert_of (w.session c).remote_host env.now p ip in
        rw fine (elim (Option-cases (upsert_node u w.nodes)) [
          | inl refused ↦ rw refused (λ id h. h)
          | inr ((t', mesh_ip), e) ↦ rw e (upsert_node-KeepsIds u w.nodes e)
        ])
  ]
  act-Grows env c touching = elim (Bool-cases env.db_ok) [
    | inr lost ↦ rw lost (λ id h. h)
    | inl fine ↦ rw fine (touch_last_seen-KeepsIds (w.session c).public_key env.now w.nodes)
  ]
  act-Grows env c (replying p ip nodes) = elim (Bool-cases (env.write_ok c)) [
    | inl fine ↦ rw fine (λ id h. h)
    | inr lost ↦ rw lost (λ id h. h)
  ]
  act-Grows env c closing = elim (Bool-cases ((w.session c).public_key == "")) [
    | inl anonymous ↦ rw anonymous (λ id h. h)
    | inr known ↦ rw known (λ id h. h)
  ]
  act-Grows env c _ = λ id h. h

  receive-Grows : (c : ℕ) (m : Option AgentMessage) → Grows (receive c m w)
  unfolding receive on_read
  receive-Grows c m = dispatched (w.session c).phase
    where
      read : (m : Option AgentMessage) → Grows (on_read c m w)
      read none = λ id h. h
      read (some heartbeat) = elim (Bool-cases ((w.session c).public_key == "")) [
        | inl anonymous ↦ rw anonymous (λ id h. h)
        | inr known ↦ rw known (λ id h. h)
      ]
      read (some _) = λ id h. h

      dispatched : (phase : Phase) → Grows (on_phase phase (on_read c m w) w)
      dispatched reading = read m
      dispatched _ = λ id h. h

  open_conn-Grows : (c : ℕ) (host : String) → Grows (open_conn c host w)
  unfolding open_conn
  open_conn-Grows c host = dispatched (w.session c).phase
    where
      opened : World
      opened = record w {
        session =
            update w.session c (record { remote_host = host; public_key = ""; phase = reading });
      }

      dispatched : (phase : Phase) → Grows (when_unopened phase opened w)
      dispatched unopened = λ id h. h
      dispatched _ = λ id h. h

  pub step-KeepsIds : (e : Event) → KeepsIds w.nodes (step cidr w e).nodes
  unfolding step advance
  step-KeepsIds (opens c host) = open_conn-Grows c host
  step-KeepsIds (reads c m) = receive-Grows c m
  step-KeepsIds (runs c env) = act-Grows env c (w.session c).phase
