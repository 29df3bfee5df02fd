-- ===== src/WsServer/Invariant/Steps.antt =====
-- Each step of the handlers keeps the invariant, and so does a run.
use rv_tx.Base.{
  ℕ, ◌≡◌, refl, ◌∙◌, inl, inr, String, Option, none, some, List, [], ◌∷◌, ◌==◌, Bool-cases,
  Option-cases,
}
use rv_tx.Mesh.{Alloc, allocated, allocate_ip}
use rv_tx.Mesh.Outcome.{IsHost, allocate_ip-IsHost}
use rv_tx.Protocol.{RegisterPayload, AgentMessage, register, heartbeat}
use rv_tx.Base.Dict.{insert, delete}
use rv_tx.Db.Node.{list_nodes, NodeTable, Upsert, used_mesh_ips, upsert_node, touch_last_seen}
use rv_tx.Db.Node.Unique.{
  upserted-IsUnique, touched-IsUnique, upserted-All_ips, upserted_ip, touched-ips,
}
use rv_tx.Db.Node.Address.{upsert-address, upsert-keeps_address, touch-keeps_address}
use rv_tx.WsServer.{
  Phase, unopened, reading, allocating, upserting, storing, listing, replying, touching, relisting,
  broadcasting, closing, closed, Session, World, Env, goto, update, upsert_of, act, advance,
  broadcast, on_read, on_phase, when_unopened, receive, open_conn, Event, opens, reads, runs, step,
  run,
}
use rv_tx.WsServer.Invariant.{
  PhaseOk, Inv, Inv-nodes, Inv-session, Inv-goto, Inv-conns, Inv-sent, broadcast-SentOk,
}

module _ (cidr : String) where
  module _ (env : Env) (c : ℕ) (w : World) (v : Inv cidr w) where
    allocating-Inv : (p : RegisterPayload) → Inv cidr (act cidr env c (allocating p) w)
    unfolding act
    allocating-Inv p = elim (Bool-cases env.db_ok) [
      | inr lost ↦ rw lost (Inv-goto cidr w c reading v tt)
      | inl fine ↦ rw fine (allocation-Inv _ refl)
    ]
      where
        allocation-Inv :
            (r : Alloc)
            → allocate_ip cidr (used_mesh_ips w.nodes) ≡ r
            → Inv cidr (elim (allocate_ip cidr (used_mesh_ips w.nodes)) [
              | allocated ip ↦ goto c (upserting p ip) w
              | _ ↦ goto c reading w
            ])
        allocation-Inv (allocated ip) e =
            rw e (Inv-goto cidr w c (upserting p ip) v (allocate_ip-IsHost cidr _ ip e))
        allocation-Inv _ e = rw e (Inv-goto cidr w c reading v tt)

    upserting-Inv :
        (p : RegisterPayload) (ip : String)
        → IsHost cidr ip
        → Inv cidr (act cidr env c (upserting p ip) w)
    unfolding act
    upserting-Inv p ip host = elim (Bool-cases env.db_ok) [
      | inr lost ↦ rw lost (Inv-goto cidr w c reading v tt)
      | inl fine ↦ rw fine (elim (Option-cases (upsert_node u w.nodes)) [
        | inl refused ↦ rw refused (Inv-goto cidr w c reading v tt)
        | inr ((t', mesh_ip), e) ↦ rw e (
            Inv-goto cidr (record w { nodes = t' }) c (storing p mesh_ip)
              (Inv-nodes cidr w t' v (λ name known k. upsert-keeps_address name u w.nodes k e)
                (upserted-IsUnique u w.nodes v.unique e)
                (upserted-All_ips (IsHost cidr) u w.nodes v.hosts host e))
              (record {
                stored = upsert-address u w.nodes e;
                host = upserted_ip (IsHost cidr) u w.nodes v.hosts host e;
              }))
      ])
    ]
      where
        u : Upsert
        u = upsert_of (w.session c).remote_host env.now p ip

    touching-Inv : Inv cidr (act cidr env c touching w)
    unfolding act
    touching-Inv = elim (Bool-cases env.db_ok) [
      | inr lost ↦ rw lost (Inv-goto cidr w c reading v tt)
      | inl fine ↦ rw fine (
          Inv-goto cidr (record w { nodes = t' }) c relisting
            (Inv-nodes cidr w t' v
              (λ name ip k. touch-keeps_address name (w.session c).public_key env.now w.nodes ∙ k)
              (touched-IsUnique (w.session c).public_key env.now w.nodes v.unique)
              (rw (touched-ips (w.session c).public_key env.now w.nodes) v.hosts))
            tt)
    ]
      where
        t' : NodeTable
        t' = touch_last_seen (w.session c).public_key env.now w.nodes

    act-Inv : (phase : Phase) → PhaseOk cidr w.nodes phase → Inv cidr (act cidr env c phase w)
    unfolding act
    act-Inv (allocating p) ok = allocating-Inv p
    act-Inv (upserting p ip) ok = upserting-Inv p ip ok
    act-Inv (storing p ip) ok =
        Inv-goto cidr (record w { conns = insert p.public_key c w.conns }) c (listing p ip)
          (Inv-conns cidr w _ v) ok
    act-Inv (listing p ip) ok = elim (Bool-cases env.db_ok) [
      | inl fine ↦ rw fine (Inv-goto cidr w c (replying p ip (list_nodes w.nodes)) v ok)
      | inr lost ↦ rw lost (Inv-goto cidr w c reading v tt)
    ]
    act-Inv (replying p ip nodes) ok = elim (Bool-cases (env.write_ok c)) [
      | inl fine ↦ rw fine (
          Inv-goto cidr (record w { sent = _ ∷ w.sent }) c (broadcasting nodes)
            (Inv-sent cidr w _ v ((p.name, ok), v.replies)) tt)
      | inr lost ↦ rw lost (Inv-goto cidr w c reading v tt)
    ]
    act-Inv touching ok = touching-Inv
    act-Inv relisting ok = elim (Bool-cases env.db_ok) [
      | inl fine ↦ rw fine (Inv-goto cidr w c (broadcasting (list_nodes w.nodes)) v tt)
      | inr lost ↦ rw lost (Inv-goto cidr w c reading v tt)
    ]
    act-Inv (broadcasting nodes) ok =
        Inv-goto cidr (record w { sent = broadcast env.write_ok nodes w.conns w.sent }) c reading
          (Inv-sent cidr w _ v
            (broadcast-SentOk cidr w.nodes env.write_ok nodes w.conns w.sent v.replies))
          tt
    act-Inv closing ok = elim (Bool-cases ((w.session c).public_key == "")) [
      | inl anonymous ↦ rw anonymous (Inv-goto cidr w c closed v tt)
      | inr known ↦ rw known (
          Inv-goto cidr (record w { conns = delete (w.session c).public_key w.conns }) c closed
            (Inv-conns cidr w _ v) tt)
    ]
    act-Inv _ ok = v

  advance-Inv : (env : Env) (c : ℕ) (w : World) → Inv cidr w → Inv cidr (advance cidr env c w)
  unfolding advance
  advance-Inv env c w v = act-Inv env c w v (w.session c).phase (v.phases c)

  on_read-Inv :
      (c : ℕ) (m : Option AgentMessage) (w : World) → Inv cidr w → Inv cidr (on_read c m w)
  unfolding on_read
  on_read-Inv c none w v = Inv-goto cidr w c closing v tt
  on_read-Inv c (some (register p)) w v = Inv-session cidr w c _ v tt
  on_read-Inv c (some heartbeat) w v = elim (Bool-cases ((w.session c).public_key == "")) [
    | inl anonymous ↦ rw anonymous v
    | inr known ↦ rw known (Inv-goto cidr w c touching v tt)
  ]
  on_read-Inv c (some _) w v = v

  receive-Inv :
      (c : ℕ) (m : Option AgentMessage) (w : World) → Inv cidr w → Inv cidr (receive c m w)
  unfolding receive
  receive-Inv c m w v = dispatched (w.session c).phase
    where
      dispatched : (phase : Phase) → Inv cidr (on_phase phase (on_read c m w) w)
      dispatched reading = on_read-Inv c m w v
      dispatched _ = v

  open_conn-Inv : (c : ℕ) (host : String) (w : World) → Inv cidr w → Inv cidr (open_conn c host w)
  unfolding open_conn
  open_conn-Inv c host w v = dispatched (w.session c).phase
    where
      opened : Session
      opened = record { remote_host = host; public_key = ""; phase = reading }

      dispatched :
          (phase : Phase)
          → Inv cidr (when_unopened phase (record w { session = update w.session c opened }) w)
      dispatched unopened = Inv-session cidr w c _ v tt
      dispatched _ = v

  pub step-Inv : (w : World) (e : Event) → Inv cidr w → Inv cidr (step cidr w e)
  unfolding step
  step-Inv w (opens c host) v = open_conn-Inv c host w v
  step-Inv w (reads c m) v = receive-Inv c m w v
  step-Inv w (runs c env) v = advance-Inv env c w v

  pub run-Inv : (w : World) (events : List Event) → Inv cidr w → Inv cidr (run cidr w events)
  unfolding run
  run-Inv w [] v = v
  run-Inv w (e ∷ events) v = run-Inv (step cidr w e) events (step-Inv w e v)
