-- ===== src/Agent/Peers.antt =====
-- The peers after a reconciliation: the desired ones, and those that `wg show` did not list.
use rv_tx.Base.{
  ◌≡◌, refl, sym, subst, ◌∙◌, ap, String, Bool, true, false, not, ◌&&◌, ◌||◌, some, List, [], ◌∷◌,
  any, if◌then◌else◌, ◌==◌, arith, eq_iff, Option-cases, Bool-cases, inl, inr,
}
use rv_tx.Base.Dict.{Dict}
use rv_tx.Protocol.{PeerInfo}
use rv_tx.Agent.{
  System, then_run, remove_args, route_args, set_args, allowed_ips, current_peers, has_route,
  delete_routes, wanted, remove_stale, add_routes, set_peers, reconcile,
}

pub then_run-true :
    {K : Type 0} (r : K × Bool) (next : K → K × Bool) {s' : K}
    → then_run r next ≡ (s', true)
    → (r ≡ (r.0, true)) × (next r.0 ≡ (s', true))
then_run-true (s, true) next e = (refl, e)
then_run-true (s, false) next e = cc

abbrev pub is_key : String → Dict (List String) → Bool
is_key key peers = any (λ (e : String × List String). e.0 == key) peers

-- What the manuals of wg and ip say of the peers of the interface: `wg set` with `remove` takes the
-- peer away and without it adds the peer, and routes are not peers.
pub record IsWireguard {K : Type 0} (sys : System K) (iface : String) (has_peer : K → String → Bool)
    : Type 0 where
  pub removes :
      (key other : String) (s : K)
      → (sys.run (remove_args sys iface key) s).1 ≡ true
      → has_peer (sys.run (remove_args sys iface key) s).0 other
        ≡ (if key == other then false else has_peer s other)
  pub sets :
      (p : PeerInfo) (other : String) (s : K)
      → (sys.run (set_args sys iface p) s).1 ≡ true
      → has_peer (sys.run (set_args sys iface p) s).0 other
        ≡ (if p.public_key == other then true else has_peer s other)
  pub routes :
      (verb cidr other : String) (s : K)
      → has_peer (sys.run (route_args sys iface verb cidr) s).0 other ≡ has_peer s other

module _ {K : Type 0} (sys : System K) (iface : String) (has_peer : K → String → Bool)
    (w : IsWireguard sys iface has_peer) (key : String) where
  peers-delete_routes :
      (cidrs : List String) (s : K)
      → has_peer (delete_routes sys iface cidrs s) key ≡ has_peer s key
  unfolding delete_routes
  peers-delete_routes [] s = refl
  peers-delete_routes (c ∷ cidrs) s =
      peers-delete_routes cidrs (sys.run (route_args sys iface "del" c) s).0
      ∙ w.routes "del" c key s

  peers-add_routes :
      (cidrs : List String) (s : K) {s' : K}
      → add_routes sys iface cidrs s ≡ (s', true)
      → has_peer s' key ≡ has_peer s key
  unfolding add_routes
  peers-add_routes [] s e = ap (λ (r : K × Bool). has_peer r.0 key) (sym e)
  peers-add_routes (c ∷ cidrs) s e = elim (Option-cases (has_route sys iface c s)) [
    | inl bad ↦ let e' = rw (bad, add_routes) at e in cc
    | inr (b, shown) ↦ elim (Bool-cases b) [
      | inl there ↦ peers-add_routes cidrs s (rw (shown, add_routes, there) at e)
      | inr missing ↦
          let e' = rw (shown, add_routes, missing) at e in
          let rest = (then_run-true (sys.run (route_args sys iface "add" c) s) _ e').1 in
          peers-add_routes cidrs _ rest ∙ w.routes "add" c key s
    ]
  ]

  as_peer :
      (desired : List PeerInfo) (other : String) (b : Bool)
      → wanted sys iface desired other ≡ b
      → other ≡ key
      → wanted sys iface desired key ≡ b
  as_peer desired other b e same = subst (λ k. wanted sys iface desired k ≡ b) same e

  peers-remove_stale :
      (desired : List PeerInfo) (peers : Dict (List String)) (s : K) {s' : K}
      → remove_stale sys iface desired peers s ≡ (s', true)
      → has_peer s' key
        ≡ (has_peer s key && not (is_key key peers && not (wanted sys iface desired key)))
  unfolding remove_stale
  peers-remove_stale desired [] s e = ap (λ (r : K × Bool). has_peer r.0 key) (sym e) ∙ ground arith
  peers-remove_stale desired (peer ∷ peers) s e =
      elim (Bool-cases (wanted sys iface desired peer.0)) [
        | inl keeps ↦
            let rest = peers-remove_stale desired peers s (rw (keeps, remove_stale) at e) in
            let same = as_peer desired peer.0 true keeps in ground (arith, eq_iff peer.0 key)
        | inr drops ↦
            let (ran, e') =
              then_run-true (sys.run (remove_args sys iface peer.0) s) _
                (rw (drops, remove_stale) at e) in
            let s1 = (sys.run (remove_args sys iface peer.0) s).0 in
            let rest = peers-remove_stale desired peers (delete_routes sys iface peer.1 s1) e' in
            let routes = peers-delete_routes peer.1 s1 in
            let removed = w.removes peer.0 key s (ap (λ (r : K × Bool). r.1) ran) in
            let same = as_peer desired peer.0 false drops in ground (arith, eq_iff peer.0 key)
      ]

  peers-set_peers :
      (ps : List PeerInfo) (s : K) {s' : K}
      → set_peers sys iface ps s ≡ (s', true)
      → has_peer s' key ≡ (wanted sys iface ps key || has_peer s key)
  unfolding set_peers wanted
  peers-set_peers [] s e = ap (λ (r : K × Bool). has_peer r.0 key) (sym e)
  peers-set_peers (p ∷ ps) s e =
      let (ran, e1) = then_run-true (sys.run (set_args sys iface p) s) _ e in
      let s1 = (sys.run (set_args sys iface p) s).0 in
      let (added, e2) = then_run-true (add_routes sys iface (allowed_ips sys iface p) s1) _ e1 in
      let s2 = (add_routes sys iface (allowed_ips sys iface p) s1).0 in
      let rest = peers-set_peers ps s2 e2 in
      let routes = peers-add_routes (allowed_ips sys iface p) s1 added in
      let put = w.sets p key s (ap (λ (r : K × Bool). r.1) ran) in ground arith

  -- If the commands act on the peers as they are documented to, and the range over the read peers
  -- visits their keys: after a reconciliation that succeeds, a peer is on the interface exactly if
  -- it is desired, or was on it and is not in the output of `wg show` that was read.
  pub reconcile-peers :
      (range : Dict (List String) → Dict (List String)) (desired : List PeerInfo) (s : K) {s' : K}
      {current : Dict (List String)}
      → ((m : Dict (List String)) → is_key key (range m) ≡ is_key key m)
      → current_peers sys iface s ≡ some current
      → reconcile sys iface range desired s ≡ (s', true)
      → has_peer s' key
        ≡ (wanted sys iface desired key || (has_peer s key && not (is_key key current)))
  unfolding reconcile
  reconcile-peers range desired s {s'} {current} ranged shown e =
      let (removed, e1) =
        then_run-true (remove_stale sys iface desired (range current) s) _
          (rw (shown, reconcile) at e) in
      let s1 = (remove_stale sys iface desired (range current) s).0 in
      let gone = peers-remove_stale desired (range current) s removed in
      let put = peers-set_peers desired s1 e1 in let same = ranged current in ground arith
