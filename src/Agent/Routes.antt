-- ===== src/Agent/Routes.antt =====
-- The routes after a reconciliation.
use rv_tx.Base.{◌≡◌, String, Bool, true, not, [], ◌∷◌, if◌then◌else◌, ◌==◌}
use rv_tx.Base.Dict.{Dict}
use rv_tx.Protocol.{PeerInfo}
use rv_tx.Base.Trim.{trim_space}
use rv_tx.Agent.{System, route_args, set_args}

-- What the manuals say of the routes through the interface: `ip route add` adds one, `wg set` changes
-- none, and `ip route show` of a prefix prints nothing but for a route of that prefix.
pub record IsRouting {K : Type 0} (sys : System K) (iface : String) (routed : K → String → Bool)
    : Type 0 where
  pub adds :
      (cidr other : String) (s : K)
      → (sys.run (route_args sys iface "add" cidr) s).1 ≡ true
      → routed (sys.run (route_args sys iface "add" cidr) s).0 other
        ≡ (if cidr == other then true else routed s other)
  pub sets :
      (p : PeerInfo) (other : String) (s : K)
      → routed (sys.run (set_args sys iface p) s).0 other ≡ routed s other
  pub shows :
      (cidr : String) (s : K)
      → trim_space (sys.output ("ip" ∷ "route" ∷ "show" ∷ cidr ∷ "dev" ∷ iface ∷ []) s).0 == ""
        ≡ not (routed s cidr)
