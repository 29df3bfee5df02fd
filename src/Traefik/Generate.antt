-- ===== src/Traefik/Generate.antt =====
-- What `Generate` binds each name to.
use rv_tx.Base.{
  ℕ, ◌≡◌, ◌≢◌, refl, sym, ◌∙◌, ap, String, ◌&&◌, Option, none, some, List, [], ◌∷◌, Option-cases,
  inl, inr, if◌then◌else◌, ◌==◌, arith, eq_iff,
}
use rv_tx.Base.Dict.{lookup, lookup-insert}
use rv_tx.Db.Listing.{ResourceWithTargets}
use rv_tx.Traefik.{
  Config, Router, LoadBalancer, UdpRouter, no_protocol, no_udp, or_new, add_http, add_tcp, add_udp,
  add_resource, add_resources, generate, http_router, http_service, tcp_router, stream_service,
  udp_router,
}

-- The last resource of a protocol and a name.
unfoldable pub last_named : String → String → List ResourceWithTargets → Option ResourceWithTargets
last_named protocol name [] = none
last_named protocol name (r ∷ rs) = elim (last_named protocol name rs) [
  | some q ↦ some q
  | none ↦ if r.protocol == protocol && r.name == name then some r else none
]

-- The parts of a configuration that a name is bound to: a router and a service under each protocol.
abbrev pub http_of : String → Config → Option Router × Option LoadBalancer
http_of name cfg =
    let p = or_new no_protocol cfg.http in (lookup name p.routers, lookup name p.services)

abbrev pub tcp_of : String → Config → Option Router × Option LoadBalancer
tcp_of name cfg =
    let p = or_new no_protocol cfg.tcp in (lookup name p.routers, lookup name p.services)

abbrev pub udp_of : String → Config → Option UdpRouter × Option LoadBalancer
udp_of name cfg = let p = or_new no_udp cfg.udp in (lookup name p.routers, lookup name p.services)

http_tcp : ◌≢◌ {A = String} "http" "tcp"
http_tcp = ground (arith, eq_iff "http" "tcp")

http_udp : ◌≢◌ {A = String} "http" "udp"
http_udp = ground (arith, eq_iff "http" "udp")

tcp_udp : ◌≢◌ {A = String} "tcp" "udp"
tcp_udp = ground (arith, eq_iff "tcp" "udp")

module _ (now : ℕ) (name : String) where
  added_http :
      (r : ResourceWithTargets) (cfg : Config)
      → http_of name (add_resource now r cfg) ≡ (
          if r.protocol == "http" && r.name == name
          then (some (http_router r), some (http_service r))
          else http_of name cfg)
  unfolding add_resource add_http
  added_http r cfg = ground (
    arith,
    lookup-insert r.name name (http_router r) (or_new no_protocol cfg.http).routers,
    lookup-insert r.name name (http_service r) (or_new no_protocol cfg.http).services,
  )

  added_tcp :
      (r : ResourceWithTargets) (cfg : Config)
      → tcp_of name (add_resource now r cfg) ≡ (
          if r.protocol == "tcp" && r.name == name
          then (some (tcp_router r), some (stream_service now r))
          else tcp_of name cfg)
  unfolding add_resource add_tcp
  added_tcp r cfg =
      let d = http_tcp in
      ground (
        arith,
        eq_iff r.protocol "http",
        eq_iff r.protocol "tcp",
        lookup-insert r.name name (tcp_router r) (or_new no_protocol cfg.tcp).routers,
        lookup-insert r.name name (stream_service now r) (or_new no_protocol cfg.tcp).services,
      )

  added_udp :
      (r : ResourceWithTargets) (cfg : Config)
      → udp_of name (add_resource now r cfg) ≡ (
          if r.protocol == "udp" && r.name == name
          then (some (udp_router r), some (stream_service now r))
          else udp_of name cfg)
  unfolding add_resource add_udp
  added_udp r cfg =
      let d = http_udp in
      let d2 = tcp_udp in
      ground (
        arith,
        eq_iff r.protocol "http",
        eq_iff r.protocol "udp",
        eq_iff r.protocol "tcp",
        lookup-insert r.name name (udp_router r) (or_new no_udp cfg.udp).routers,
        lookup-insert r.name name (stream_service now r) (or_new no_udp cfg.udp).services,
      )

abbrev pub made_of {ℓ} :
    {A : Type ℓ} → (ResourceWithTargets → A) → Option ResourceWithTargets → A → A
made_of made none before = before
made_of made (some r) before = made r

last_named-cons :
    {A : Type 0} (made : ResourceWithTargets → A) (protocol name : String) (r : ResourceWithTargets)
    (rs : List ResourceWithTargets) (before : A)
    → made_of made (last_named protocol name (r ∷ rs)) before
      ≡ made_of made
          (last_named protocol name rs)
          (if r.protocol == protocol && r.name == name then made r else before)
unfolding last_named
last_named-cons made protocol name r rs before = elim (Option-cases (last_named protocol name rs)) [
  | inl e ↦ rw (e, last_named) (ground arith)
  | inr (q, e) ↦ rw (e, last_named) refl
]

-- What one round does to a part of the configuration, the loop does.
folded :
    {A : Type 0} (now : ℕ) (protocol name : String) (view : Config → A)
    (made : ResourceWithTargets → A)
    → ((r : ResourceWithTargets) (cfg : Config)
        → view (add_resource now r cfg)
          ≡ (if r.protocol == protocol && r.name == name then made r else view cfg))
    → (rs : List ResourceWithTargets) (cfg : Config)
    → view (add_resources now rs cfg) ≡ made_of made (last_named protocol name rs) (view cfg)
unfolding add_resources last_named
folded now protocol name view made one [] cfg = refl
folded now protocol name view made one (r ∷ rs) cfg =
    folded now protocol name view made one rs (add_resource now r cfg)
    ∙ ap (made_of made (last_named protocol name rs)) (one r cfg)
    ∙ sym (last_named-cons made protocol name r rs (view cfg))

-- The configuration binds a name, under http, tcp and udp each, to the router and the service of the
-- last resource of that protocol and name, and to nothing if there is none.
pub generate_binds :
    (now : ℕ) (name : String) (rs : List ResourceWithTargets)
    → (http_of name (generate now rs)
        ≡ made_of
            (λ r. (some (http_router r), some (http_service r)))
            (last_named "http" name rs)
            (none, none))
      × (tcp_of name (generate now rs)
          ≡ made_of
              (λ r. (some (tcp_router r), some (stream_service now r)))
              (last_named "tcp" name rs)
              (none, none))
      × (udp_of name (generate now rs)
          ≡ made_of
              (λ r. (some (udp_router r), some (stream_service now r)))
              (last_named "udp" name rs)
              (none, none))
unfolding generate lookup
generate_binds now name rs = (
  folded now "http" name (http_of name) _ (added_http now name) rs _,
  folded now "tcp" name (tcp_of name) _ (added_tcp now name) rs _,
  folded now "udp" name (udp_of name) _ (added_udp now name) rs _,
)
