-- ===== src/Traefik/Transports.antt =====
-- The transport that an http service names is in the configuration.
use rv_tx.Base.{
  ℕ, ◌≡◌, ◌⊎◌, refl, sym, ◌∙◌, subst, String, some, List, [], ◌∷◌, inl, inr, Bool-cases, ◌==◌,
  arith, eq_iff,
}
use mathlib.Core.Option.{some-injective}
use rv_tx.Base.Dict.{Dict, lookup, insert, lookup-insert}
use rv_tx.Db.Listing.{ResourceWithTargets}
use rv_tx.Traefik.{
  Config, ProtocolConfig, LoadBalancer, ServersTransport, insecure, is_insecure, transport_name,
  no_protocol, or_new, add_http, add_resource, add_resources, generate, http_service,
}

-- A transport that skips the verification of certificates is bound to the name, if one is needed.
abbrev pub IsDefined : Dict ServersTransport → String → Type 0
IsDefined transports key = (key ≡ "") ⊎ (lookup key transports ≡ some insecure)

abbrev pub AreDefined : ProtocolConfig → Type 0
AreDefined p =
    (name : String) (s : LoadBalancer)
    → lookup name p.services ≡ some s
    → IsDefined p.servers_transports s.servers_transport

kept :
    (key : String) (transports : Dict ServersTransport) (k : String)
    → IsDefined transports k
    → IsDefined (insert key insecure transports) k
kept key transports k (inl e) = inl e
kept key transports k (inr e) = inr (ground (arith, lookup-insert key k insecure transports))

added_own :
    (r : ResourceWithTargets) (p : ProtocolConfig)
    → IsDefined (add_http r p).servers_transports (http_service r).servers_transport
unfolding add_http http_service
added_own r p = elim (Bool-cases (is_insecure r)) [
  | inl e ↦ rw (e) (
      inr (
        ground (
          arith,
          lookup-insert (transport_name r) (transport_name r) insecure p.servers_transports,
          eq_iff (transport_name r) (transport_name r),
        )))
  | inr e ↦ rw (e) (inl refl)
]

added_kept :
    (r : ResourceWithTargets) (p : ProtocolConfig) (k : String)
    → IsDefined p.servers_transports k
    → IsDefined (add_http r p).servers_transports k
unfolding add_http
added_kept r p k h = elim (Bool-cases (is_insecure r)) [
  | inl e ↦ rw e (kept (transport_name r) p.servers_transports k h)
  | inr e ↦ rw e h
]

added-AreDefined :
    (r : ResourceWithTargets) (p : ProtocolConfig) → AreDefined p → AreDefined (add_http r p)
unfolding add_http
added-AreDefined r p h name s e =
    let at = lookup-insert r.name name (http_service r) p.services in
    elim (Bool-cases (r.name == name)) [
      | inl same ↦
          let is : http_service r ≡ s = some-injective _ _ (sym (at ∙ rw same refl) ∙ e) in
          subst
            (λ (s : LoadBalancer). IsDefined (add_http r p).servers_transports s.servers_transport)
            is (added_own r p)
      | inr other ↦
          let is : lookup name p.services ≡ some s = sym (at ∙ rw other refl) ∙ e in
          added_kept r p s.servers_transport (h name s is)
    ]

resource-AreDefined :
    (now : ℕ) (r : ResourceWithTargets) (cfg : Config)
    → AreDefined (or_new no_protocol cfg.http)
    → AreDefined (or_new no_protocol (add_resource now r cfg).http)
unfolding add_resource
resource-AreDefined now r cfg h = elim (Bool-cases (r.protocol == "http")) [
  | inl e ↦ rw e (added-AreDefined r (or_new no_protocol cfg.http) h)
  | inr e ↦ elim (Bool-cases (r.protocol == "tcp")) [
    | inl f ↦ rw (e, f) h
    | inr f ↦ elim (Bool-cases (r.protocol == "udp")) [
      | inl g ↦ rw (e, f, g) h
      | inr g ↦ rw (e, f, g) h
    ]
  ]
]

resources-AreDefined :
    (now : ℕ) (rs : List ResourceWithTargets) (cfg : Config)
    → AreDefined (or_new no_protocol cfg.http)
    → AreDefined (or_new no_protocol (add_resources now rs cfg).http)
unfolding add_resources
resources-AreDefined now [] cfg h = h
resources-AreDefined now (r ∷ rs) cfg h =
    resources-AreDefined now rs (add_resource now r cfg) (resource-AreDefined now r cfg h)

-- Every http service of the configuration that names a transport names one that is there and that
-- skips the verification of certificates.
pub generate-IsDefined :
    (now : ℕ) (rs : List ResourceWithTargets) (name : String) (s : LoadBalancer)
    → lookup name (or_new no_protocol (generate now rs).http).services ≡ some s
    → IsDefined (or_new no_protocol (generate now rs).http).servers_transports s.servers_transport
unfolding generate lookup
generate-IsDefined now rs name s e = resources-AreDefined now rs _ (λ n q f. cc) name s e
