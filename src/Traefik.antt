-- ===== src/Traefik.antt =====
-- internal/controlplane/traefikconfig/traefikconfig.go: the dynamic configuration for Traefik. The
-- pointers that are nil until a protocol's first resource are options; times are nanoseconds.
mod Model
pub mod Select
pub mod Generate
pub mod Transports
pub mod Tests
use Prim.Native.String.{◌++◌}
use rv_tx.Base.{
  ℕ, ◌-◌, ◌*◌, String, Bool, true, false, ◌&&◌, Option, none, some, List, [], ◌∷◌, map, leb,
  if◌then◌else◌, ◌==◌,
}
use rv_tx.Base.Dict.{Dict, insert}
use rv_tx.Base.Text.{pos, itoa, cut_prefix, replace_all}
pub use Model.*
use rv_tx.Db.Listing.{Target, ResourceWithTargets}

-- `hostRule`
unfoldable pub host_rule : String → String
host_rule domain = elim (cut_prefix "*." domain) [
  | some suffix ↦ "HostRegexp(`^[^.]+\\." ++ replace_all b'.' "\\." suffix ++ "$`)"
  | none ↦ "Host(`" ++ domain ++ "`)"
]

-- A text that is neither nil nor empty.
abbrev pub given : Option String → Option String
given none = none
given (some s) = if s == "" then none else some s

abbrev pub is_wildcard : Option String → Bool
is_wildcard none = false
is_wildcard (some s) = elim (cut_prefix "*." s) [ some suffix ↦ true | none ↦ false ]

-- The TLS part of an http router.
unfoldable pub router_tls : ResourceWithTargets → Option RouterTls
router_tls r = elim (given r.cert_resolver) [
  | none ↦ none
  | some resolver ↦ some (record {
    cert_resolver = resolver;
    domains = if is_wildcard r.domain then or_new "" r.domain ∷ [] else [];
  })
]

unfoldable pub http_router : ResourceWithTargets → Router
http_router r = record {
  rule = elim (given r.domain) [ none ↦ "PathPrefix(`/`)" | some d ↦ host_rule d ];
  service = r.name;
  entry_points = r.entry_point ∷ [];
  tls = router_tls r;
}

abbrev pub scheme_of : ResourceWithTargets → String
scheme_of r = if r.target_scheme == "" then "http" else r.target_scheme

abbrev pub http_server : String → Target → Server
http_server scheme t = record {
  url = scheme ++ "://" ++ t.address ++ ":" ++ itoa t.port;
  address = "";
}

abbrev pub is_insecure : ResourceWithTargets → Bool
is_insecure r = scheme_of r == "https" && r.target_skip_verify

abbrev pub transport_name : ResourceWithTargets → String
transport_name r = r.name ++ "-insecure"

unfoldable pub http_service : ResourceWithTargets → LoadBalancer
http_service r = record {
  servers = map (http_server (scheme_of r)) r.targets;
  sticky = if r.sticky then some ("rvtx_lb_" ++ r.name) else none;
  health_check =
      if r.sticky then some (record { path = "/"; interval = "10s"; timeout = "3s" }) else none;
  servers_transport = if is_insecure r then transport_name r else "";
}

abbrev pub insecure : ServersTransport
insecure = record { insecure_skip_verify = true }

-- The http case of `Generate`.
unfoldable pub add_http : ResourceWithTargets → ProtocolConfig → ProtocolConfig
add_http r p = record {
  routers = insert r.name (http_router r) p.routers;
  services = insert r.name (http_service r) p.services;
  servers_transports =
      if is_insecure r
      then insert (transport_name r) insecure p.servers_transports
      else p.servers_transports;
}

-- `primaryFreshness`
abbrev pub primary_freshness : ℕ
primary_freshness = 45 * 1000000000

-- The zero value of `db.Target`.
abbrev pub zero_target : Target
zero_target = record {
  address = "";
  port = pos 0;
  role = "";
  external = false;
  last_seen = none;
  node_name = none;
}

-- The loop over the targets: the last primary and the last backup.
unfoldable pub by_role : List Target → Target × Target → Target × Target
by_role [] found = found
by_role (t ∷ ts) (primary, backup) = by_role ts (
  if t.role == "primary" then t else primary,
  if t.role == "primary" then backup else (if t.role == "backup" then t else backup),
)

-- `time.Since(seen) <= primaryFreshness`; a time to come is since less than nothing.
abbrev pub is_fresh : ℕ → Option ℕ → Bool
is_fresh now none = false
is_fresh now (some seen) = leb (now - seen) primary_freshness

abbrev pub preferred : ℕ → Target × Target → Target
preferred now (primary, backup) =
    if primary.external
    then primary
    else (if is_fresh now primary.last_seen then primary else backup)

-- `selectMasterBackupTarget`
unfoldable pub select_master_backup_target : ℕ → List Target → Target
select_master_backup_target now [] = preferred now (by_role [] (zero_target, zero_target))
select_master_backup_target now (t ∷ []) = t
select_master_backup_target now (t ∷ u ∷ ts) =
    preferred now (by_role (t ∷ u ∷ ts) (zero_target, zero_target))

-- The service with the one selected target, of tcp and udp.
unfoldable pub stream_service : ℕ → ResourceWithTargets → LoadBalancer
stream_service now r =
    let t = select_master_backup_target now r.targets in
    record {
      servers = record { url = ""; address = t.address ++ ":" ++ itoa t.port } ∷ [];
      sticky = none;
      health_check = none;
      servers_transport = "";
    }

unfoldable pub tcp_router : ResourceWithTargets → Router
tcp_router r = record {
  rule = elim (given r.domain) [ none ↦ "HostSNI(`*`)" | some d ↦ "HostSNI(`" ++ d ++ "`)" ];
  service = r.name;
  entry_points = r.entry_point ∷ [];
  tls = none;
}

-- The tcp case, and the udp case.
unfoldable pub add_tcp : ℕ → ResourceWithTargets → ProtocolConfig → ProtocolConfig
add_tcp now r p = record p {
  routers = insert r.name (tcp_router r) p.routers;
  services = insert r.name (stream_service now r) p.services;
}

abbrev pub udp_router : ResourceWithTargets → UdpRouter
udp_router r = record { service = r.name; entry_points = r.entry_point ∷ [] }

unfoldable pub add_udp : ℕ → ResourceWithTargets → UdpProtocolConfig → UdpProtocolConfig
add_udp now r p = record p {
  routers = insert r.name (udp_router r) p.routers;
  services = insert r.name (stream_service now r) p.services;
}

-- The switch on the protocol.
unfoldable pub add_resource : ℕ → ResourceWithTargets → Config → Config
add_resource now r cfg =
    if r.protocol == "http"
    then record cfg { http = some (add_http r (or_new no_protocol cfg.http)) }
    else (if r.protocol == "tcp"
        then record cfg { tcp = some (add_tcp now r (or_new no_protocol cfg.tcp)) }
        else (if r.protocol == "udp"
            then record cfg { udp = some (add_udp now r (or_new no_udp cfg.udp)) }
            else cfg))

unfoldable pub add_resources : ℕ → List ResourceWithTargets → Config → Config
add_resources now [] cfg = cfg
add_resources now (r ∷ rs) cfg = add_resources now rs (add_resource now r cfg)

-- `Generate`, at the time `now`.
unfoldable pub generate : ℕ → List ResourceWithTargets → Config
unfolding add_resources
generate now rs = add_resources now rs (record { http = none; tcp = none; udp = none })
