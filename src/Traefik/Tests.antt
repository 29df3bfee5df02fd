-- ===== src/Traefik/Tests.antt =====
-- Configurations of a few resources, and the theorems at them.
use rv_tx.Base.{ℕ, ◌≡◌, ◌*◌, refl, inl, inr, true, false, some, none, [], ◌∷◌, arith}
use rv_tx.Base.Text.{pos, itoa, cut_prefix, replace_all}
use rv_tx.Base.Dict.{lookup, insert}
use rv_tx.Db.Listing.{Target, ResourceWithTargets}
use rv_tx.Traefik.{
  LoadBalancer, host_rule, router_tls, http_router, http_service, tcp_router, udp_router,
  stream_service, add_http, add_tcp, add_udp, add_resource, generate, by_role, no_protocol, or_new,
  select_master_backup_target,
}
use rv_tx.Traefik.Select.{IsUp, select-up, select-down}
use rv_tx.Traefik.Generate.{http_of, tcp_of, udp_of, made_of, last_named, generate_binds}
use rv_tx.Traefik.Transports.{IsDefined, generate-IsDefined}

wildcard_rule : host_rule "*.a.example.com" ≡ "HostRegexp(`^[^.]+\\.a\\.example\\.com$`)"
unfolding host_rule cut_prefix replace_all
wildcard_rule = refl

plain_rule : host_rule "example.com" ≡ "Host(`example.com`)"
unfolding host_rule cut_prefix
plain_rule = refl

abbrev second : ℕ
second = 1000000000

abbrev primary : Target
primary = record {
  address = "10.8.0.1";
  port = pos 5432;
  role = "primary";
  external = false;
  last_seen = some (100 * second);
  node_name = some "edge";
}

abbrev backup : Target
backup = record {
  address = "192.168.1.9";
  port = pos 5433;
  role = "backup";
  external = true;
  last_seen = none;
  node_name = none;
}

-- 45 seconds after its heartbeat the primary is still selected; a nanosecond later it is not.
select-up_example :
    (select_master_backup_target (145 * second) (primary ∷ backup ∷ []) ≡ primary)
    × (select_master_backup_target (145 * second) (backup ∷ primary ∷ []) ≡ primary)
select-up_example =
    select-up (145 * second) primary backup refl refl (inr (100 * second, refl, omega arith))

late : ¬ IsUp 145000000001 primary
late = λ up. elim up [ inl e ↦ cc | inr (seen, is, le) ↦ ground arith ]

select-down_example :
    (select_master_backup_target 145000000001 (primary ∷ backup ∷ []) ≡ backup)
    × (select_master_backup_target 145000000001 (backup ∷ primary ∷ []) ≡ backup)
select-down_example = select-down 145000000001 primary backup refl refl late

abbrev web : ResourceWithTargets
web = record {
  name = "proxmox";
  protocol = "http";
  domain = some "*.example.com";
  entry_point = "websecure";
  cert_resolver = some "le";
  target_scheme = "https";
  target_skip_verify = true;
  sticky = true;
  targets = primary ∷ backup ∷ [];
}

abbrev pg : ResourceWithTargets
pg = record web { name = "pg"; protocol = "tcp"; domain = none; entry_point = "pg" }

abbrev dns : ResourceWithTargets
dns = record pg { name = "dns"; protocol = "udp"; entry_point = "dns" }

abbrev web_service : LoadBalancer
web_service = record {
  servers =
      record { url = "https://10.8.0.1:5432"; address = "" }
      ∷ record { url = "https://192.168.1.9:5433"; address = "" }
      ∷ [];
  sticky = some "rvtx_lb_proxmox";
  health_check = some (record { path = "/"; interval = "10s"; timeout = "3s" });
  servers_transport = "proxmox-insecure";
}

abbrev pg_service : LoadBalancer
pg_service = record {
  servers = record { url = ""; address = "192.168.1.9:5433" } ∷ [];
  sticky = none;
  health_check = none;
  servers_transport = "";
}

web_config : http_of "proxmox" (generate 0 (dns ∷ web ∷ pg ∷ [])) ≡ (
  some (record {
    rule = "HostRegexp(`^[^.]+\\.example\\.com$`)";
    service = "proxmox";
    entry_points = "websecure" ∷ [];
    tls = some (record { cert_resolver = "le"; domains = "*.example.com" ∷ [] });
  }),
  some web_service,
)
unfolding generate add_resource add_http add_tcp add_udp insert lookup http_router router_tls
    host_rule cut_prefix replace_all http_service itoa
web_config = refl

pg_config : tcp_of "pg" (generate (200 * second) (dns ∷ web ∷ pg ∷ [])) ≡ (
  some (record { rule = "HostSNI(`*`)"; service = "pg"; entry_points = "pg" ∷ []; tls = none }),
  some pg_service,
)
unfolding generate add_resource add_http add_tcp add_udp insert lookup tcp_router stream_service
    select_master_backup_target by_role itoa
pg_config = refl

generate_binds_example :
    (http_of "pg" (generate 0 (dns ∷ web ∷ pg ∷ []))
      ≡ made_of
          (λ r. (some (http_router r), some (http_service r)))
          (last_named "http" "pg" (dns ∷ web ∷ pg ∷ []))
          (none, none))
    × (tcp_of "pg" (generate 0 (dns ∷ web ∷ pg ∷ []))
        ≡ made_of
            (λ r. (some (tcp_router r), some (stream_service 0 r)))
            (last_named "tcp" "pg" (dns ∷ web ∷ pg ∷ []))
            (none, none))
    × (udp_of "pg" (generate 0 (dns ∷ web ∷ pg ∷ []))
        ≡ made_of
            (λ r. (some (udp_router r), some (stream_service 0 r)))
            (last_named "udp" "pg" (dns ∷ web ∷ pg ∷ []))
            (none, none))
generate_binds_example = generate_binds 0 "pg" (dns ∷ web ∷ pg ∷ [])

web_bound :
    lookup "proxmox" (or_new no_protocol (generate 0 (web ∷ [])).http).services ≡ some web_service
unfolding generate add_resource add_http insert lookup http_service itoa
web_bound = refl

generate-IsDefined_example :
    IsDefined
      (or_new no_protocol (generate 0 (web ∷ [])).http).servers_transports
      "proxmox-insecure"
generate-IsDefined_example = generate-IsDefined 0 (web ∷ []) "proxmox" web_service web_bound
