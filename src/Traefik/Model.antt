-- ===== src/Traefik/Model.antt =====
-- internal/controlplane/traefikconfig/traefikconfig.go: the types of the configuration.
use rv_tx.Base.{String, Bool, Option, none, some, List, []}
use rv_tx.Base.Dict.{Dict}

pub record ServersTransport : Type 0 where
  pub insecure_skip_verify : Bool

pub record RouterTls : Type 0 where
  pub cert_resolver : String
  pub domains : List String

pub record Router : Type 0 where
  pub rule : String
  pub service : String
  pub entry_points : List String
  pub tls : Option RouterTls

pub record HealthCheck : Type 0 where
  pub path : String
  pub interval : String
  pub timeout : String

pub record Server : Type 0 where
  pub url : String
  pub address : String

-- `sticky` is the name of its cookie.
pub record LoadBalancer : Type 0 where
  pub servers : List Server
  pub sticky : Option String
  pub health_check : Option HealthCheck
  pub servers_transport : String

pub record ProtocolConfig : Type 0 where
  pub routers : Dict Router
  pub services : Dict LoadBalancer
  pub servers_transports : Dict ServersTransport

pub record UdpRouter : Type 0 where
  pub service : String
  pub entry_points : List String

pub record UdpProtocolConfig : Type 0 where
  pub routers : Dict UdpRouter
  pub services : Dict LoadBalancer

pub record Config : Type 0 where
  pub http : Option ProtocolConfig
  pub tcp : Option ProtocolConfig
  pub udp : Option UdpProtocolConfig

abbrev pub no_protocol : ProtocolConfig
no_protocol = record { routers = []; services = []; servers_transports = [] }

abbrev pub no_udp : UdpProtocolConfig
no_udp = record { routers = []; services = [] }

-- The map that a nil pointer is given.
abbrev pub or_new {ℓ} : {A : Type ℓ} → A → Option A → A
or_new fresh none = fresh
or_new fresh (some a) = a
