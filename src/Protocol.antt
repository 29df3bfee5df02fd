-- ===== src/Protocol.antt =====
-- internal/protocol/protocol.go: the messages between the control plane and the agents. `DecodePayload`
-- restores the struct that the sender put into the envelope, so an envelope is its typed payload.
use rv_tx.Base.{String, List}
use rv_tx.Base.Text.{ℤ}

-- One mesh node as another node sees it.
pub record PeerInfo : Type 0 where
  pub public_key : String
  pub mesh_ip : String
  pub endpoint : String
  pub advertised_subnets : List String

pub record RegisterPayload : Type 0 where
  pub name : String
  pub public_key : String
  pub port : ℤ
  pub endpoint : String
  pub advertised_subnets : List String

pub record RegisteredPayload : Type 0 where
  pub mesh_ip : String
  pub peers : List PeerInfo

pub record PeerListPayload : Type 0 where
  pub peers : List PeerInfo

-- The messages of an agent. `malformed` has a known type and a payload that does not decode, and
-- `unknown` another type.
pub data AgentMessage : Type 0 where
  register : RegisterPayload → AgentMessage
  heartbeat : AgentMessage
  malformed : AgentMessage
  unknown : AgentMessage

-- The messages of the control plane.
pub data ServerMessage : Type 0 where
  registered : RegisteredPayload → ServerMessage
  peer_list : PeerListPayload → ServerMessage
