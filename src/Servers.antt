-- ===== src/Servers.antt =====
-- dnscrypt-proxy/serversInfo.go: the servers and relays that are registered, and the servers in use.
-- A stamp is what the package for stamps reads from a server's text; the moving average of the
-- latencies, with its floating-point numbers, is of another library.
pub mod Named
pub mod Balancing
pub mod Choice
pub mod Refresh
pub mod Sorting
pub mod Refreshed
pub mod Routes
pub mod Relays
pub mod Fetch
pub mod Targets
pub mod Trust
pub mod Detours
mod Tests
use sourcegraph_testing_dnsc.Base.{
  Bool, Bytes, List, Option, [], bytes_eq, if◌then◌else◌, none, some, true, ℕ, ◌==◌, ◌∷◌,
}
use sourcegraph_testing_dnsc.Crypto.{CryptoConstruction}

pub data StampProto : Type 0 where
  plain dnscrypt doh tls doq odoh_target dnscrypt_relay odoh_relay : StampProto

abbrev pub proto_code : StampProto → ℕ
proto_code plain = 0x00
proto_code dnscrypt = 0x01
proto_code doh = 0x02
proto_code tls = 0x03
proto_code doq = 0x04
proto_code odoh_target = 0x05
proto_code dnscrypt_relay = 0x81
proto_code odoh_relay = 0x85

abbrev pub is_proto : StampProto → StampProto → Bool
is_proto a b = proto_code a == proto_code b

pub record ServerStamp : Type 0 where
  pub server_addr_str : Bytes
  pub server_pk : Bytes
  pub hashes : List Bytes
  pub provider_name : Bytes
  pub path : Bytes
  pub proto : StampProto

pub record RegisteredServer : Type 0 where
  pub name : Bytes
  pub stamp : ServerStamp

-- `net.UDPAddr` and `net.TCPAddr`, and a URL of scheme `https`.
pub record Addr : Type 0 where
  pub ip : Bytes
  pub port : ℕ

pub record Url : Type 0 where
  pub host : Bytes
  pub path : Bytes
  pub raw_query : Bytes

-- A relay of either kind.
pub data Relay : Type 0 where
  dnscrypt_via : Addr → Addr → Relay
  odoh_via : Url → Relay

-- A target's configuration is of oblivious_doh.go: a parameter here.
pub record ServerInfo (A T : Type 0) : Type 0 where
  pub proto : StampProto
  pub name : Bytes
  pub host_name : Bytes
  pub udp_addr : Option Addr
  pub tcp_addr : Option Addr
  pub relay : Option Relay
  pub url : Option Url
  pub initial_rtt : ℕ
  pub timeout : ℕ
  pub crypto_construction : CryptoConstruction
  pub server_pk : Bytes
  pub shared_key : Bytes
  pub magic_query : Bytes
  pub fragments_blocked : Bool
  pub use_get : Bool
  pub odoh_target_configs : List T
  pub rtt : A
  pub last_action_ts : ℕ

-- The package of the moving average, and `float64`.
pub record RttAverage : Type 1 where
  pub Average : Type 0
  pub Float : Type 0
  pub new_moving_average : Average
  pub assign : Float → Average → Average
  pub add : Float → Average → Average
  pub value_of : Average → Float
  pub float_of : ℕ → Float
  pub float_lt : Float → Float → Bool
  pub float_le : Float → Float → Bool
  pub plus : Float → Float → Float
  pub half : Float → Float
  pub times4 : Float → Float

pub data LbStrategy : Type 0 where
  p2 ph first random : LbStrategy
  pn : ℕ → LbStrategy

pub record ServersInfo (A T : Type 0) : Type 0 where
  pub inner : List (ServerInfo A T)
  pub registered_servers : List RegisteredServer
  pub registered_relays : List RegisteredServer
  pub lb_strategy : LbStrategy
  pub lb_estimator : Bool

unfoldable pub new_servers_info : {A T : Type 0} → ServersInfo A T
new_servers_info = record {
  inner = [];
  registered_servers = [];
  registered_relays = [];
  lb_strategy = p2;
  lb_estimator = true;
}

-- The loops that replace the first element of a name.
module _ {A : Type 0} (name_of : A → Bytes) where
  unfoldable pub find_named : Bytes → List A → Option A
  find_named name [] = none
  find_named name (x ∷ xs) = if bytes_eq (name_of x) name then some x else find_named name xs

  unfoldable pub replace_or_append : A → List A → List A
  replace_or_append new [] = new ∷ []
  replace_or_append new (x ∷ xs) =
      if bytes_eq (name_of x) (name_of new) then new ∷ xs else x ∷ replace_or_append new xs

module _ {A T : Type 0} where
  unfoldable pub register_server : Bytes → ServerStamp → ServersInfo A T → ServersInfo A T
  unfolding replace_or_append
  register_server name stamp st =
      let new : RegisteredServer = record { name = name; stamp = stamp } in
      record st { registered_servers = replace_or_append (λ r. r.name) new st.registered_servers }

  unfoldable pub register_relay : Bytes → ServerStamp → ServersInfo A T → ServersInfo A T
  unfolding replace_or_append
  register_relay name stamp st =
      let new : RegisteredServer = record { name = name; stamp = stamp } in
      record st { registered_relays = replace_or_append (λ r. r.name) new st.registered_relays }
