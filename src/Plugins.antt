-- ===== src/Plugins.antt =====
-- dnscrypt-proxy/plugins.go: the state that the plugins of a request share, and running them.
-- A plugin works on a world of its own choice: the cache, a log, the clock.
pub mod Config
pub mod Order
pub mod Pipeline
pub mod Runs
pub mod Outcomes
pub mod Logging
pub mod Names
pub mod Addresses
pub mod Cache
pub mod Forward
pub mod Synthetic
pub mod Dns64
pub mod Cloak
pub mod Ecs
mod Tests
use sourcegraph_testing_dnsc.Base.{Bool, Bytes, Error, Option, [], codes, false, none, some, ℕ, ◌-◌}
use sourcegraph_testing_dnsc.Common.{max_dns_udp_packet_size, max_dns_udp_safe_packet_size}
use sourcegraph_testing_dnsc.Crypto.{response_overhead}
use sourcegraph_testing_dnsc.Dns.{Msg}

pub data PluginsAction : Type 0 where
  action_none action_continue action_drop action_reject action_synth : PluginsAction

pub data PluginsReturnCode : Type 0 where
  code_pass code_forward code_drop code_reject code_synth code_parse_error : PluginsReturnCode
  code_nx_domain code_response_error code_serv_fail code_network_error : PluginsReturnCode
  code_cloak code_server_timeout code_not_ready : PluginsReturnCode

pub plugins_return_code_to_string : PluginsReturnCode → Bytes
plugins_return_code_to_string code_pass = codes "PASS"
plugins_return_code_to_string code_forward = codes "FORWARD"
plugins_return_code_to_string code_drop = codes "DROP"
plugins_return_code_to_string code_reject = codes "REJECT"
plugins_return_code_to_string code_synth = codes "SYNTH"
plugins_return_code_to_string code_parse_error = codes "PARSE_ERROR"
plugins_return_code_to_string code_nx_domain = codes "NXDOMAIN"
plugins_return_code_to_string code_response_error = codes "RESPONSE_ERROR"
plugins_return_code_to_string code_serv_fail = codes "SERVFAIL"
plugins_return_code_to_string code_network_error = codes "NETWORK_ERROR"
plugins_return_code_to_string code_cloak = codes "CLOAK"
plugins_return_code_to_string code_server_timeout = codes "SERVER_TIMEOUT"
plugins_return_code_to_string code_not_ready = codes "NOT_READY"

-- Times are in ns, and 0 is the zero time. `client_ip` is the text of the client's address, and
-- `whitelisted` and `stale` are the entries of `sessionData`.
pub record PluginsState : Type 0 where
  pub request_start : ℕ
  pub request_end : ℕ
  pub client_proto : Bytes
  pub server_name : Bytes
  pub server_proto : Bytes
  pub q_name : Bytes
  pub client_ip : Bytes
  pub synth_response : Option Msg
  pub question_msg : Option Msg
  pub whitelisted : Bool
  pub stale : Option Msg
  pub action : PluginsAction
  pub timeout : ℕ
  pub return_code : PluginsReturnCode
  pub max_payload_size : ℕ
  pub cache_size : ℕ
  pub original_max_payload_size : ℕ
  pub max_unencrypted_udp_safe_payload_size : ℕ
  pub reject_ttl : ℕ
  pub cache_max_ttl : ℕ
  pub cache_neg_max_ttl : ℕ
  pub cache_neg_min_ttl : ℕ
  pub cache_min_ttl : ℕ
  pub cache_hit : Bool
  pub dnssec : Bool

-- The settings of `Proxy` that a request starts with.
pub record RequestSettings : Type 0 where
  pub cache_size : ℕ
  pub cache_neg_min_ttl : ℕ
  pub cache_neg_max_ttl : ℕ
  pub cache_min_ttl : ℕ
  pub cache_max_ttl : ℕ
  pub reject_ttl : ℕ
  pub timeout : ℕ

unfoldable pub new_plugins_state : RequestSettings → Bytes → Bytes → Bytes → ℕ → PluginsState
new_plugins_state proxy client_proto client_ip server_proto start = record {
  request_start = start;
  request_end = 0;
  client_proto = client_proto;
  server_name = codes "-";
  server_proto = server_proto;
  q_name = [];
  client_ip = client_ip;
  synth_response = none;
  question_msg = none;
  whitelisted = false;
  stale = none;
  action = action_continue;
  timeout = proxy.timeout;
  return_code = code_pass;
  max_payload_size = max_dns_udp_packet_size - response_overhead;
  cache_size = proxy.cache_size;
  original_max_payload_size = 0;
  max_unencrypted_udp_safe_payload_size = max_dns_udp_safe_packet_size;
  reject_ttl = proxy.reject_ttl;
  cache_max_ttl = proxy.cache_max_ttl;
  cache_neg_max_ttl = proxy.cache_neg_max_ttl;
  cache_neg_min_ttl = proxy.cache_neg_min_ttl;
  cache_min_ttl = proxy.cache_min_ttl;
  cache_hit = false;
  dnssec = false;
}

-- What `Eval` leaves: it changes the world, the state and the message, and returns an error or nil.
pub record Evaluated (W : Type 0) : Type 0 where
  pub world : W
  pub state : PluginsState
  pub msg : Msg
  pub error : Option Error

abbrev pub Plugin : Type 0 → Type 0
Plugin W = W → PluginsState → Msg → Evaluated W

abbrev pub evaluated : {W : Type 0} → W → PluginsState → Msg → Evaluated W
evaluated w st msg = record { world = w; state = st; msg = msg; error = none }

abbrev pub failed : {W : Type 0} → W → PluginsState → Msg → Error → Evaluated W
failed w st msg e = record { world = w; state = st; msg = msg; error = some e }

-- `pluginsState.synthResponse = synth` with the action and the return code that go with it.
abbrev pub synthesize : Msg → PluginsReturnCode → PluginsState → PluginsState
synthesize synth code st = record st {
  synth_response = some synth;
  action = action_synth;
  return_code = code;
}
