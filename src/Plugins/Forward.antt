-- ===== src/Plugins/Forward.antt =====
-- dnscrypt-proxy/plugin_forward.go: forwarding the queries for some domains. The exchange with a server
-- is of another library, and the random choice is an argument.
pub mod Domains
use sourcegraph_testing_dnsc.Base.{
  Bool, Bytes, List, Option, Result, [], bytes_eq, codes, drop, err, exchange_failed, false,
  get_elem?, if◌then◌else◌, is_some, length, ltb, map, none, not, ok, some, split, syntax_error,
  to_lower, trim_space, true, ℕ, ◌&&◌, ◌++◌, ◌-◌, ◌==◌, ◌||◌, ◌∷◌,
}
use sourcegraph_testing_dnsc.Common.{string_two_fields, trim_and_strip_inline_comments}
use sourcegraph_testing_dnsc.Dns.{DnsLib, Msg}
use sourcegraph_testing_dnsc.Plugins.{
  Plugin, PluginsState, code_forward, evaluated, failed, synthesize,
}

pub record PluginForwardEntry : Type 0 where
  pub domain : Bytes
  pub servers : List Bytes

-- A server that is an address gets the port 53.
server_of : (Bytes → Option Bytes) → Bytes → Bytes
server_of parse_ip raw =
    let server = trim_space raw in
    if is_some (parse_ip server) then server ++ codes ":53" else server

entry_of : (Bytes → Option Bytes) → Bytes → Bytes → PluginForwardEntry
unfolding server_of
entry_of parse_ip domain servers_str = record {
  domain = to_lower domain;
  servers = map (server_of parse_ip) (split servers_str b',');
}

-- `Init`, on the lines of the file; a line that has not two fields is an error.
unfoldable pub init_forward :
    (Bytes → Option Bytes) → List Bytes → List PluginForwardEntry → Result (List PluginForwardEntry)
unfolding entry_of
init_forward parse_ip [] forward_map = ok forward_map
init_forward parse_ip (raw ∷ lines) forward_map =
    let line = trim_and_strip_inline_comments raw in
    let fields = string_two_fields line in
    elim (length line == 0) [
      | true ↦ init_forward parse_ip lines forward_map
      | false ↦ elim (fields.2) [
        | false ↦ err syntax_error
        | true ↦
            init_forward parse_ip lines (forward_map ++ entry_of parse_ip fields.0 fields.1 ∷ [])
      ]
    ]

byte_before : ℕ → Bytes → Bool
byte_before i s = elim (get_elem? s (i - 1)) [ none ↦ false | some c ↦ c == b'.' ]

-- The test of one entry.
unfoldable pub is_candidate : Bytes → Bytes → Bool
unfolding byte_before
is_candidate q_name domain =
    let start = length q_name - length domain in
    not (ltb (length q_name) (length domain))
    && (bytes_eq (drop start q_name) domain
        && (length domain == length q_name || byte_before start q_name))

-- The servers of the first entry for the name.
unfoldable pub forward_servers : Bytes → List PluginForwardEntry → List Bytes
unfolding is_candidate
forward_servers q_name [] = []
forward_servers q_name (c ∷ cs) =
    if is_candidate q_name c.domain then c.servers else forward_servers q_name cs

-- `client.Exchange` by UDP or another protocol.
abbrev pub Client : Type 0
Client = Bytes → Msg → Bytes → Option Msg

-- A truncated response is asked for again by TCP.
exchange_again : Client → Bytes → Msg → Bytes → Option Msg
exchange_again client proto msg server = elim (client proto msg server) [
  | none ↦ none
  | some resp ↦ if resp.truncated then client (codes "tcp") msg server else some resp
]

forwarded : DnsLib → Msg → Msg → Msg
forwarded lib msg resp = elim (DnsLib.is_edns0 lib resp) [
  | none ↦ record resp { id = msg.id; authenticated_data = false }
  | some edns ↦ record resp {
    id = msg.id;
    authenticated_data = resp.authenticated_data && edns.do_bit;
  }
]

-- `PluginForward.Eval`, with the number that `rand.Intn` draws.
unfoldable pub forward_eval : DnsLib → Client → ℕ → List PluginForwardEntry → Plugin Unit
unfolding forward_servers exchange_again forwarded
forward_eval lib client drawn forward_map w st msg =
    elim (get_elem? (forward_servers st.q_name forward_map) drawn) [
      | none ↦ evaluated w st msg
      | some server ↦
          let named : PluginsState = record st { server_name = server } in
          elim (exchange_again client st.server_proto msg server) [
            | none ↦ failed w named msg exchange_failed
            | some resp ↦ evaluated w (synthesize (forwarded lib msg resp) code_forward named) msg
          ]
    ]
