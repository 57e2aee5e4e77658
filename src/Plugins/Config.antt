-- ===== src/Plugins/Config.antt =====
-- dnscrypt-proxy/plugins.go: `InitPluginsGlobals` and `parseBlockedQueryResponse`.
use sourcegraph_testing_dnsc.Base.{
  Bool, Bytes, Error, List, Option, Result, [], bytes_eq, codes, err, false, has_prefix,
  if◌then◌else◌, none, ok, reverse, some, split, to_lower, trim_left, trim_prefix, ℕ, ◌++◌, ◌==◌,
  ◌||◌, ◌∷◌,
}
use sourcegraph_testing_dnsc.Common.{string_strip_spaces}

pub data PluginKind : Type 0 where
  captive_portal query_meta allow_name firefox ecs block_name block_ipv6 cloak : PluginKind
  get_set_payload_size cache forward block_unqualified block_undelegated : PluginKind
  nx_log allowed_ip block_name_response block_ip dns64 cache_response query_log : PluginKind

-- Which settings are on.
pub record PluginSettings : Type 0 where
  pub captive_portal_map : Bool
  pub query_meta_set : Bool
  pub allow_name_file : Bool
  pub edns_client_subnets : Bool
  pub block_name_file : Bool
  pub plugin_block_ipv6 : Bool
  pub cloak_file : Bool
  pub cache_on : Bool
  pub forward_file : Bool
  pub plugin_block_unqualified : Bool
  pub plugin_block_undelegated : Bool
  pub nx_log_file : Bool
  pub allowed_ip_file : Bool
  pub block_ip_file : Bool
  pub dns64_resolvers : Bool
  pub dns64_prefixes : Bool
  pub query_log_file : Bool

abbrev pub append_if : Bool → PluginKind → List PluginKind → List PluginKind
append_if test kind kinds = if test then kinds ++ kind ∷ [] else kinds

unfoldable pub query_plugins : PluginSettings → List PluginKind
query_plugins proxy =
    let l1 = append_if proxy.captive_portal_map captive_portal [] in
    let l2 = append_if proxy.query_meta_set query_meta l1 in
    let l3 = append_if proxy.allow_name_file allow_name l2 in
    let l4 = l3 ++ firefox ∷ [] in
    let l5 = append_if proxy.edns_client_subnets ecs l4 in
    let l6 = append_if proxy.block_name_file block_name l5 in
    let l7 = append_if proxy.plugin_block_ipv6 block_ipv6 l6 in
    let l8 = append_if proxy.cloak_file cloak l7 in
    let l9 = l8 ++ get_set_payload_size ∷ [] in
    let l10 = append_if proxy.cache_on cache l9 in
    let l11 = append_if proxy.forward_file forward l10 in
    let l12 = append_if proxy.plugin_block_unqualified block_unqualified l11 in
    append_if proxy.plugin_block_undelegated block_undelegated l12

unfoldable pub response_plugins : PluginSettings → List PluginKind
response_plugins proxy =
    let l1 = append_if proxy.nx_log_file nx_log [] in
    let l2 = append_if proxy.allowed_ip_file allowed_ip l1 in
    let l3 = append_if proxy.block_name_file block_name_response l2 in
    let l4 = append_if proxy.block_ip_file block_ip l3 in
    let l5 = append_if (proxy.dns64_resolvers || proxy.dns64_prefixes) dns64 l4 in
    append_if proxy.cache_on cache_response l5

unfoldable pub logging_plugins : PluginSettings → List PluginKind
logging_plugins proxy = append_if proxy.query_log_file query_log []

-- The first error of the plugins' `Init`.
unfoldable pub init_loop : (PluginKind → Option Error) → List PluginKind → Option Error
init_loop init [] = none
init_loop init (k ∷ ks) = elim (init k) [ some e ↦ some e | none ↦ init_loop init ks ]

-- How blocked queries are answered.
pub record BlockedResponse : Type 0 where
  pub refused_code_in_responses : Bool
  pub respond_with_ipv4 : Option Bytes
  pub respond_with_ipv6 : Option Bytes

is_bracket : ℕ → Bool
is_bracket c = c == b'[' || c == b']'

unbracketed : Bytes → Bytes
unfolding is_bracket
unbracketed s =
    if has_prefix s (codes "[")
    then reverse (trim_left is_bracket (reverse (trim_left is_bracket s)))
    else s

or_else : Option Bytes → Option Bytes → Option Bytes
or_else none o = o
or_else (some x) o = some x

-- The second field, if it has the form.
second_address : (Bytes → Option Bytes) → List Bytes → BlockedResponse → Option Bytes
unfolding unbracketed
second_address parse_ip [] globals = globals.respond_with_ipv6
second_address parse_ip (s ∷ rest) globals =
    if has_prefix s (codes "aaaa:")
    then parse_ip (unbracketed (trim_prefix s (codes "aaaa:")))
    else globals.respond_with_ipv6

-- The address fields, split at commas; a fallback to HINFO leaves the second address as it was.
with_addresses : (Bytes → Option Bytes) → List Bytes → BlockedResponse → BlockedResponse
unfolding second_address or_else
with_addresses parse_ip [] globals = globals
with_addresses parse_ip (s ∷ rest) globals = elim (parse_ip (trim_prefix s (codes "a:"))) [
  | none ↦ record globals { refused_code_in_responses = false; respond_with_ipv4 = none }
  | some ipv4 ↦ record globals {
    respond_with_ipv4 = some ipv4;
    respond_with_ipv6 = or_else (second_address parse_ip rest globals) (some ipv4);
  }
]

unfoldable pub parse_blocked_query_response :
    (Bytes → Option Bytes) → Bytes → BlockedResponse → BlockedResponse
unfolding with_addresses
parse_blocked_query_response parse_ip blocked_response globals =
    let response = string_strip_spaces (to_lower blocked_response) in
    if has_prefix response (codes "a:")
    then with_addresses parse_ip (split response b',') globals
    else record globals { refused_code_in_responses = bytes_eq response (codes "refused") }

pub record PluginsGlobals : Type 0 where
  pub query : List PluginKind
  pub response : List PluginKind
  pub logging : List PluginKind
  pub blocked : BlockedResponse

abbrev no_blocked : BlockedResponse
no_blocked = record {
  refused_code_in_responses = false;
  respond_with_ipv4 = none;
  respond_with_ipv6 = none;
}

unfoldable pub init_plugins_globals :
    (PluginKind → Option Error)
    → (Bytes → Option Bytes)
    → PluginSettings
    → Bytes
    → Result PluginsGlobals
unfolding init_loop
init_plugins_globals init parse_ip proxy blocked_query_response =
    elim (init_loop init (query_plugins proxy ++ response_plugins proxy ++ logging_plugins proxy)) [
      | some e ↦ err e
      | none ↦ ok (record {
        query = query_plugins proxy;
        response = response_plugins proxy;
        logging = logging_plugins proxy;
        blocked = parse_blocked_query_response parse_ip blocked_query_response no_blocked;
      })
    ]
