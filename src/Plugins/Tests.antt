-- ===== src/Plugins/Tests.antt =====
-- The plugins at concrete inputs, over a library that knows no EDNS0.
use sourcegraph_testing_dnsc.Base.{
  All, Any, Bool, Bytes, List, Option, [], codes, false, none, refl, some, true, ◌∷◌, ◌≡◌, ◌⊎◌,
}
use sourcegraph_testing_dnsc.Dns.{
  DnsLib, Msg, Question, Rr, a_rr, class_inet, cname, rcode_success, type_a, type_cname,
}
use sourcegraph_testing_dnsc.Patterns.ListTrie.{list_trie, list_trie-IsTrie}
use sourcegraph_testing_dnsc.Plugins.{
  PluginsState, RequestSettings, action_reject, evaluated, new_plugins_state,
}
use sourcegraph_testing_dnsc.Plugins.Config.{PluginSettings, query_plugins, response_plugins}
use sourcegraph_testing_dnsc.Plugins.Order.{IsOrdered, plugins-IsOrdered}
use sourcegraph_testing_dnsc.Plugins.Pipeline.{Globals, apply_query_plugins}
use sourcegraph_testing_dnsc.Plugins.Outcomes.{QueryOutcome, apply_query_plugins-QueryOutcome}
use sourcegraph_testing_dnsc.Plugins.Logging.{Log, LogEnv, tsv}
use sourcegraph_testing_dnsc.Plugins.Names.{
  NamePlugin, aliases_limit, block_name_eval, block_name_response_eval,
}
use sourcegraph_testing_dnsc.Plugins.Names.Aliases.{
  Checked, alias_targets, block_name_response-Checked,
}
use sourcegraph_testing_dnsc.Plugins.Addresses.{IpPlugin, block_ip_eval}
use sourcegraph_testing_dnsc.Plugins.Addresses.Hits.{HasListedIp, HasNoExact, block_ip_eval_lem}
use sourcegraph_testing_dnsc.Dns.Replies.{KeepsMessage}
use sourcegraph_testing_dnsc.Plugins.Forward.{PluginForwardEntry, forward_servers}
use sourcegraph_testing_dnsc.Plugins.Forward.Domains.{Forwards, forward_servers-Forwards}

abbrev pub asked : Question
asked = record { name = codes "Ads.example."; qtype = type_a; qclass = class_inet }

abbrev pub query : Msg
query = record {
  id = 7;
  response = false;
  truncated = false;
  recursion_desired = true;
  recursion_available = false;
  authenticated_data = false;
  checking_disabled = false;
  rcode = rcode_success;
  compress = false;
  question = asked ∷ [];
  answer = [];
  ns = [];
  extra = [];
}

abbrev lib : DnsLib
lib = record {
  unpack = λ s. some query;
  pack = λ m. some (1 ∷ 2 ∷ []);
  is_edns0 = λ m. none;
  set_edns0 = λ n d m. m;
  set_options = λ o m. m;
  spoiled = λ s m. s;
}

abbrev pub settings : RequestSettings
settings = record {
  cache_size = 16;
  cache_neg_min_ttl = 60;
  cache_neg_max_ttl = 600;
  cache_min_ttl = 60;
  cache_max_ttl = 3600;
  reject_ttl = 10;
  timeout = 5000;
}

abbrev pub start : PluginsState
start = new_plugins_state settings (codes "udp") (codes "192.0.2.1") (codes "udp") 1

abbrev env : LogEnv
env = record {
  ts_str = codes "[now]";
  unix = codes "1";
  show = λ n. [];
  quote = λ s. s;
  type_name = λ n. codes "A";
}

abbrev no_globs : Bytes → Bytes → Option Bool
no_globs p s = some false

-- One rule, for `example`.
abbrev blocking : NamePlugin list_trie no_globs
blocking = record {
  rules = record {
    prefixes = [];
    suffixes = (codes "elpmaxe", some none) ∷ [];
    substrings = [];
    patterns = [];
    exacts = [];
    indirect_vals = [];
  };
  logger = some tsv;
  env = env;
  now = record { weekday = 0; hour = 0; minute = 0 };
}

abbrev globals : Globals Log
globals = record {
  query = block_name_eval list_trie no_globs blocking ∷ [];
  response = [];
  logging = [];
  blocked = record {
    refused_code_in_responses = true;
    respond_with_ipv4 = none;
    respond_with_ipv6 = none;
  };
  to4 = some;
  to16 = some;
}

apply_query_plugins-QueryOutcome_example :
    QueryOutcome lib globals (9 ∷ []) (apply_query_plugins lib globals [] start (9 ∷ []) true)
unfolding new_plugins_state
apply_query_plugins-QueryOutcome_example =
    apply_query_plugins-QueryOutcome lib globals [] start (9 ∷ []) true refl

abbrev pub alias : Rr
alias = record {
  header = record { name = asked.name; rrtype = type_cname; class = class_inet; ttl = 60 };
  rdata = cname (codes "x.example.");
}

abbrev pub response : Msg
response = record query { response = true; answer = alias ∷ [] }

block_name_response-Checked_example :
    ((start.whitelisted ≡ true)
      × (block_name_response_eval list_trie no_globs blocking [] start response
          ≡ evaluated [] start response))
    ⊎ ((start.whitelisted ≡ false)
        × Checked list_trie no_globs blocking start aliases_limit
            (alias_targets (alias ∷ []))
            (block_name_response_eval list_trie no_globs blocking [] start response))
block_name_response-Checked_example =
    block_name_response-Checked list_trie no_globs blocking [] start response

abbrev entries : List PluginForwardEntry
entries =
    record { domain = codes "lan"; servers = codes "192.0.2.2:53" ∷ [] }
    ∷ record { domain = codes "home.lan"; servers = codes "192.0.2.3:53" ∷ [] }
    ∷ []

forward_servers-Forwards_example :
    Forwards (codes "nas.home.lan") entries (forward_servers (codes "nas.home.lan") entries)
forward_servers-Forwards_example = forward_servers-Forwards (codes "nas.home.lan") entries

-- Addresses are written as they are; one rule.
abbrev ip_plugin : IpPlugin list_trie
ip_plugin = record {
  rules = record { prefixes = []; ips = codes "192.0.2.9" ∷ [] };
  logger = none;
  env = env;
  ip_text = λ ip. ip;
}

abbrev addressed : Msg
addressed = record query {
  answer =
      record {
        header = record { name = asked.name; rrtype = type_a; class = class_inet; ttl = 60 };
        rdata = a_rr (codes "192.0.2.9");
      }
      ∷ [];
}

block_ip_eval_lem_example :
    let out = block_ip_eval list_trie ip_plugin [] start addressed in
    ((out.state.action ≡ action_reject)
      × Any (HasListedIp list_trie list_trie-IsTrie ip_plugin) addressed.answer)
    ⊎ ((out ≡ evaluated [] start addressed)
        × All (HasNoExact list_trie list_trie-IsTrie ip_plugin) addressed.answer)
unfolding new_plugins_state
block_ip_eval_lem_example =
    block_ip_eval_lem list_trie list_trie-IsTrie ip_plugin [] start addressed refl

lib-KeepsMessage : KeepsMessage lib
lib-KeepsMessage = record { kept = λ n d m. (refl, refl, refl, refl, refl, refl) }

-- The zone `lan` is undelegated.
abbrev zones : List (Bytes × Option Bool)
zones = (codes "nal", some true) ∷ []

abbrev some_on : PluginSettings
some_on = record {
  captive_portal_map = false;
  query_meta_set = false;
  allow_name_file = true;
  edns_client_subnets = false;
  block_name_file = true;
  plugin_block_ipv6 = true;
  cloak_file = false;
  cache_on = true;
  forward_file = true;
  plugin_block_unqualified = false;
  plugin_block_undelegated = true;
  nx_log_file = true;
  allowed_ip_file = false;
  block_ip_file = true;
  dns64_resolvers = false;
  dns64_prefixes = true;
  query_log_file = false;
}

plugins-IsOrdered_example : IsOrdered (query_plugins some_on) × IsOrdered (response_plugins some_on)
plugins-IsOrdered_example = plugins-IsOrdered some_on
