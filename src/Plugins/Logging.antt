-- ===== src/Plugins/Logging.antt =====
-- dnscrypt-proxy/plugin_query_log.go, plugin_nx_log.go and the log lines of the blocking and allowing
-- plugins. A log is the list of the lines written, the last one first.
use sourcegraph_testing_dnsc.Base.{
  Bool, Bytes, List, Option, [], any, bytes_eq, codes, false, if◌then◌else◌, none, not, some,
  to_lower, true, ℕ, ◌&&◌, ◌++◌, ◌-◌, ◌/◌, ◌==◌, ◌||◌, ◌∷◌,
}
use sourcegraph_testing_dnsc.Dns.{Msg, rcode_name_error}
use sourcegraph_testing_dnsc.Plugins.{
  Plugin, PluginsReturnCode, PluginsState, code_cloak, code_drop, code_forward, code_network_error,
  code_not_ready, code_nx_domain, code_parse_error, code_pass, code_reject, code_response_error,
  code_serv_fail, code_server_timeout, code_synth, evaluated, plugins_return_code_to_string,
}

-- Other formats are refused when the configuration is read.
pub data LogFormat : Type 0 where
  tsv ltsv : LogFormat

-- The time as the two formats write it, what the code calls of `fmt`, and `StringQuote`.
pub record LogEnv : Type 0 where
  pub ts_str : Bytes
  pub unix : Bytes
  pub show : ℕ → Bytes
  pub quote : Bytes → Bytes
  pub type_name : ℕ → Bytes

abbrev pub Log : Type 0
Log = List Bytes

-- The fields, with a byte after each but the last, and a newline at the end.
abbrev pub tabbed : List Bytes → Bytes
tabbed [] = codes "\n"
tabbed (f ∷ []) = f ++ codes "\n"
tabbed (f ∷ g ∷ fs) = f ++ b'\t' ∷ tabbed (g ∷ fs)

-- The line of the plugins on names.
unfoldable pub name_line : LogEnv → LogFormat → PluginsState → Bytes → Bytes → Bytes
name_line env tsv st q_name reason =
    tabbed (env.ts_str ∷ st.client_ip ∷ env.quote q_name ∷ env.quote reason ∷ [])
name_line env ltsv st q_name reason = tabbed (
    (codes "time:" ++ env.unix)
    ∷ (codes "host:" ++ st.client_ip)
    ∷ (codes "qname:" ++ env.quote q_name)
    ∷ (codes "message:" ++ env.quote reason)
    ∷ [])

-- The line of the plugins on addresses.
unfoldable pub ip_line : LogEnv → LogFormat → PluginsState → Bytes → Bytes → Bytes
ip_line env tsv st ip reason =
    tabbed (env.ts_str ∷ st.client_ip ∷ env.quote st.q_name ∷ env.quote ip ∷ env.quote reason ∷ [])
ip_line env ltsv st ip reason = tabbed (
    (codes "time:" ++ env.unix)
    ∷ (codes "host:" ++ st.client_ip)
    ∷ (codes "qname:" ++ env.quote st.q_name)
    ∷ (codes "ip:" ++ env.quote ip)
    ∷ (codes "message:" ++ env.quote reason)
    ∷ [])

-- A line is written where there is a log.
abbrev pub write_to : Option LogFormat → (LogFormat → Bytes) → Log → Log
write_to none line log = log
write_to (some format) line log = line format ∷ log

abbrev pub first_type : Msg → ℕ
first_type msg = elim (msg.question) [ [] ↦ 0 | q ∷ qs ↦ q.qtype ]

abbrev pub equal_fold : Bytes → Bytes → Bool
equal_fold s t = bytes_eq (to_lower s) (to_lower t)

-- The codes for which no server is named.
without_server : PluginsReturnCode → Bool
without_server code_synth = true
without_server code_cloak = true
without_server code_parse_error = true
without_server code_pass = false
without_server code_forward = false
without_server code_drop = false
without_server code_reject = false
without_server code_nx_domain = false
without_server code_response_error = false
without_server code_serv_fail = false
without_server code_network_error = false
without_server code_server_timeout = false
without_server code_not_ready = false

unfoldable pub unnamed_server : PluginsState → PluginsState
unfolding without_server
unnamed_server st =
    if st.cache_hit || without_server st.return_code
    then record st { server_name = codes "-" }
    else st

abbrev duration : PluginsState → ℕ
duration st =
    if not (st.request_start == 0) && not (st.request_end == 0)
    then (st.request_end - st.request_start) / 1_000_000
    else 0

query_line : LogEnv → LogFormat → PluginsState → Msg → Bytes
query_line env tsv st msg = tabbed (
    env.ts_str
    ∷ st.client_ip
    ∷ env.quote st.q_name
    ∷ env.type_name (first_type msg)
    ∷ plugins_return_code_to_string st.return_code
    ∷ (env.show (duration st) ++ codes "ms")
    ∷ env.quote st.server_name
    ∷ [])
query_line env ltsv st msg = tabbed (
    (codes "time:" ++ env.unix)
    ∷ (codes "host:" ++ st.client_ip)
    ∷ (codes "message:" ++ env.quote st.q_name)
    ∷ (codes "type:" ++ env.type_name (first_type msg))
    ∷ (codes "return:" ++ plugins_return_code_to_string st.return_code)
    ∷ (codes "cached:" ++ env.show (if st.cache_hit then 1 else 0))
    ∷ (codes "duration:" ++ env.show (duration st))
    ∷ (codes "server:" ++ env.quote st.server_name)
    ∷ [])

-- `PluginQueryLog.Eval`, with its format and the types that it ignores.
unfoldable pub query_log_eval : LogEnv → LogFormat → List Bytes → Plugin Log
unfolding query_line
query_log_eval env format ignored_qtypes log st msg =
    let named = unnamed_server st in
    if any (λ t. equal_fold t (env.type_name (first_type msg))) ignored_qtypes
    then evaluated log st msg
    else evaluated (query_line env format named msg ∷ log) named msg

nx_line : LogEnv → LogFormat → PluginsState → Msg → Bytes
nx_line env tsv st msg =
    tabbed (env.ts_str ∷ st.client_ip ∷ env.quote st.q_name ∷ env.type_name (first_type msg) ∷ [])
nx_line env ltsv st msg = tabbed (
    (codes "time:" ++ env.unix)
    ∷ (codes "host:" ++ st.client_ip)
    ∷ (codes "message:" ++ env.quote st.q_name)
    ∷ (codes "type:" ++ env.type_name (first_type msg))
    ∷ [])

-- `PluginNxLog.Eval`.
unfoldable pub nx_log_eval : LogEnv → LogFormat → Plugin Log
unfolding nx_line
nx_log_eval env format log st msg =
    if msg.rcode == rcode_name_error
    then evaluated (nx_line env format st msg ∷ log) st msg
    else evaluated log st msg
