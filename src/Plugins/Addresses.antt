-- ===== src/Plugins/Addresses.antt =====
-- dnscrypt-proxy/plugin_block_ip.go and plugin_allow_ip.go: rules on the addresses of a response.
-- Parsing and printing addresses, and the radix tree, are of other libraries.
pub mod Hits
use sourcegraph_testing_dnsc.Base.{
  Bool, Bytes, List, Option, [], codes, contains, false, get_elem?, has_suffix, if◌then◌else◌,
  is_some, length, ltb, none, some, split, take, to_lower, true, ℕ, ◌&&◌, ◌++◌, ◌-◌, ◌==◌, ◌||◌,
  ◌∷◌,
}
use sourcegraph_testing_dnsc.Common.{trim_and_strip_inline_comments}
use sourcegraph_testing_dnsc.Dns.{
  Rdata, Rr, a_rr, aaaa_rr, class_inet, cname, hinfo, https, opt, other, ptr, soa, svcb, txt,
}
use sourcegraph_testing_dnsc.Patterns.Tries.{Trie, member}
use sourcegraph_testing_dnsc.Plugins.{Plugin, PluginsState, action_reject, code_reject, evaluated}
use sourcegraph_testing_dnsc.Plugins.Logging.{Log, LogEnv, LogFormat, ip_line, write_to}

abbrev last_dropped : Bytes → Bytes
last_dropped s = take (length s - 1) s

-- The text of a rule, without a star and then a separator at the end, and whether there was a star.
-- `none` is a rule that is refused.
unfoldable pub ip_rule : (Bytes → Option Bytes) → Bytes → Option (Bytes × Bool)
ip_rule parse_ip line =
    let trailing_star = has_suffix line (codes "*") in
    let unstarred = if trailing_star then last_dropped line else line in
    let text =
      if has_suffix unstarred (codes ":") || has_suffix unstarred (codes ".")
      then last_dropped unstarred
      else unstarred in
    if ltb (length line) 2 || (is_some (parse_ip line) && trailing_star)
    then none
    else if length text == 0
    then none
    else if contains text (codes "*")
    then none
    else some (to_lower text, trailing_star)

module _ (t : Trie ℕ) where
  open t use {Tree, empty, insert, longest_prefix}

  pub record IpRules : Type 0 where
    pub prefixes : Tree
    pub ips : List Bytes

  add_ip_rule : Option (Bytes × Bool) → IpRules → IpRules
  add_ip_rule none rules = rules
  add_ip_rule (some (text, true)) rules = record {
    prefixes = insert text (some 0) rules.prefixes;
    ips = rules.ips;
  }
  add_ip_rule (some (text, false)) rules = record {
    prefixes = rules.prefixes;
    ips = text ∷ rules.ips;
  }

  unfoldable pub load_ip_lines : (Bytes → Option Bytes) → List Bytes → IpRules → IpRules
  unfolding add_ip_rule
  load_ip_lines parse_ip [] rules = rules
  load_ip_lines parse_ip (raw ∷ lines) rules =
      let line = trim_and_strip_inline_comments raw in
      let rule = if length line == 0 then none else ip_rule parse_ip line in
      load_ip_lines parse_ip lines (add_ip_rule rule rules)

  -- `Init`, on the text of the file.
  unfoldable pub init_ip_rules : (Bytes → Option Bytes) → Bytes → IpRules
  unfolding load_ip_lines
  init_ip_rules parse_ip bin =
      load_ip_lines parse_ip (split bin b'\n') (record { prefixes = empty; ips = [] })

  -- A match ends with the address, or at a separator.
  abbrev pub at_separator : Bytes → Bytes → Bool
  at_separator m s =
      length m == length s
      || elim (get_elem? s (length m)) [ none ↦ false | some c ↦ c == b'.' || c == b':' ]

  prefix_hit : Bytes → Option (Bytes × Option ℕ) → Option Bytes
  prefix_hit text none = none
  prefix_hit text (some (m, v)) = if at_separator m text then some (m ++ codes "*") else none

  -- The reason for which the text of an address is listed.
  unfoldable pub ip_hit : IpRules → Bytes → Option Bytes
  unfolding prefix_hit
  ip_hit rules text =
      if member text rules.ips
      then some text
      else prefix_hit text (longest_prefix rules.prefixes text)

  -- The address of a record of class IN, with `ip_text` for `IP.String`.
  unfoldable pub address_data : Rdata → Option Bytes
  address_data (a_rr ip) = some ip
  address_data (aaaa_rr ip) = some ip
  address_data (cname target) = none
  address_data (ptr target) = none
  address_data (hinfo cpu os) = none
  address_data (svcb priority target) = none
  address_data (https priority target) = none
  address_data (txt parts) = none
  address_data (opt options) = none
  address_data (soa ns mbox numbers) = none
  address_data (other bytes) = none

  unfoldable pub address_of : Rr → Option Bytes
  address_of rr = if rr.header.class == class_inet then address_data rr.rdata else none

  -- The first listed address of the answers, with the reason.
  unfoldable pub first_hit : (Bytes → Bytes) → IpRules → List Rr → Option (Bytes × Bytes)
  first_hit ip_text rules [] = none
  first_hit ip_text rules (rr ∷ rrs) = elim (address_of rr) [
    | none ↦ first_hit ip_text rules rrs
    | some ip ↦ elim (ip_hit rules (ip_text ip)) [
      | some reason ↦ some (ip_text ip, reason)
      | none ↦ first_hit ip_text rules rrs
    ]
  ]

  pub record IpPlugin : Type 0 where
    pub rules : IpRules
    pub logger : Option LogFormat
    pub env : LogEnv
    pub ip_text : Bytes → Bytes

  -- `PluginBlockIP.Eval`.
  unfoldable pub block_ip_eval : IpPlugin → Plugin Log
  unfolding first_hit
  block_ip_eval plugin log st msg =
      if st.whitelisted
      then evaluated log st msg
      else elim (first_hit plugin.ip_text plugin.rules msg.answer) [
        | none ↦ evaluated log st msg
        | some (ip, reason) ↦
            let rejected : PluginsState = record st {
              action = action_reject;
              return_code = code_reject;
            } in
            evaluated (write_to plugin.logger (λ f. ip_line plugin.env f rejected ip reason) log)
              rejected msg
      ]

  -- `PluginAllowedIP.Eval`.
  unfoldable pub allowed_ip_eval : IpPlugin → Plugin Log
  unfolding first_hit
  allowed_ip_eval plugin log st msg = elim (first_hit plugin.ip_text plugin.rules msg.answer) [
    | none ↦ evaluated log st msg
    | some (ip, reason) ↦
        let allowed : PluginsState = record st { whitelisted = true } in
        evaluated (write_to plugin.logger (λ f. ip_line plugin.env f allowed ip reason) log) allowed
          msg
  ]
