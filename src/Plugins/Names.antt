-- ===== src/Plugins/Names.antt =====
-- dnscrypt-proxy/plugin_block_name.go and plugin_allow_name.go: rules on names, with the times at
-- which they are in force.
pub mod Aliases
use sourcegraph_testing_dnsc.Base.{
  Bool, Bytes, List, Option, [], codes, err, false, if◌then◌else◌, length, none, ok, some, split,
  trim_space, true, ℕ, ◌&&◌, ◌++◌, ◌-◌, ◌==◌, ◌∷◌,
}
use sourcegraph_testing_dnsc.Common.{trim_and_strip_inline_comments}
use sourcegraph_testing_dnsc.Dns.{
  Rdata, Rr, a_rr, aaaa_rr, class_inet, cname, hinfo, https, opt, other, ptr, soa, svcb, txt,
}
use sourcegraph_testing_dnsc.Dns.Names.{normalize_q_name}
use sourcegraph_testing_dnsc.Patterns.{PatternMatcher, add, eval, lookup_text, new_pattern_matcher}
use sourcegraph_testing_dnsc.Patterns.Tries.{Trie}
use sourcegraph_testing_dnsc.TimeRanges.{LocalTime, WeeklyRanges, match_weekly}
use sourcegraph_testing_dnsc.Plugins.{
  Plugin, PluginsState, action_reject, code_reject, evaluated, failed,
}
use sourcegraph_testing_dnsc.Plugins.Logging.{Log, LogEnv, LogFormat, name_line, write_to}

abbrev pub aliases_limit : ℕ
aliases_limit = 8

-- A line without its comment: the pattern, and the name of a time range, empty if there is none.
-- `none` is a line that is skipped.
pub rule_fields : Bytes → List Bytes → Option (Bytes × Bytes)
rule_fields line [] = some (line, [])
rule_fields line (p ∷ []) = some (line, [])
rule_fields line (p ∷ r ∷ []) = some (trim_space p, trim_space r)
rule_fields line (p ∷ r ∷ s ∷ rest) = none

-- The name that a record of class IN points to.
unfoldable pub target_data : Rdata → Option Bytes
target_data (cname target) = some target
target_data (svcb priority target) = if priority == 0 then some target else none
target_data (https priority target) = if priority == 0 then some target else none
target_data (a_rr ip) = none
target_data (aaaa_rr ip) = none
target_data (ptr target) = none
target_data (hinfo cpu os) = none
target_data (txt parts) = none
target_data (opt options) = none
target_data (soa ns mbox numbers) = none
target_data (other bytes) = none

unfoldable pub target_of : Rr → Option Bytes
target_of rr = if rr.header.class == class_inet then target_data rr.rdata else none

-- A rule's value is a pointer, that may be nil, in an interface that is not.
module _ (t : Trie (Option WeeklyRanges)) (glob_match : Bytes → Bytes → Option Bool) where
  open t use {Tree}

  abbrev pub NameRules : Type 0
  NameRules = PatternMatcher (Option WeeklyRanges) Tree

  -- A pattern that is refused is logged and left out; so is a time range that is not known.
  add_fields : List (Bytes × WeeklyRanges) → Option (Bytes × Bytes) → NameRules → NameRules
  add_fields ranges none rules = rules
  add_fields ranges (some (pattern, range)) rules =
      let weekly_ranges = if length range == 0 then none else lookup_text range ranges in
      elim (add t glob_match pattern (some weekly_ranges) rules) [
        | err e ↦ rules
        | ok rules' ↦ rules'
      ]

  unfoldable pub load_lines : List (Bytes × WeeklyRanges) → List Bytes → NameRules → NameRules
  unfolding add_fields rule_fields
  load_lines ranges [] rules = rules
  load_lines ranges (raw ∷ lines) rules =
      let line = trim_and_strip_inline_comments raw in
      let fields = if length line == 0 then none else rule_fields line (split line b'@') in
      load_lines ranges lines (add_fields ranges fields rules)

  -- `Init`, on the text of the file.
  unfoldable pub init_rules : List (Bytes × WeeklyRanges) → Bytes → NameRules
  unfolding load_lines
  init_rules ranges bin = load_lines ranges (split bin b'\n') (new_pattern_matcher t glob_match)

  in_force : Option (Option WeeklyRanges) → LocalTime → Bool
  in_force none now = true
  in_force (some none) now = true
  in_force (some (some w)) now = match_weekly w now

  -- The reason for which a name is listed at a time.
  unfoldable pub listed : NameRules → LocalTime → Bytes → Option Bytes
  unfolding in_force
  listed rules now q_name =
      let v = eval t glob_match rules q_name in
      if v.reject && in_force v.val now then some v.reason else none

  -- What the plugins are given: the rules, the format of the log if there is one, and the time.
  pub record NamePlugin : Type 0 where
    pub rules : NameRules
    pub logger : Option LogFormat
    pub env : LogEnv
    pub now : LocalTime

  -- `PluginAllowName.Eval`.
  unfoldable pub allow_name_eval : NamePlugin → Plugin Log
  allow_name_eval plugin log st msg = elim (listed plugin.rules plugin.now st.q_name) [
    | none ↦ evaluated log st msg
    | some reason ↦
        evaluated (write_to plugin.logger (λ f. name_line plugin.env f st st.q_name reason) log)
          (record st { whitelisted = true }) msg
  ]

  alias_reason : Option Bytes → Bytes → Bytes
  alias_reason none reason = reason
  alias_reason (some alias) reason = reason ++ codes " (alias for [" ++ alias ++ codes "])"

  -- `check`: `none` is a name that is not blocked.
  unfoldable pub check :
      NamePlugin → Log → PluginsState → Bytes → Option Bytes → Option (Log × PluginsState)
  unfolding alias_reason
  check plugin log st q_name alias_for = elim (listed plugin.rules plugin.now q_name) [
    | none ↦ none
    | some reason ↦
        let full = alias_reason alias_for reason in
        some (
          write_to plugin.logger (λ f. name_line plugin.env f st q_name full) log,
          record st { action = action_reject; return_code = code_reject },
        )
  ]

  -- `PluginBlockName.Eval`.
  unfoldable pub block_name_eval : NamePlugin → Plugin Log
  block_name_eval plugin log st msg =
      if st.whitelisted then evaluated log st msg else elim (check plugin log st st.q_name none) [
        | none ↦ evaluated log st msg
        | some (log', st') ↦ evaluated log' st' msg
      ]

  -- The loop over the answers, with how many aliases are left to look at.
  unfoldable pub alias_loop : NamePlugin → List Rr → ℕ → Plugin Log
  alias_loop plugin [] left log st msg = evaluated log st msg
  alias_loop plugin (rr ∷ rrs) left log st msg = elim (target_of rr) [
    | none ↦ alias_loop plugin rrs left log st msg
    | some target ↦ elim (normalize_q_name target) [
      | err e ↦ failed log st msg e
      | ok name ↦ elim (check plugin log st name (some st.q_name)) [
        | some (log', st') ↦ evaluated log' st' msg
        | none ↦ elim (left - 1 == 0) [
          | true ↦ evaluated log st msg
          | false ↦ alias_loop plugin rrs (left - 1) log st msg
        ]
      ]
    ]
  ]

  -- `PluginBlockNameResponse.Eval`.
  unfoldable pub block_name_response_eval : NamePlugin → Plugin Log
  unfolding alias_loop
  block_name_response_eval plugin log st msg =
      if st.whitelisted
      then evaluated log st msg
      else alias_loop plugin msg.answer aliases_limit log st msg
