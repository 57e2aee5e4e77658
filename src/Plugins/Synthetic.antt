-- ===== src/Plugins/Synthetic.antt =====
-- The plugins that answer a query at once, or change it: dnscrypt-proxy/plugin_firefox.go,
-- plugin_block_unqualified.go, plugin_block_undelegated.go, plugin_block_ipv6.go, plugin_querymeta.go,
-- plugin_captive_portal.go with coldstart.go, and plugin_get_set_payload_size.go.
pub mod Answered
use sourcegraph_testing_dnsc.Base.{
  Bool, Bytes, List, Option, [], any, bytes_eq, codes, drop, err, false, has_suffix, if◌then◌else◌,
  index_func, leb, length, ltb, none, not, ok, some, true, ℕ, ◌&&◌, ◌++◌, ◌+◌, ◌-◌, ◌==◌, ◌||◌, ◌∷◌,
}
use sourcegraph_testing_dnsc.Common.{max, max_dns_udp_packet_size, min, string_reverse}
use sourcegraph_testing_dnsc.Crypto.{response_overhead}
use sourcegraph_testing_dnsc.Dns.{
  DnsLib, Edns, EdnsOption, Msg, Question, Rdata, Rr, a_rr, aaaa_rr, class_inet, cname, hinfo,
  https, opt, other, ptr, rcode_name_error, soa, svcb, txt, type_a, type_aaaa, type_hinfo, type_opt,
  type_soa, type_txt,
}
use sourcegraph_testing_dnsc.Dns.Names.{normalize_q_name}
use sourcegraph_testing_dnsc.Dns.Replies.{empty_response_from_message}
use sourcegraph_testing_dnsc.Patterns.{at_boundary, lookup_text}
use sourcegraph_testing_dnsc.Patterns.Tries.{Trie}
use sourcegraph_testing_dnsc.Plugins.{
  Plugin, PluginsState, action_synth, code_synth, evaluated, synthesize,
}

-- Whether the first question is for an address.
abbrev asks_address : List Question → Bool
asks_address [] = false
asks_address (q ∷ qs) = q.qclass == class_inet && (q.qtype == type_a || q.qtype == type_aaaa)

is_firefox_name : Bytes → Bool
is_firefox_name name =
    bytes_eq name (codes "use-application-dns.net")
    || has_suffix name (codes ".use-application-dns.net")

has_dot : Bytes → Bool
has_dot s = any (λ c. c == b'.') s

module _ (lib : DnsLib) where
  abbrev pub name_error : PluginsState → Msg → PluginsState
  name_error st msg =
      synthesize (record (empty_response_from_message lib msg) { rcode = rcode_name_error })
        code_synth st

  -- `PluginFirefox.Eval`.
  unfoldable pub firefox_eval : Plugin Unit
  unfolding is_firefox_name
  firefox_eval w st msg =
      if bytes_eq st.client_proto (codes "local_doh")
      then evaluated w st msg
      else if asks_address msg.question && is_firefox_name st.q_name
      then evaluated w (name_error st msg) msg
      else evaluated w st msg

  -- `PluginBlockUnqualified.Eval`.
  unfoldable pub block_unqualified_eval : Plugin Unit
  unfolding has_dot
  block_unqualified_eval w st msg =
      if asks_address msg.question && not (has_dot st.q_name)
      then evaluated w (name_error st msg) msg
      else evaluated w st msg

  -- `PluginBlockUndelegated`: the tree is made of the names backwards.
  unfoldable pub undelegated_suffixes : (t : Trie Bool) → List Bytes → Trie.Tree t → Trie.Tree t
  undelegated_suffixes t [] suffixes = suffixes
  undelegated_suffixes t (line ∷ lines) suffixes =
      undelegated_suffixes t lines (Trie.insert t (string_reverse line) (some true) suffixes)

  ends_label : Bytes → Option (Bytes × Option Bool) → Bool
  ends_label rev none = false
  ends_label rev (some (m, v)) = at_boundary m rev

  unfoldable pub block_undelegated_eval : (t : Trie Bool) → Trie.Tree t → Plugin Unit
  unfolding ends_label
  block_undelegated_eval t suffixes w st msg =
      let rev = string_reverse st.q_name in
      if ends_label rev (Trie.longest_prefix t suffixes rev)
      then evaluated w (name_error st msg) msg
      else evaluated w st msg

  -- The name after the first label, or the root.
  parent_zone : Bytes → Bytes
  parent_zone name = elim (index_func name (λ c. c == b'.')) [
    | none ↦ codes "."
    | some i ↦ if leb (length name) (i + 1) then codes "." else drop (i + 1) name
  ]

  ipv6_hinfo : Question → Rr
  ipv6_hinfo q = record {
    header = record { name = q.name; rrtype = type_hinfo; class = class_inet; ttl = 86400 };
    rdata =
        hinfo (codes "AAAA queries have been locally blocked by dnscrypt-proxy")
          (codes "Set block_ipv6 to false to disable that feature");
  }

  ipv6_soa : Question → Rr
  unfolding parent_zone
  ipv6_soa q = record {
    header = record { name = parent_zone q.name; rrtype = type_soa; class = class_inet; ttl = 60 };
    rdata =
        soa (codes "a.root-servers.net.") (codes "h.invalid.")
          (1 ∷ 10000 ∷ 300 ∷ 604800 ∷ 2400 ∷ []);
  }

  block_ipv6_question : PluginsState → Msg → List Question → PluginsState
  unfolding ipv6_hinfo ipv6_soa
  block_ipv6_question st msg [] = st
  block_ipv6_question st msg (q ∷ qs) =
      if q.qclass == class_inet && q.qtype == type_aaaa
      then synthesize
          (record (empty_response_from_message lib msg) {
            answer = ipv6_hinfo q ∷ [];
            ns = ipv6_soa q ∷ [];
          })
          code_synth st
      else st

  -- `PluginBlockIPv6.Eval`.
  unfoldable pub block_ipv6_eval : Plugin Unit
  unfolding block_ipv6_question
  block_ipv6_eval w st msg = evaluated w (block_ipv6_question st msg msg.question) msg

  -- `PluginQueryMeta.Eval`, with the texts of the setting.
  unfoldable pub query_meta_eval : List Bytes → Plugin Unit
  query_meta_eval texts w st msg = evaluated w st (record msg {
    extra =
        record {
          header = record { name = codes "."; rrtype = type_txt; class = class_inet; ttl = 86400 };
          rdata = txt texts;
        }
        ∷ [];
  })

  -- `GetEntry`.
  unfoldable pub get_entry :
      List (Bytes × List Bytes) → List Question → Option (Question × List Bytes)
  get_entry ips_map [] = none
  get_entry ips_map (q ∷ q' ∷ qs) = none
  get_entry ips_map (q ∷ []) = elim (normalize_q_name q.name) [
    | err e ↦ none
    | ok name ↦ elim (lookup_text name ips_map) [
      | none ↦ none
      | some ips ↦ if q.qclass == class_inet then some (q, ips) else none
    ]
  ]

  portal_rr : Question → ℕ → Rdata → Rr
  portal_rr q rrtype rdata = record {
    header = record { name = q.name; rrtype = rrtype; class = class_inet; ttl = 1 };
    rdata = rdata;
  }

  module _ (to4 to16 : Bytes → Option Bytes) where
    ipv4_records : Question → List Bytes → List Rr
    unfolding portal_rr
    ipv4_records q [] = []
    ipv4_records q (ip ∷ ips) = elim (to4 ip) [
      | none ↦ ipv4_records q ips
      | some ip4 ↦ portal_rr q type_a (a_rr ip4) ∷ ipv4_records q ips
    ]

    ipv6_records : Question → List Bytes → List Rr
    unfolding portal_rr
    ipv6_records q [] = []
    ipv6_records q (ip ∷ ips) = elim (to4 ip) [
      | some ip4 ↦ ipv6_records q ips
      | none ↦ elim (to16 ip) [
        | none ↦ ipv6_records q ips
        | some ip6 ↦ portal_rr q type_aaaa (aaaa_rr ip6) ∷ ipv6_records q ips
      ]
    ]

    unfoldable pub handle_captive_portal_query : Msg → Question → List Bytes → Msg
    unfolding ipv4_records ipv6_records
    handle_captive_portal_query msg q ips =
        let resp = empty_response_from_message lib msg in
        record resp {
          answer =
              if q.qtype == type_a
              then resp.answer ++ ipv4_records q ips
              else if q.qtype == type_aaaa
              then resp.answer ++ ipv6_records q ips
              else resp.answer;
        }

    -- `PluginCaptivePortal.Eval`; the return code stays as it was.
    unfoldable pub captive_portal_eval : List (Bytes × List Bytes) → Plugin Unit
    captive_portal_eval ips_map w st msg = elim (get_entry ips_map msg.question) [
      | none ↦ evaluated w st msg
      | some (q, ips) ↦
          evaluated w
            (record st {
              synth_response = some (handle_captive_portal_query msg q ips);
              action = action_synth;
            })
            msg
    ]

  original_size : Option Edns → ℕ
  unfolding max
  original_size none = 512 - response_overhead
  original_size (some edns) = max (edns.udp_size - response_overhead) (512 - response_overhead)

  safe_size : Option Edns → ℕ → ℕ
  safe_size none size = size
  safe_size (some edns) size = edns.udp_size

  wants_dnssec : Option Edns → Bool
  wants_dnssec none = false
  wants_dnssec (some edns) = edns.do_bit

  -- The sizes that a query's EDNS0 record leads to.
  unfoldable pub payload_sizes : Option Edns → PluginsState → PluginsState
  unfolding original_size safe_size wants_dnssec min max
  payload_sizes edns st = record st {
    max_unencrypted_udp_safe_payload_size = safe_size edns st.max_unencrypted_udp_safe_payload_size;
    original_max_payload_size = original_size edns;
    dnssec = wants_dnssec edns;
    max_payload_size =
        min (max_dns_udp_packet_size - response_overhead)
          (max (original_size edns) st.max_payload_size);
  }

  opt_options : Rdata → List EdnsOption
  opt_options (opt options) = options
  opt_options (a_rr ip) = []
  opt_options (aaaa_rr ip) = []
  opt_options (cname target) = []
  opt_options (ptr target) = []
  opt_options (hinfo cpu os) = []
  opt_options (svcb priority target) = []
  opt_options (https priority target) = []
  opt_options (txt parts) = []
  opt_options (soa ns mbox numbers) = []
  opt_options (other bytes) = []

  -- The extra records without the OPT records, and the first options that are not empty.
  without_opt : List Rr → List Rr
  without_opt [] = []
  without_opt (rr ∷ rrs) =
      if rr.header.rrtype == type_opt then without_opt rrs else rr ∷ without_opt rrs

  first_options : List Rr → List EdnsOption
  unfolding opt_options
  first_options [] = []
  first_options (rr ∷ rrs) =
      if rr.header.rrtype == type_opt && ltb 0 (length (opt_options rr.rdata))
      then opt_options rr.rdata
      else first_options rrs

  -- The OPT record is made anew, and keeps the options that there were.
  renew_opt : ℕ → Bool → Msg → Msg
  unfolding without_opt first_options
  renew_opt size dnssec msg =
      let renewed =
        DnsLib.set_edns0 lib size dnssec (record msg { extra = without_opt msg.extra }) in
      let options = first_options msg.extra in
      if length options == 0 then renewed else DnsLib.set_options lib options renewed

  -- `PluginGetSetPayloadSize.Eval`.
  unfoldable pub get_set_payload_size_eval : Plugin Unit
  unfolding payload_sizes renew_opt
  get_set_payload_size_eval w st msg =
      let sized = payload_sizes (DnsLib.is_edns0 lib msg) st in
      if ltb 512 sized.max_payload_size
      then evaluated w sized (renew_opt sized.max_payload_size sized.dnssec msg)
      else evaluated w sized msg
