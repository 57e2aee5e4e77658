-- ===== src/Plugins/Synthetic/Answered.antt =====
-- The plugins that answer a query at once: what they answer.
use sourcegraph_testing_dnsc.Base.{
  Bool, Option, [], arith, bytes_eq, codes, false, if◌then◌else◌, inl, inr, none, refl, some, true,
  ◌&&◌, ◌-◌, ◌≡◌, ◌≤◌, ◌⊎◌,
}
use sourcegraph_testing_dnsc.Common.{max, max_dns_udp_packet_size, min}
use sourcegraph_testing_dnsc.Crypto.{response_overhead}
use sourcegraph_testing_dnsc.Dns.{DnsLib, Edns, Msg, rcode_name_error}
use sourcegraph_testing_dnsc.Dns.Replies.{
  Answers, KeepsMessage, empty_response-Answers, empty_response_from_message,
}
use sourcegraph_testing_dnsc.Patterns.Tries.{Trie}
use sourcegraph_testing_dnsc.Plugins.{Evaluated, PluginsState, action_synth, evaluated}
use sourcegraph_testing_dnsc.Plugins.Synthetic.{
  asks_address, block_undelegated_eval, block_unqualified_eval, firefox_eval, is_firefox_name,
  name_error, payload_sizes,
}

module _ (lib : DnsLib) (laws : KeepsMessage lib) where
  -- Nothing is changed, or the query is answered by NXDOMAIN without a record.
  abbrev pub PassesOrDenies : Unit {0} → PluginsState → Msg → Evaluated Unit → Type 0
  PassesOrDenies w st msg out =
      (out ≡ evaluated w st msg)
      ⊎ ((out.error ≡ none)
          × (out.msg ≡ msg)
          × (out.state.action ≡ action_synth)
          × (synth : Msg) × (out.state.synth_response ≡ some synth)
          × Answers msg synth
          × (synth.rcode ≡ rcode_name_error)
          × (synth.answer ≡ []))

  denied :
      (w : Unit) (st : PluginsState) (msg : Msg)
      → PassesOrDenies w st msg (evaluated w (name_error lib st msg) msg)
  denied w st msg =
      let (h, empty, same) = empty_response-Answers lib laws msg in
      inr (
        refl,
        refl,
        refl,
        record (empty_response_from_message lib msg) { rcode = rcode_name_error },
        refl,
        record {
          same_id = h.same_id;
          is_response = h.is_response;
          same_question = h.same_question;
          not_authenticated = h.not_authenticated;
        },
        refl,
        empty,
      )

  if_denied :
      (b : Bool) (w : Unit) (st : PluginsState) (msg : Msg)
      → PassesOrDenies w st msg
          (if b then evaluated w (name_error lib st msg) msg else evaluated w st msg)
  if_denied true w st msg = denied w st msg
  if_denied false w st msg = inl refl

  -- The plugins for Firefox, for unqualified names and for undelegated zones leave a query as it
  -- is, or answer it by NXDOMAIN with its number and its question and no record.
  pub name_error_plugins-PassesOrDenies :
      (t : Trie Bool) (suffixes : Trie.Tree t) (w : Unit) (st : PluginsState) (msg : Msg)
      → PassesOrDenies w st msg (firefox_eval lib w st msg)
        × PassesOrDenies w st msg (block_unqualified_eval lib w st msg)
        × PassesOrDenies w st msg (block_undelegated_eval lib t suffixes w st msg)
  unfolding firefox_eval block_unqualified_eval block_undelegated_eval
  name_error_plugins-PassesOrDenies t suffixes w st msg = (
    firefox (bytes_eq st.client_proto (codes "local_doh")),
    if_denied _ w st msg,
    if_denied _ w st msg,
  )
    where
      firefox :
          (b : Bool)
          → PassesOrDenies w st msg (
              if b
              then evaluated w st msg
              else if asks_address msg.question && is_firefox_name st.q_name
              then evaluated w (name_error lib st msg) msg
              else evaluated w st msg)
      firefox true = inl refl
      firefox false = if_denied _ w st msg

  -- The size of a response that is asked for is at least that of plain DNS and at most the
  -- largest that is sent by UDP, each less what encryption adds.
  pub payload_sizes_bounds :
      (edns : Option Edns) (st : PluginsState)
      → (512 - response_overhead ≤ (payload_sizes lib edns st).max_payload_size)
        × ((payload_sizes lib edns st).max_payload_size
            ≤ max_dns_udp_packet_size - response_overhead)
  unfolding payload_sizes min max
  payload_sizes_bounds none st = (ground arith, ground arith)
  payload_sizes_bounds (some edns) st = (ground arith, ground arith)
