-- ===== src/Plugins/Pipeline.antt =====
-- dnscrypt-proxy/plugins.go: `ApplyQueryPlugins`, `ApplyResponsePlugins`, `ApplyLoggingPlugins`.
use sourcegraph_testing_dnsc.Base.{
  Bool, Bytes, Error, List, Option, [], err, false, if◌then◌else◌, leb, length, none, ok,
  pack_failed, question_not_found, some, true, unexpected_questions, unpack_failed, ℕ, ◌&&◌, ◌==◌,
  ◌∷◌,
}
use sourcegraph_testing_dnsc.Common.{min_dns_packet_size}
use sourcegraph_testing_dnsc.Dns.{
  DnsLib, Msg, Question, rcode_name_error, rcode_server_failure, rcode_success,
}
use sourcegraph_testing_dnsc.Dns.Lifetimes.{set_max_ttl}
use sourcegraph_testing_dnsc.Dns.Names.{normalize_q_name}
use sourcegraph_testing_dnsc.Dns.Padding.{
  add_edns0_padding_if_none_found, has_tc_flag, pad_len, rcode_of, remove_edns0_options,
}
use sourcegraph_testing_dnsc.Dns.Replies.{refused_response_from_message}
use sourcegraph_testing_dnsc.Plugins.{
  Evaluated, Plugin, PluginsAction, PluginsReturnCode, PluginsState, action_continue, action_drop,
  action_none, action_reject, action_synth, code_nx_domain, code_pass, code_response_error,
  code_serv_fail, evaluated, failed,
}
use sourcegraph_testing_dnsc.Plugins.Config.{BlockedResponse}

abbrev pub is_continue : PluginsAction → Bool
is_continue action_none = false
is_continue action_continue = true
is_continue action_drop = false
is_continue action_reject = false
is_continue action_synth = false

abbrev pub is_reject : PluginsAction → Bool
is_reject action_none = false
is_reject action_continue = false
is_reject action_drop = false
is_reject action_reject = true
is_reject action_synth = false

-- The plugins and the settings that a request reads; `to4` and `to16` are methods of `net.IP`.
pub record Globals (W : Type 0) : Type 0 where
  pub query : List (Plugin W)
  pub response : List (Plugin W)
  pub logging : List (Plugin W)
  pub blocked : BlockedResponse
  pub to4 : Bytes → Option Bytes
  pub to16 : Bytes → Option Bytes

-- What a stage leaves: the packet is returned with an error, too.
pub record Applied (W : Type 0) : Type 0 where
  pub world : W
  pub state : PluginsState
  pub packet : Bytes
  pub error : Option Error

pub is_nil : {A : Type 0} → List A → Bool
is_nil [] = true
is_nil (x ∷ xs) = false

module _ {W : Type 0} (lib : DnsLib) (globals : Globals W) where
  open lib use {unpack, pack, spoiled}

  -- A query that a plugin rejects is answered from the message as the plugin leaves it.
  unfoldable pub answer_reject : PluginsState → Msg → PluginsState
  answer_reject st msg =
      if is_reject st.action
      then record st {
        synth_response = some (
            refused_response_from_message lib globals.to4 globals.to16 msg
              globals.blocked.refused_code_in_responses globals.blocked.respond_with_ipv4
              globals.blocked.respond_with_ipv6 st.reject_ttl);
      }
      else st

  -- After a plugin: on an error the request is dropped; the loop goes on while the action is to
  -- continue.
  unfoldable pub plugin_loop : List (Plugin W) → W → PluginsState → Msg → Evaluated W
  unfolding answer_reject
  plugin_loop [] w st msg = evaluated w st msg
  plugin_loop (plugin ∷ plugins) w st msg =
      let ev = plugin w st msg in
      let st' = answer_reject ev.state ev.msg in
      elim ev.error [
        | some e ↦ failed ev.world (record ev.state { action = action_drop }) ev.msg e
        | none ↦ elim (is_continue ev.state.action) [
          | true ↦ plugin_loop plugins ev.world st' ev.msg
          | false ↦ evaluated ev.world st' ev.msg
        ]
      ]

  -- `questionMsg` points to the message that the plugins change.
  abbrev pub point_to : Msg → PluginsState → PluginsState
  point_to msg st = record st { question_msg = some msg }

  abbrev pub applied : W → PluginsState → Bytes → Option Error → Applied W
  applied w st packet error = record { world = w; state = st; packet = packet; error = error }

  -- The padding at the end of a query stage.
  unfoldable pub pad_query : W → PluginsState → Msg → Bytes → Bool → Applied W
  pad_query w st msg packet2 needs_edns0_padding =
      let padded = add_edns0_padding_if_none_found lib msg packet2 (pad_len (length packet2)) in
      if needs_edns0_padding && is_continue st.action
      then applied w (point_to (padded.0) st)
          (elim (padded.1) [ ok packet ↦ packet | err e ↦ packet2 ]) none
      else applied w (point_to msg st) packet2 none

  unfoldable pub finish_query : Bytes → Bool → Evaluated W → Applied W
  unfolding pad_query
  finish_query packet needs_edns0_padding ev = elim ev.error [
    | some e ↦ applied ev.world (point_to ev.msg ev.state) packet (some e)
    | none ↦ elim (pack ev.msg) [
      | none ↦
          applied ev.world (point_to ev.msg ev.state) (spoiled packet ev.msg) (some pack_failed)
      | some packet2 ↦ pad_query ev.world ev.state ev.msg packet2 needs_edns0_padding
    ]
  ]

  unfoldable pub named_query : W → PluginsState → Msg → Bytes → Bytes → Bool → Applied W
  unfolding finish_query plugin_loop
  named_query w st msg q_name packet needs_edns0_padding =
      let named = record st { q_name = q_name; question_msg = some msg } in
      if is_nil globals.query && is_nil globals.logging
      then applied w named packet none
      else finish_query packet needs_edns0_padding (plugin_loop globals.query w named msg)

  unfoldable pub one_question : W → PluginsState → Msg → List Question → Bytes → Bool → Applied W
  unfolding named_query
  one_question w st msg [] packet needs = applied w st packet (some unexpected_questions)
  one_question w st msg (q ∷ q' ∷ qs) packet needs = applied w st packet (some unexpected_questions)
  one_question w st msg (q ∷ []) packet needs = elim (normalize_q_name q.name) [
    | err e ↦ applied w st packet (some e)
    | ok q_name ↦ named_query w st msg q_name packet needs
  ]

  unfoldable pub apply_query_plugins : W → PluginsState → Bytes → Bool → Applied W
  unfolding one_question
  apply_query_plugins w st packet needs_edns0_padding = elim (unpack packet) [
    | none ↦ applied w st packet (some unpack_failed)
    | some msg ↦ one_question w st msg msg.question packet needs_edns0_padding
  ]

  -- The return code for the code in the packet's header.
  pub return_code_of : ℕ → PluginsReturnCode
  return_code_of rcode =
      if rcode == rcode_success
      then code_pass
      else if rcode == rcode_name_error
      then code_nx_domain
      else if rcode == rcode_server_failure
      then code_serv_fail
      else code_response_error

  capped : Option ℕ → Msg → Msg
  capped none msg = msg
  capped (some ttl) msg = set_max_ttl msg ttl

  finish_response : Bytes → Option ℕ → Evaluated W → Applied W
  unfolding capped
  finish_response packet ttl ev = elim ev.error [
    | some e ↦ applied ev.world ev.state packet (some e)
    | none ↦ elim (pack (capped ttl ev.msg)) [
      | none ↦ applied ev.world ev.state (spoiled packet (capped ttl ev.msg)) (some pack_failed)
      | some packet2 ↦ applied ev.world ev.state packet2 none
    ]
  ]

  -- A truncated response that cannot be read is passed on.
  unfoldable pub apply_response_plugins : W → PluginsState → Bytes → Option ℕ → Applied W
  unfolding finish_response plugin_loop return_code_of
  apply_response_plugins w st packet ttl = elim (unpack packet) [
    | none ↦
        if leb min_dns_packet_size (length packet) && has_tc_flag packet
        then applied w st packet none
        else applied w st packet (some unpack_failed)
    | some msg ↦ finish_response packet ttl (
        plugin_loop globals.response w
          (record st { return_code = return_code_of (rcode_of packet) })
          ((remove_edns0_options lib (record msg { compress = true })).0))
  ]

  pub logging_loop : List (Plugin W) → W → PluginsState → Msg → Evaluated W
  logging_loop [] w st msg = evaluated w st msg
  logging_loop (plugin ∷ plugins) w st msg =
      let ev = plugin w st msg in
      elim ev.error [
        | some e ↦ failed ev.world ev.state ev.msg e
        | none ↦ logging_loop plugins ev.world ev.state ev.msg
      ]

  -- The message that the logging plugins read is the one that `questionMsg` points to.
  logged : W → PluginsState → Option Msg → W × PluginsState × Option Error
  unfolding logging_loop
  logged w st none = (w, st, some question_not_found)
  logged w st (some msg) =
      let ev = logging_loop globals.logging w st msg in
      (ev.world, point_to ev.msg ev.state, ev.error)

  -- `ApplyLoggingPlugins` at the time `now`.
  unfoldable pub apply_logging_plugins : W → PluginsState → ℕ → W × PluginsState × Option Error
  unfolding logged
  apply_logging_plugins w st now =
      if is_nil globals.logging
      then (w, st, none)
      else logged w (record st { request_end = now }) st.question_msg
