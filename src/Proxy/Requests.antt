-- ===== src/Proxy/Requests.antt =====
-- proxy.go: `processIncomingQuery`.
use sourcegraph_testing_dnsc.Base.{
  Bool, Bytes, List, Option, Result, [], err, false, if◌then◌else◌, length, ltb, none, ok, some,
  true, ℕ, ◌&&◌, ◌++◌, ◌+◌, ◌==◌, ◌||◌, ◌∷◌,
}
use sourcegraph_testing_dnsc.Common.{max_dns_packet_size, min_dns_packet_size, prefix_with_size}
use sourcegraph_testing_dnsc.Crypto.{Proto, response_overhead}
use sourcegraph_testing_dnsc.Dns.{DnsLib, rcode_server_failure}
use sourcegraph_testing_dnsc.Dns.Padding.{has_tc_flag, rcode_of}
use sourcegraph_testing_dnsc.Dns.Replies.{truncated_response}
use sourcegraph_testing_dnsc.Estimator.{Adjustment, blind, sample}
use sourcegraph_testing_dnsc.Plugins.{
  PluginsAction, PluginsReturnCode, PluginsState, action_continue, action_drop, action_none,
  action_reject, action_synth, code_drop, code_not_ready, code_parse_error,
}
use sourcegraph_testing_dnsc.Plugins.Pipeline.{
  Applied, Globals, apply_logging_plugins, apply_query_plugins, apply_response_plugins,
}
use sourcegraph_testing_dnsc.Servers.{doh, is_proto, tls}
use sourcegraph_testing_dnsc.Proxy.Upstream.{
  Notice, Upstream, answered, exchange, exited, notice_failure, notice_success, stopped,
}

pub data Client : Type 0 where
  udp_client tcp_client local_doh : Client

-- What a request leaves: the response that is returned, what is sent to the client, the notices to
-- the server, and what the size estimator is told.
pub record Reply (W : Type 0) : Type 0 where
  pub world : W
  pub state : PluginsState
  pub response : Bytes
  pub sent : Option Bytes
  pub notices : List Notice
  pub adjusted : Option Adjustment

abbrev pub is_drop : PluginsAction → Bool
is_drop action_none = false
is_drop action_continue = false
is_drop action_drop = true
is_drop action_reject = false
is_drop action_synth = false

-- The sizes that a packet may have.
abbrev pub bad_size : Bytes → Bool
bad_size packet = ltb (length packet) min_dns_packet_size || ltb max_dns_packet_size (length packet)

abbrev pub adjustment : Bytes → Adjustment
adjustment response =
    if has_tc_flag response then blind else sample (response_overhead + length response)

abbrev pub note_if : Bool → List Notice → List Notice
note_if server notices = if server then notices ++ notice_failure ∷ [] else notices

unfoldable pub fits_udp : DnsLib → PluginsState → Bytes → Result Bytes
fits_udp lib st response =
    if ltb st.max_unencrypted_udp_safe_payload_size (length response)
    then truncated_response lib response
    else ok response

-- The notice on a response, by its code.
unfoldable pub outcome_notices : PluginsState → Bytes → List Notice
outcome_notices st response =
    if rcode_of response == rcode_server_failure
    then (if st.dnssec then [] else notice_failure ∷ [])
    else notice_success ∷ []

abbrev pub needs_padding : {T : Type 0} → Option (Upstream T) → Bool
needs_padding none = false
needs_padding (some u) = is_proto u.proto doh || is_proto u.proto tls

-- A request ends without a `Reply` only where the program does.
module _ {W : Type 0} (lib : DnsLib) (globals : Globals W) (now : ℕ) where
  unfoldable pub logged_as : PluginsReturnCode → W → PluginsState → W
  logged_as code w st =
      (apply_logging_plugins lib globals w (record st { return_code = code }) now).0

  -- Nothing is sent.
  abbrev pub unsent : W → PluginsState → Bytes → List Notice → Reply W
  unsent w st response notices = record {
    world = w;
    state = st;
    response = response;
    sent = none;
    notices = notices;
    adjusted = none;
  }

  -- With a code for the log.
  unfoldable pub refused : PluginsReturnCode → W → PluginsState → Bytes → List Notice → Reply W
  unfolding logged_as
  refused code w st response notices = unsent (logged_as code w st) st response notices

  -- A response that is sent, and logged with the code of the plugins.
  unfoldable pub sent_reply : W → PluginsState → Bytes → List Notice → Option Adjustment → Reply W
  unfolding logged_as
  sent_reply w st response notices adjusted = record {
    world = logged_as st.return_code w st;
    state = st;
    response = response;
    sent = some response;
    notices = notices;
    adjusted = adjusted;
  }

  unfoldable pub to_client : Client → Bool → W → PluginsState → Bytes → List Notice → Reply W
  unfolding fits_udp refused sent_reply logged_as
  to_client udp_client server w st response notices = elim (fits_udp lib st response) [
    | err e ↦ refused code_parse_error w st [] notices
    | ok r ↦ sent_reply w st r notices (some (adjustment r))
  ]
  to_client tcp_client server w st response notices = elim (prefix_with_size response) [
    | err e ↦ refused code_parse_error w st [] (note_if server notices)
    | ok r ↦ sent_reply w st r notices none
  ]
  to_client local_doh server w st response notices =
      unsent (logged_as st.return_code w st) st response notices

  -- The end of every request that has got so far: `server` says whether there is one.
  unfoldable pub finish_request : Client → Bool → W → PluginsState → Bytes → List Notice → Reply W
  unfolding to_client refused
  finish_request client server w st response notices =
      let code = if length response == 0 then code_not_ready else code_parse_error in
      if bad_size response
      then refused code w st response (note_if server notices)
      else to_client client server w st response notices

  unfoldable pub with_synthesized : Client → W → PluginsState → Bytes → List Notice → Reply W
  unfolding finish_request refused outcome_notices
  with_synthesized client w st response notices = elim st.synth_response [
    | none ↦ finish_request client true w st response (notices ++ outcome_notices st response)
    | some msg ↦ elim (lib.pack msg) [
      | none ↦ refused code_parse_error w st [] notices
      | some packet ↦ finish_request client true w st packet (notices ++ outcome_notices st packet)
    ]
  ]

  -- A server's response, through the response plugins.
  unfoldable pub after_exchange : Client → W → PluginsState → Bytes → List Notice → Reply W
  unfolding with_synthesized refused
  after_exchange client w st response notices =
      let a = apply_response_plugins lib globals w st response none in
      if bad_size response
      then refused code_parse_error w st response (notices ++ notice_failure ∷ [])
      else elim a.error [
        | some e ↦
            refused code_parse_error a.world a.state a.packet (notices ++ notice_failure ∷ [])
        | none ↦
            if is_drop a.state.action
            then refused code_drop a.world a.state a.packet notices
            else with_synthesized client a.world a.state a.packet notices
      ]

  unfoldable pub stopped_reply :
      Bytes → Option PluginsReturnCode → List Notice → W → PluginsState → Reply W
  unfolding refused
  stopped_reply response none notices w st = unsent w st response notices
  stopped_reply response (some code) notices w st = refused code w st response notices

  -- From the server, where the query plugins gave no response.
  unfoldable pub from_server :
      {T : Type 0} → Client → Proto → Upstream T → W → PluginsState → Bytes → Option (Reply W)
  unfolding stopped_reply after_exchange
  from_server client server_proto u w st query =
      let named = record st { server_name = u.name } in
      elim (exchange lib u st.stale server_proto query) [
        | exited ↦ none
        | stopped response code notices ↦ some (stopped_reply response code notices w named)
        | answered response notices ↦ some (after_exchange client w named response notices)
      ]

  -- After the query plugins, with the response that they synthesized, if any.
  unfoldable pub forwarded_or_answered :
      {T : Type 0}
      → Client
      → Proto
      → Bool
      → Option (Upstream T)
      → W
      → PluginsState
      → Bytes
      → Bytes
      → Option (Reply W)
  forwarded_or_answered client server_proto only_cached server w st query response =
      if only_cached && length response == 0
      then some (unsent w st [] [])
      else if only_cached
      then some (finish_request client false w st response [])
      else elim server [
        | none ↦ some (finish_request client false w st response [])
        | some u ↦
            if length response == 0
            then from_server client server_proto u w st query
            else some (finish_request client true w st response [])
      ]

  unfoldable pub after_query_plugins :
      {T : Type 0} → Client → Proto → Bool → Option (Upstream T) → Applied W → Option (Reply W)
  unfolding forwarded_or_answered refused
  after_query_plugins client server_proto only_cached server a =
      if bad_size a.packet
      then some (unsent a.world a.state [] [])
      else if is_drop a.state.action
      then some (refused code_drop a.world a.state [] [])
      else elim a.state.synth_response [
        | none ↦
            forwarded_or_answered client server_proto only_cached server a.world a.state a.packet []
        | some msg ↦ elim (lib.pack msg) [
          | none ↦ some (refused code_parse_error a.world a.state [] [])
          | some packet ↦
              forwarded_or_answered client server_proto only_cached server a.world a.state a.packet
                packet
        ]
      ]

  unfoldable pub process_incoming_query :
      {T : Type 0}
      → Client
      → Proto
      → Bool
      → Option (Upstream T)
      → W
      → PluginsState
      → Bytes
      → Option (Reply W)
  unfolding after_query_plugins
  process_incoming_query client server_proto only_cached server w st query =
      if ltb (length query) min_dns_packet_size
      then some (unsent w st [] [])
      else after_query_plugins client server_proto only_cached server
          (apply_query_plugins lib globals w st query (needs_padding server))
