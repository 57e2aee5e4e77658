-- ===== src/Proxy/Replies.antt =====
-- proxy.go, `processIncomingQuery`: what is sent to the client.
use sourcegraph_testing_dnsc.Base.{
  Bool, Bool-cases, Bytes, List, Option, Option-cases, Result-cases, [], arith, false, inl, inr,
  length, ltb, ltb→lt, none, ok, refl, some, true, ℕ, ◌++◌, ◌<◌, ◌==◌, ◌||◌, ◌≡◌, ◌≤◌, ◌⊎◌,
}
use sourcegraph_testing_dnsc.Common.{max_dns_packet_size, min_dns_packet_size, prefix_with_size}
use sourcegraph_testing_dnsc.Proxy.Requests.{
  Client, Reply, adjustment, after_exchange, after_query_plugins, bad_size, finish_request,
  fits_udp, forwarded_or_answered, from_server, is_drop, local_doh, needs_padding, outcome_notices,
  process_incoming_query, refused, sent_reply, stopped_reply, tcp_client, to_client, udp_client,
  with_synthesized,
}
use sourcegraph_testing_dnsc.Dns.{DnsLib}
use sourcegraph_testing_dnsc.Dns.Replies.{truncated_response}
use sourcegraph_testing_dnsc.Estimator.{Adjustment}
use sourcegraph_testing_dnsc.Plugins.{PluginsReturnCode, PluginsState}
use sourcegraph_testing_dnsc.Plugins.Pipeline.{
  Applied, Globals, apply_query_plugins, apply_response_plugins,
}
use sourcegraph_testing_dnsc.Proxy.Upstream.{
  Exchange, Notice, Upstream, answered, exchange, exited, stopped,
}
use sourcegraph_testing_dnsc.Crypto.{Proto}

-- The sizes that are passed on.
pub record HasSize (packet : Bytes) : Type 0 where
  pub lower : min_dns_packet_size ≤ length packet
  pub upper : length packet ≤ max_dns_packet_size

good_size : (packet : Bytes) → bad_size packet ≡ false → HasSize packet
good_size packet h = record { lower = low (length packet) h; upper = high (length packet) h }
  where
    low :
        (n : ℕ)
        → (ltb n min_dns_packet_size || ltb max_dns_packet_size n) ≡ false
        → min_dns_packet_size ≤ n
    low n e = ground arith

    high :
        (n : ℕ)
        → (ltb n min_dns_packet_size || ltb max_dns_packet_size n) ≡ false
        → n ≤ max_dns_packet_size
    high n e = ground arith

module _ {W : Type 0} (lib : DnsLib) (globals : Globals W) (now : ℕ) where
  -- What is sent over UDP: a response that fits, or the truncation of one that does not; the size
  -- estimator is told, and it is told of a failure exactly for a truncated packet.
  pub record SentUdp (st : PluginsState) (packet : Bytes) (told : Option Adjustment) : Type 0 where
    pub response : Bytes
    pub size : HasSize response
    pub fits :
        ((packet ≡ response) × (length response ≤ st.max_unencrypted_udp_safe_payload_size))
        ⊎ ((st.max_unencrypted_udp_safe_payload_size < length response)
            × (truncated_response lib response ≡ ok packet))
    pub telling : told ≡ some (adjustment packet)

  -- Over TCP: a response in its frame.
  pub record SentTcp (packet : Bytes) (told : Option Adjustment) : Type 0 where
    pub response : Bytes
    pub size : HasSize response
    pub framed : prefix_with_size response ≡ ok packet
    pub silent : told ≡ none

  abbrev pub SentTo : Client → PluginsState → Bytes → Option Adjustment → Type 0
  SentTo udp_client st packet told = SentUdp st packet told
  SentTo tcp_client st packet told = SentTcp packet told
  SentTo local_doh st packet told = ⊥

  abbrev SendsOption : Client → PluginsState → Bytes → Option Bytes → Option Adjustment → Type 0
  SendsOption client st response none told = told ≡ none
  SendsOption client st response (some packet) told =
      (response ≡ packet) × SentTo client st packet told

  abbrev pub Sends : Client → Reply W → Type 0
  Sends client r = SendsOption client r.state r.response r.sent r.adjusted

  abbrev pub IfReplies : (Reply W → Type 0) → Option (Reply W) → Type 0
  IfReplies P none = Unit {0}
  IfReplies P (some r) = P r

  to_client-Sends :
      (client : Client) (server : Bool) (w : W) (st : PluginsState) (response : Bytes)
      (notices : List Notice)
      → HasSize response
      → Sends client (to_client lib globals now client server w st response notices)
  unfolding to_client refused sent_reply fits_udp
  to_client-Sends local_doh server w st response notices size = refl
  to_client-Sends tcp_client server w st response notices size =
      elim (Result-cases (prefix_with_size response)) [
        | inr (e, h) ↦ rw (to_client, h) refl
        | inl (p, h) ↦
            rw (to_client, h)
              (refl, record { response = response; size = size; framed = h; silent = refl })
      ]
  to_client-Sends udp_client server w st response notices size =
      elim (Bool-cases (ltb st.max_unencrypted_udp_safe_payload_size (length response))) [
        | inr e ↦
            rw (to_client, fits_udp, e)
              (
                refl,
                record {
                  response = response;
                  size = size;
                  fits = inl (refl, below _ _ e);
                  telling = refl;
                },
              )
        | inl e ↦ elim (Result-cases (truncated_response lib response)) [
          | inr (x, h) ↦ rw (to_client, fits_udp, e, h) refl
          | inl (p, h) ↦
              rw (to_client, fits_udp, e, h)
                (
                  refl,
                  record {
                    response = response;
                    size = size;
                    fits = inr (ltb→lt _ _ e, h);
                    telling = refl;
                  },
                )
        ]
      ]
    where
      below : (n m : ℕ) → ltb n m ≡ false → m ≤ n
      below n m e = ground arith

  finish_request-Sends :
      (client : Client) (server : Bool) (w : W) (st : PluginsState) (response : Bytes)
      (notices : List Notice)
      → Sends client (finish_request lib globals now client server w st response notices)
  unfolding finish_request refused
  finish_request-Sends client server w st response notices = elim (Bool-cases (bad_size response)) [
    | inl e ↦ rw (finish_request, e) refl
    | inr e ↦
        rw (finish_request, e)
          (to_client-Sends client server w st response notices (good_size response e))
  ]

  with_synthesized-Sends :
      (client : Client) (w : W) (st : PluginsState) (response : Bytes) (notices : List Notice)
      → Sends client (with_synthesized lib globals now client w st response notices)
  unfolding with_synthesized refused
  with_synthesized-Sends client w st response notices = elim (Option-cases st.synth_response) [
    | inl e ↦
        rw (with_synthesized, e)
          (finish_request-Sends client true w st response (notices ++ outcome_notices st response))
    | inr (msg, e) ↦ elim (Option-cases (lib.pack msg)) [
      | inl f ↦ rw (with_synthesized, e, f) refl
      | inr (packet, f) ↦
          rw (with_synthesized, e, f)
            (finish_request-Sends client true w st packet (notices ++ outcome_notices st packet))
    ]
  ]

  after_exchange-Sends :
      (client : Client) (w : W) (st : PluginsState) (response : Bytes) (notices : List Notice)
      → Sends client (after_exchange lib globals now client w st response notices)
  unfolding after_exchange refused
  after_exchange-Sends client w st response notices =
      let a = apply_response_plugins lib globals w st response none in
      elim (Bool-cases (bad_size response)) [
        | inl e ↦ rw (after_exchange, e) refl
        | inr e ↦ elim (Option-cases a.error) [
          | inr (x, f) ↦ rw (after_exchange, e, f) refl
          | inl f ↦ elim (Bool-cases (is_drop a.state.action)) [
            | inl g ↦ rw (after_exchange, e, f, g) refl
            | inr g ↦
                rw (after_exchange, e, f, g)
                  (with_synthesized-Sends client a.world a.state a.packet notices)
          ]
        ]
      ]

  stopped_reply-Sends :
      (client : Client) (response : Bytes) (code : Option PluginsReturnCode) (notices : List Notice)
      (w : W) (st : PluginsState)
      → Sends client (stopped_reply lib globals now response code notices w st)
  unfolding stopped_reply refused
  stopped_reply-Sends client response none notices w st = refl
  stopped_reply-Sends client response (some code) notices w st = refl

  module _ {T : Type 0} where
    from_server-Sends :
        (client : Client) (server_proto : Proto) (u : Upstream T) (w : W) (st : PluginsState)
        (query : Bytes)
        → IfReplies (Sends client) (from_server lib globals now client server_proto u w st query)
    unfolding from_server
    from_server-Sends client server_proto u w st query =
        go (exchange lib u st.stale server_proto query)
      where
        named : PluginsState
        named = record st { server_name = u.name }

        go :
            (e : Exchange)
            → IfReplies (Sends client) (elim e [
              | exited ↦ none
              | stopped response code notices ↦
                  some (stopped_reply lib globals now response code notices w named)
              | answered response notices ↦
                  some (after_exchange lib globals now client w named response notices)
            ])
        go exited = tt
        go (stopped response code notices) =
            stopped_reply-Sends client response code notices w named
        go (answered response notices) = after_exchange-Sends client w named response notices

    forwarded_or_answered-Sends :
        (client : Client) (server_proto : Proto) (only_cached : Bool) (server : Option (Upstream T))
        (w : W) (st : PluginsState) (query response : Bytes)
        → IfReplies (Sends client) (
            forwarded_or_answered lib globals now client server_proto only_cached server w st query
              response)
    unfolding forwarded_or_answered
    forwarded_or_answered-Sends client server_proto true server w st query response =
        elim (Bool-cases (length response == 0)) [
          | inl e ↦ rw (forwarded_or_answered, e) refl
          | inr e ↦
              rw (forwarded_or_answered, e) (finish_request-Sends client false w st response [])
        ]
    forwarded_or_answered-Sends client server_proto false none w st query response =
        finish_request-Sends client false w st response []
    forwarded_or_answered-Sends client server_proto false (some u) w st query response =
        elim (Bool-cases (length response == 0)) [
          | inl e ↦
              rw (forwarded_or_answered, e) (from_server-Sends client server_proto u w st query)
          | inr e ↦
              rw (forwarded_or_answered, e) (finish_request-Sends client true w st response [])
        ]

    after_query_plugins-Sends :
        (client : Client) (server_proto : Proto) (only_cached : Bool) (server : Option (Upstream T))
        (a : Applied W)
        → IfReplies
            (Sends client)
            (after_query_plugins lib globals now client server_proto only_cached server a)
    unfolding after_query_plugins refused
    after_query_plugins-Sends client server_proto only_cached server a =
        elim (Bool-cases (bad_size a.packet)) [
          | inl e ↦ rw (after_query_plugins, e) refl
          | inr e ↦ elim (Bool-cases (is_drop a.state.action)) [
            | inl f ↦ rw (after_query_plugins, e, f) refl
            | inr f ↦ elim (Option-cases a.state.synth_response) [
              | inl g ↦
                  rw (after_query_plugins, e, f, g)
                    (forwarded_or_answered-Sends client server_proto only_cached server a.world
                      a.state a.packet [])
              | inr (msg, g) ↦ elim (Option-cases (lib.pack msg)) [
                | inl k ↦ rw (after_query_plugins, e, f, g, k) refl
                | inr (packet, k) ↦
                    rw (after_query_plugins, e, f, g, k)
                      (forwarded_or_answered-Sends client server_proto only_cached server a.world
                        a.state a.packet packet)
              ]
            ]
          ]
        ]

    -- Whatever a client sends and whatever the plugins and the server do, what is sent back over UDP is
    -- a response of an allowed size that fits the client's limit, or the truncation of one that does
    -- not, with the size estimator told of a failure exactly when the packet is truncated; over TCP it
    -- is a response of an allowed size in its frame; the local DoH server is only handed the response.
    -- Where nothing is sent the estimator is told nothing.
    pub process_incoming_query-Sends :
        (client : Client) (server_proto : Proto) (only_cached : Bool) (server : Option (Upstream T))
        (w : W) (st : PluginsState) (query : Bytes)
        → IfReplies (Sends client) (
            process_incoming_query lib globals now client server_proto only_cached server w st
              query)
    unfolding process_incoming_query
    process_incoming_query-Sends client server_proto only_cached server w st query =
        elim (Bool-cases (ltb (length query) min_dns_packet_size)) [
          | inl e ↦ rw (process_incoming_query, e) refl
          | inr e ↦
              rw (process_incoming_query, e)
                (after_query_plugins-Sends client server_proto only_cached server
                  (apply_query_plugins lib globals w st query (needs_padding server)))
        ]
