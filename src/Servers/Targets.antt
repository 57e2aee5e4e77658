-- ===== src/Servers/Targets.antt =====
-- serversInfo.go: targets of oblivious DoH, and `fetchServerInfo` over all protocols.
use sourcegraph_testing_dnsc.Base.{
  Bool, Bytes, List, Option, Result, [], bad_http_status, codes, config_changed, empty_odoh_config,
  err, if◌then◌else◌, leb, ltb, no_odoh_config, no_odoh_relay, no_working_config, none, ok, some,
  suc, unpack_failed, unsupported_protocol, wrong_relay_type, zero, ℕ, ◌&&◌, ◌+◌, ◌-◌, ◌/◌, ◌==◌,
  ◌||◌, ◌∷◌,
}
use sourcegraph_testing_dnsc.Servers.{
  RegisteredServer, Relay, RttAverage, ServerInfo, ServerStamp, Url, dnscrypt, dnscrypt_via, doh,
  is_proto, odoh_target, odoh_via,
}
use sourcegraph_testing_dnsc.Servers.Routes.{RouteEnv, route}
use sourcegraph_testing_dnsc.Servers.Fetch.{
  EncryptedQuery, FetchEnv, HttpAnswer, blank, check_response, doh_nx_test_packet, doh_test_packet,
  fetch_dnscrypt_server_info, fetch_doh_server_info, https, method_of,
}

-- The next configuration is tried, or the loop ends with a result, or the program panics.
pub data Probed (A T : Type 0) : Type 0 where
  next panics : Probed A T
  done : Result (ServerInfo A T) → Probed A T

module _ (R : RouteEnv) {A T : Type 0} (env : FetchEnv T) (no_average : A)
    (registered relays : List RegisteredServer) where
  open env use {odoh_query, get, parse_configs, encrypt_query, shuffle}

  -- `fetchTargetConfigsFromWellKnown`; `none` is a panic of the parser.
  unfoldable pub fetch_target_configs : Url → Option (Result (List T))
  fetch_target_configs url = elim (get url) [
    | err e ↦ some (err e)
    | ok answer ↦
        if ltb answer.status 200 || leb 300 answer.status
        then some (err bad_http_status)
        else parse_configs answer.body
  ]

  unfoldable pub probed :
      ServerStamp → Bytes → Url → T → Bool → EncryptedQuery → HttpAnswer → Probed A T
  probed stamp name relay_url config use_get query answer =
      let found = record (blank R {T = T} env no_average registered relays odoh_target name) {
        url = some (https stamp.provider_name stamp.path);
        host_name = stamp.provider_name;
        initial_rtt = answer.rtt / 1000000;
        use_get = use_get;
        relay = some (odoh_via relay_url);
        odoh_target_configs = config ∷ [];
      } in
      if answer.status == 401
      then done (err config_changed)
      else elim (query.decrypt_response answer.body) [
        | none ↦ next
        | some response ↦ elim (env.lib.unpack response) [
          | none ↦ done (err unpack_failed)
          | some msg ↦ elim answer.tls_state [
            | none ↦ panics
            | some tls' ↦ done (
                check_response R env no_average registered relays stamp.hashes
                  tls'.peer_certificates response found)
          ]
        ]
      ]

  -- A configuration with which the target does not answer is left for the next.
  unfoldable pub probe : ServerStamp → Bytes → Url → T → Probed A T
  unfolding probed
  probe stamp name relay_url config =
      elim (doh_test_packet R {A = A} env no_average registered relays) [
        | none ↦ panics
        | some body ↦ elim (encrypt_query config body) [
          | none ↦ next
          | some query ↦ elim (method_of odoh_query relay_url query.message) [
            | err e ↦ next
            | ok use_get ↦ elim (doh_nx_test_packet R {A = A} env no_average registered relays) [
              | none ↦ panics
              | some nx_body ↦ elim (encrypt_query config nx_body) [
                | none ↦ next
                | some nx_query ↦ elim (odoh_query use_get relay_url nx_query.message) [
                  | err e ↦ next
                  | ok answer ↦ probed stamp name relay_url config use_get nx_query answer
                ]
              ]
            ]
          ]
        ]
      ]

  unfoldable pub probe_loop : ServerStamp → Bytes → Url → List T → Option (Result (ServerInfo A T))
  unfolding probe
  probe_loop stamp name relay_url [] = some (err no_working_config)
  probe_loop stamp name relay_url (config ∷ configs) = elim (probe stamp name relay_url config) [
    | next ↦ probe_loop stamp name relay_url configs
    | panics ↦ none
    | done r ↦ some r
  ]

  through_relay : ServerStamp → Bytes → List T → Option Relay → Option (Result (ServerInfo A T))
  unfolding probe_loop
  through_relay stamp name configs none = some (err no_odoh_relay)
  through_relay stamp name configs (some (dnscrypt_via udp_addr tcp_addr)) =
      some (err wrong_relay_type)
  through_relay stamp name configs (some (odoh_via url)) =
      probe_loop stamp name url (shuffle configs)

  abbrev uncached :
      Option (Result (ServerInfo A T))
      → Option (Bytes × Bytes)
      → Option (Result (ServerInfo A T) × Option (Bytes × Bytes))
  uncached o cached = elim o [ none ↦ none | some r ↦ some (r, cached) ]

  -- One attempt.
  unfoldable pub fetch_odoh_target :
      Bytes → ServerStamp → Option (Result (ServerInfo A T) × Option (Bytes × Bytes))
  unfolding fetch_target_configs through_relay
  fetch_odoh_target name stamp =
      elim (fetch_target_configs (https stamp.provider_name (codes "/.well-known/odohconfigs"))) [
        | none ↦ none
        | some (err e) ↦ some (err no_odoh_config, none)
        | some (ok []) ↦ some (err empty_odoh_config, none)
        | some (ok (c ∷ cs)) ↦ elim (route R registered relays name stamp.proto) [
          | none ↦ none
          | some (err e) ↦ some (err e, none)
          | some (ok (relay, cached)) ↦ uncached (through_relay stamp name (c ∷ cs) relay) cached
        ]
      ]

-- `fetchODoHTargetInfo`: another attempt after an error while some are left. The attempts are counted
-- from 0, since the network may answer each in its own way.
module _ {B C : Type 0} (attempt : ℕ → Option (Result B × C)) where
  unfoldable pub retry : ℕ → ℕ → Option (Result B × C)
  retry i zero = attempt i
  retry i (suc left) = elim (attempt i) [
    | none ↦ none
    | some (ok b, c) ↦ some (ok b, c)
    | some (err e, c) ↦ retry (i + 1) left
  ]

module _ (R : RouteEnv) {A T : Type 0} (envs : ℕ → FetchEnv T) (no_average : A)
    (registered relays : List RegisteredServer) where
  unfoldable pub fetch_odoh_target_info :
      Bytes → ServerStamp → Option (Result (ServerInfo A T) × Option (Bytes × Bytes))
  unfolding retry
  fetch_odoh_target_info name stamp =
      retry (λ i. fetch_odoh_target R (envs i) no_average registered relays name stamp) 0 2

  unfoldable pub fetch_server_info :
      Bytes → ServerStamp → Option (Result (ServerInfo A T) × Option (Bytes × Bytes))
  unfolding fetch_odoh_target_info
  fetch_server_info name stamp =
      if is_proto stamp.proto dnscrypt
      then fetch_dnscrypt_server_info R (envs 0) no_average registered relays name stamp
      else if is_proto stamp.proto doh
      then fetch_doh_server_info R (envs 0) no_average registered relays name stamp
      else if is_proto stamp.proto odoh_target
      then fetch_odoh_target_info name stamp
      else some (err unsupported_protocol, none)

-- The notices of a query's beginning and end.
module _ (m : RttAverage) {T : Type 0} where
  open m use {Average, add, float_of}

  unfoldable pub notice_failure : ℕ → ServerInfo Average T → ServerInfo Average T
  notice_failure timeout s = record s { rtt = add (float_of (timeout / 1000000)) s.rtt }

  unfoldable pub notice_begin : ℕ → ServerInfo Average T → ServerInfo Average T
  notice_begin now s = record s { last_action_ts = now }

  unfoldable pub notice_success : ℕ → ℕ → ServerInfo Average T → ServerInfo Average T
  notice_success timeout now s =
      let elapsed = now - s.last_action_ts in
      if ltb 0 (elapsed / 1000000) && ltb elapsed timeout
      then record s { rtt = add (float_of (elapsed / 1000000)) s.rtt }
      else s
