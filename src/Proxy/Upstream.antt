-- ===== src/Proxy/Upstream.antt =====
-- proxy.go, `processIncomingQuery`: the exchange with the server, over each protocol.
use sourcegraph_testing_dnsc.Base.{
  Bool, Bytes, Error, List, Option, Result, [], err, false, if◌then◌else◌, leb, length, ltb, none,
  not, ok, pack_failed, some, timed_out, true, ℕ, ◌&&◌, ◌++◌, ◌==◌, ◌||◌, ◌∷◌,
}
use sourcegraph_testing_dnsc.Common.{min_dns_packet_size}
use sourcegraph_testing_dnsc.Crypto.{Encrypted, Proto, is_udp, tcp}
use sourcegraph_testing_dnsc.Dns.{DnsLib, Msg}
use sourcegraph_testing_dnsc.Dns.Padding.{has_tc_flag, set_transaction_id, transaction_id}
use sourcegraph_testing_dnsc.Plugins.{
  PluginsReturnCode, code_network_error, code_parse_error, code_server_timeout,
}
use sourcegraph_testing_dnsc.Proxy.{Received}
use sourcegraph_testing_dnsc.Servers.{StampProto, dnscrypt, doh, is_proto, odoh_target}

-- What is reported to the server's record: the begin of an exchange, a failure or a success of it,
-- and a new fetch of its keys.
pub data Notice : Type 0 where
  notice_begin notice_failure notice_success update_keys : Notice

-- What a target of oblivious DoH answers, with what the query opens it to.
pub record OdohRound : Type 0 where
  pub failing : Bool
  pub status : ℕ
  pub body : Bytes
  pub opened : Option Bytes

-- A server as a request uses it. The target is the configuration that is drawn, `none` if there are
-- none; a new fetch of the keys is made if the server is registered, and may fail.
pub record Upstream (T : Type 0) : Type 0 where
  pub proto : StampProto
  pub name : Bytes
  pub encrypt_query : Proto → Bytes → Result Encrypted
  pub exchange_udp : Encrypted → Received
  pub exchange_tcp : Encrypted → Received
  pub doh_query : Bytes → Result (Bytes × Bool)
  pub target : Option T
  pub odoh_query : T → Bytes → Option OdohRound
  pub refreshes : Option Bool

-- The request ends with a response, perhaps a code for the log, and notices; or it goes on.
pub data Exchange : Type 0 where
  exited : Exchange
  stopped : Bytes → Option PluginsReturnCode → List Notice → Exchange
  answered : Bytes → List Notice → Exchange

-- `net.Error` with `Timeout()`.
abbrev pub is_timeout : Error → Bool
is_timeout timed_out = true
is_timeout _ = false

unfoldable pub restore_id : ℕ → Bytes → Bytes
restore_id tid response =
    if leb min_dns_packet_size (length response) then set_transaction_id response tid else response

unfoldable pub retry_over_tcp : Received → Bool
retry_over_tcp (response, none) = leb min_dns_packet_size (length response) && has_tc_flag response
retry_over_tcp (response, some e) = is_timeout e

module _ {T : Type 0} (lib : DnsLib) (u : Upstream T) where
  abbrev pub packed : Msg → Result Bytes
  packed msg = elim (lib.pack msg) [ none ↦ err pack_failed | some bytes ↦ ok bytes ]

  unfoldable pub network_code : Error → PluginsReturnCode
  network_code e = if is_timeout e then code_server_timeout else code_network_error

  unfoldable pub failed_exchange : Bytes → Error → Exchange
  unfolding network_code
  failed_exchange response e =
      stopped response (some (network_code e)) (notice_begin ∷ notice_failure ∷ [])

  -- After an error, a stale response of the cache takes the place of the server's.
  unfoldable pub settle : Option Msg → Received → Exchange
  unfolding failed_exchange
  settle stale (response, none) = answered response (notice_begin ∷ [])
  settle none (response, some e) = failed_exchange response e
  settle (some msg) (response, some e) = elim (packed msg) [
    | ok packet ↦ answered packet (notice_begin ∷ [])
    | err e' ↦ failed_exchange [] e'
  ]

  unfoldable pub over_tcp : Option Msg → Bytes → Bytes → Exchange
  unfolding settle
  over_tcp stale query received = elim (u.encrypt_query tcp query) [
    | err e ↦ stopped received (some code_parse_error) (notice_begin ∷ [])
    | ok encrypted ↦ settle stale (u.exchange_tcp encrypted)
  ]

  unfoldable pub over_udp : Option Msg → Bytes → Encrypted → Exchange
  unfolding settle over_tcp retry_over_tcp
  over_udp stale query encrypted =
      let received = u.exchange_udp encrypted in
      if retry_over_tcp received then over_tcp stale query received.0 else settle stale received

  -- A query that is too long for UDP goes over TCP.
  unfoldable pub dnscrypt_exchange : Option Msg → Proto → Bytes → Exchange
  unfolding settle over_udp
  dnscrypt_exchange stale server_proto query = elim (u.encrypt_query server_proto query) [
    | ok encrypted ↦
        if is_udp server_proto
        then over_udp stale query encrypted
        else settle stale (u.exchange_tcp encrypted)
    | err e ↦
        if is_udp server_proto
        then elim (u.encrypt_query tcp query) [
          | err e' ↦ stopped [] (some code_parse_error) []
          | ok encrypted ↦ settle stale (u.exchange_tcp encrypted)
        ]
        else stopped [] (some code_parse_error) []
  ]

  abbrev pub is_complete : Result (Bytes × Bool) → Bool
  is_complete (err e) = false
  is_complete (ok (body, complete)) = complete

  -- A server's response is used where there is no error, even if the handshake is incomplete.
  unfoldable pub doh_response : ℕ → Result (Bytes × Bool) → Exchange
  unfolding restore_id
  doh_response tid (err e) =
      stopped [] (some code_network_error) (notice_begin ∷ notice_failure ∷ [])
  doh_response tid (ok (body, complete)) = answered (restore_id tid body) (notice_begin ∷ [])

  -- The number of the query is not sent, and is put back into the response.
  unfoldable pub doh_exchange : Option Msg → Bytes → Exchange
  unfolding doh_response restore_id
  doh_exchange stale query =
      let tid = transaction_id query in
      let r = u.doh_query (set_transaction_id query 0) in
      if is_complete r then doh_response tid r else elim stale [
        | none ↦ doh_response tid r
        | some msg ↦ elim (packed msg) [
          | err e ↦ doh_response tid (err e)
          | ok response ↦ answered (restore_id tid response) (notice_begin ∷ [])
        ]
      ]

  -- After an update of the keys that fails, the failure is noted once more.
  update_notices : List Notice
  update_notices = elim u.refreshes [
    | none ↦ update_keys ∷ []
    | some true ↦ update_keys ∷ []
    | some false ↦ update_keys ∷ notice_failure ∷ []
  ]

  odoh_response : Option OdohRound → Option Bytes × List Notice
  unfolding update_notices
  odoh_response none = (none, [])
  odoh_response (some round) =
      if not round.failing && ltb 0 (length round.body) && round.status == 200
      then (round.opened, [])
      else if round.status == 401 || (round.status == 200 && length round.body == 0)
      then (none, update_notices)
      else (none, [])

  unfoldable pub odoh_exchange : Bytes → Exchange
  unfolding odoh_response restore_id
  odoh_exchange query = elim u.target [
    | none ↦ stopped [] none []
    | some target ↦
        let r = odoh_response (u.odoh_query target query) in
        elim r.0 [
          | none ↦ stopped [] (some code_network_error) (r.1 ++ notice_failure ∷ [])
          | some response ↦ answered (restore_id (transaction_id query) response) (r.1)
        ]
  ]

  unfoldable pub exchange : Option Msg → Proto → Bytes → Exchange
  unfolding dnscrypt_exchange doh_exchange odoh_exchange
  exchange stale server_proto query =
      if is_proto u.proto dnscrypt
      then dnscrypt_exchange stale server_proto query
      else if is_proto u.proto doh
      then doh_exchange stale query
      else if is_proto u.proto odoh_target
      then odoh_exchange query
      else exited
