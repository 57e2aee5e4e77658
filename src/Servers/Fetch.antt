-- ===== src/Servers/Fetch.antt =====
-- serversInfo.go: what is fetched from a server before it is used, over each of the protocols.
-- The network, TLS and the random bytes are arguments. `none` is the end of the program or a panic.
use sourcegraph_testing_dnsc.Base.{
  Bool, Bytes, List, Option, Result, [], any, bytes_eq, certificate_hash_not_found, codes, err,
  false, if◌then◌else◌, length, ltb, none, not, ok, replicate, some, tls_failed, true,
  unexpected_response, unpack_failed, unreachable_anonymously, ℕ, ◌&&◌, ◌++◌, ◌/◌, ◌==◌, ◌||◌, ◌∷◌,
}
use sourcegraph_testing_dnsc.Common.{max_dns_packet_size, min_dns_packet_size}
use sourcegraph_testing_dnsc.Certs.{CertInfo}
use sourcegraph_testing_dnsc.Crypto.{undefined_construction}
use sourcegraph_testing_dnsc.Dns.{DnsLib, Edns, EdnsOption, Msg, class_inet}
use sourcegraph_testing_dnsc.Dns.Padding.{byte_at, edns0_padding}
use sourcegraph_testing_dnsc.Servers.{
  RegisteredServer, Relay, ServerInfo, ServerStamp, StampProto, Url, dnscrypt, dnscrypt_via, doh,
  odoh_via,
}
use sourcegraph_testing_dnsc.Servers.Routes.{RouteEnv, cached_host, route}

-- What a certificate query brings: the flag is there with an error, too.
pub record CertAnswer : Type 0 where
  pub blocked : Bool
  pub result : Result (CertInfo × ℕ)

pub record Tls : Type 0 where
  pub handshake_complete : Bool
  pub peer_certificates : List Bytes

-- What an HTTPS query brings, without an error.
pub record HttpAnswer : Type 0 where
  pub body : Bytes
  pub status : ℕ
  pub tls_state : Option Tls
  pub rtt : ℕ

pub record EncryptedQuery : Type 0 where
  pub message : Bytes
  pub decrypt_response : Bytes → Option Bytes

pub record FetchEnv (T : Type 0) : Type 0 where
  pub lib : DnsLib
  pub padding : Bytes
  pub nx_name : Bytes
  pub decode_hex : Bytes → Option Bytes
  pub sha256 : Bytes → Bytes
  pub timeout : ℕ
  pub skip_anon_incompatible_resolvers : Bool
  pub servers_blocking_fragments : List Bytes
  pub fetch_cert : Bytes → Bytes → ServerStamp → Option Relay → Bool → CertAnswer
  pub doh_query : Bool → Url → Bytes → Result HttpAnswer
  pub odoh_query : Bool → Url → Bytes → Result HttpAnswer
  pub get : Url → Result HttpAnswer
  pub parse_configs : Bytes → Option (Result (List T))
  pub encrypt_query : T → Bytes → Option EncryptedQuery
  pub shuffle : List T → List T

-- `msg.SetQuestion(name, dns.TypeNS)` on a new message, with the number and the flag that are set.
abbrev pub test_question : Bytes → ℕ → Msg
test_question name id = record {
  id = id;
  response = false;
  truncated = false;
  recursion_desired = true;
  recursion_available = false;
  authenticated_data = false;
  checking_disabled = false;
  rcode = 0;
  compress = false;
  question = record { name = name; qtype = 2; qclass = class_inet } ∷ [];
  answer = [];
  ns = [];
  extra = [];
}

abbrev options_of : Option Edns → List EdnsOption
options_of none = []
options_of (some edns) = edns.options

abbrev pub cafe : ℕ
cafe = 0xcafe

-- A server that does not answer a POST request is asked by GET; `none` if it answers neither.
abbrev pub method_of : (Bool → Url → Bytes → Result HttpAnswer) → Url → Bytes → Result Bool
method_of query url body = elim (query false url body) [
  | ok answer ↦ ok false
  | err e ↦ elim (query true url body) [ ok answer ↦ ok true | err e' ↦ err e' ]
]

abbrev pub https : Bytes → Bytes → Url
https host path = record { host = host; path = path; raw_query = [] }

-- A certificate is one of those that the stamp names. Hashes of another length match nothing.
unfoldable pub hash_found : (Bytes → Bytes) → List Bytes → List Bytes → Bool
hash_found sha256 hashes certs =
    any (λ cert. any (λ hash. length hash == 32 && bytes_eq (sha256 cert) hash) hashes) certs

unfoldable pub is_expected : Bytes → Bool
is_expected r =
    not (ltb (length r) min_dns_packet_size || ltb max_dns_packet_size (length r))
    && byte_at r 0 == 0xca
    && byte_at r 1 == 0xfe
    && byte_at r 4 == 0x00
    && byte_at r 5 == 0x01

module _ (R : RouteEnv) {A T : Type 0} (env : FetchEnv T) (no_average : A)
    (registered relays : List RegisteredServer) where
  open env use {
    lib, padding, nx_name, decode_hex, sha256, timeout, skip_anon_incompatible_resolvers,
    servers_blocking_fragments, fetch_cert, doh_query, odoh_query, get, parse_configs,
    encrypt_query, shuffle,
  }

  -- A fetched server, with the host and the address that are cached for good on the way.
  abbrev pub Fetched : Type 0
  Fetched = Option (Result (ServerInfo A T) × Option (Bytes × Bytes))

  abbrev pub blank : StampProto → Bytes → ServerInfo A T
  blank proto name = record {
    proto = proto;
    name = name;
    host_name = [];
    udp_addr = none;
    tcp_addr = none;
    relay = none;
    url = none;
    initial_rtt = 0;
    timeout = timeout;
    crypto_construction = undefined_construction;
    server_pk = replicate 32 0;
    shared_key = replicate 32 0;
    magic_query = replicate 8 0;
    fragments_blocked = false;
    use_get = false;
    odoh_target_configs = [];
    rtt = no_average;
    last_action_ts = 0;
  }

  -- A key of the stamp is 32 bytes, or is written in hexadecimal digits with colons.
  unfoldable pub public_key : Bytes → Option Bytes
  public_key key = if length key == 32 then some key else elim (decode_hex (without b':' key)) [
    | none ↦ none
    | some decoded ↦ if length decoded == 32 then some decoded else none
  ]
    where
      without : ℕ → Bytes → Bytes
      without c [] = []
      without c (x ∷ s) = if x == c then without c s else x ∷ without c s

  abbrev pub is_dnscrypt_relay : Option Relay → Bool
  is_dnscrypt_relay none = false
  is_dnscrypt_relay (some (dnscrypt_via udp_addr tcp_addr)) = true
  is_dnscrypt_relay (some (odoh_via url)) = false

  unfoldable pub with_addrs :
      Bytes → ServerStamp → Option Relay → Bool → CertInfo → ℕ → Result (ServerInfo A T)
  with_addrs name stamp relay blocked info rtt = elim (R.resolve_udp_addr stamp.server_addr_str) [
    | err e ↦ err e
    | ok udp_addr ↦ elim (R.resolve_tcp_addr stamp.server_addr_str) [
      | err e ↦ err e
      | ok tcp_addr ↦ ok (record (blank dnscrypt name) {
        magic_query = info.magic_query;
        server_pk = info.server_pk;
        shared_key = info.shared_key;
        crypto_construction = info.crypto_construction;
        udp_addr = some udp_addr;
        tcp_addr = some tcp_addr;
        relay = relay;
        initial_rtt = rtt;
        fragments_blocked = blocked;
      })
    ]
  ]

  -- A resolver that drops fragments cannot be reached through a relay: it is reached without one,
  -- or it is ignored.
  unfoldable pub with_cert :
      Bytes → ServerStamp → Option Relay → Bool → CertAnswer → Result (ServerInfo A T)
  unfolding with_addrs
  with_cert name stamp relay known_blocked answer =
      let blocked = known_blocked || answer.blocked in
      let around = blocked && is_dnscrypt_relay relay in
      if around && skip_anon_incompatible_resolvers
      then err unreachable_anonymously
      else elim answer.result [
        | err e ↦ err e
        | ok (info, rtt) ↦ with_addrs name stamp (if around then none else relay) blocked info rtt
      ]

  unfoldable pub fetch_dnscrypt_server_info : Bytes → ServerStamp → Fetched
  unfolding public_key
  fetch_dnscrypt_server_info name stamp = elim (public_key stamp.server_pk) [
    | none ↦ none
    | some key ↦ elim (route R registered relays name stamp.proto) [
      | none ↦ none
      | some (err e) ↦ some (err e, none)
      | some (ok (relay, cached)) ↦
          let known = any (λ n. bytes_eq n name) servers_blocking_fragments in
          some (with_cert name stamp relay known (fetch_cert name key stamp relay known), cached)
    ]
  ]

  test_packet : Bytes → Option Bytes
  test_packet name =
      let msg = lib.set_edns0 max_dns_packet_size false (test_question name cafe) in
      let padded : EdnsOption = record { code = edns0_padding; payload = padding } in
      lib.pack (lib.set_options (options_of (lib.is_edns0 msg) ++ padded ∷ []) msg)

  unfoldable pub doh_test_packet : Option Bytes
  unfolding test_packet
  doh_test_packet = test_packet (codes ".")

  unfoldable pub doh_nx_test_packet : Option Bytes
  unfolding test_packet
  doh_nx_test_packet = test_packet (nx_name ++ codes ".test.dnscrypt.")

  -- The tests of a server's response, in their order.
  unfoldable pub check_response :
      List Bytes → List Bytes → Bytes → ServerInfo A T → Result (ServerInfo A T)
  unfolding hash_found is_expected
  check_response hashes certs response info = elim (lib.unpack response) [
    | none ↦ err unpack_failed
    | some msg ↦
        if not (hash_found sha256 hashes certs) && not (length hashes == 0)
        then err certificate_hash_not_found
        else if is_expected response
        then ok info
        else err unexpected_response
  ]

  unfoldable pub doh_checked :
      ServerStamp → Bool → Url → Bytes → Result HttpAnswer → Result (ServerInfo A T)
  doh_checked stamp use_get url name (err e) = err e
  doh_checked stamp use_get url name (ok answer) = elim answer.tls_state [
    | none ↦ err tls_failed
    | some tls' ↦
        if tls'.handshake_complete
        then check_response stamp.hashes tls'.peer_certificates answer.body
            (record (blank doh name) {
              url = some url;
              host_name = stamp.provider_name;
              initial_rtt = answer.rtt / 1000000;
              use_get = use_get;
            })
        else err tls_failed
  ]

  unfoldable pub fetch_doh_server_info : Bytes → ServerStamp → Fetched
  fetch_doh_server_info name stamp =
      let url = https stamp.provider_name stamp.path in
      let cached = cached_host R stamp in
      elim doh_test_packet [
        | none ↦ none
        | some body ↦ elim (method_of doh_query url body) [
          | err e ↦ some (err e, cached)
          | ok use_get ↦ elim doh_nx_test_packet [
            | none ↦ none
            | some nx_body ↦
                some (doh_checked stamp use_get url name (doh_query use_get url nx_body), cached)
          ]
        ]
      ]
