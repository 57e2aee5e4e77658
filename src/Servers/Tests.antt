-- ===== src/Servers/Tests.antt =====
-- serversInfo.go at concrete inputs, with latencies in whole milliseconds in place of the average.
use sourcegraph_testing_dnsc.Base.{
  Bool, Bytes, List, Option, Result, [], ap, arith, bytes_eq, codes, drop, err, false,
  if◌then◌else◌, is_some, leb, ltb, map, none, ok, refl, relay_not_found, replicate, some, sym,
  timed_out, true, ℕ, ◌*◌, ◌++◌, ◌+◌, ◌-◌, ◌/◌, ◌∷◌, ◌≡◌, ◌⊎◌,
}
use sourcegraph_testing_dnsc.Crypto.{undefined_construction, xsalsa20_poly1305}
use sourcegraph_testing_dnsc.Common.{extract_host_and_port, min}
use sourcegraph_testing_dnsc.Servers.{
  RegisteredServer, RttAverage, ServerInfo, ServerStamp, ServersInfo, StampProto, dnscrypt,
  dnscrypt_relay, doh, find_named, p2, register_relay, register_server,
}
use sourcegraph_testing_dnsc.Servers.Balancing.{
  carry, estimator_update, get_active_count, get_candidate, get_one, partial_sort, weigh,
}
use sourcegraph_testing_dnsc.Servers.Choice.{IsDraw, IsPicked, get_one_picks}
use sourcegraph_testing_dnsc.Servers.Refresh.{
  RefreshedAll, install, refresh, refresh_loop, refresh_server,
}
use sourcegraph_testing_dnsc.Servers.Refreshed.{Exits, IsNaming, IsRefreshed, refresh-IsRefreshed}
use sourcegraph_testing_dnsc.Servers.Routes.{
  RouteEnv, Routed, configured, far_loop, no_relay, prefix_bits, relay_proto_for_server_proto,
  route, same_family, same_prefix_bits,
}
use sourcegraph_testing_dnsc.Servers.Relays.{IsAnonymous, far_loop_keeps_first, route-IsAnonymous}
use sourcegraph_testing_dnsc.Dns.{DnsLib}
use sourcegraph_testing_dnsc.Servers.Fetch.{
  FetchEnv, HttpAnswer, cafe, fetch_dnscrypt_server_info, fetch_doh_server_info, test_question,
}
use sourcegraph_testing_dnsc.Servers.Targets.{fetch_odoh_target_info}
use sourcegraph_testing_dnsc.Servers.Trust.{IfFetched, IsDohServer, fetch_doh-IsDohServer}
use sourcegraph_testing_dnsc.Servers.Detours.{
  IsRouted, Retried, attempt_at, fetch_dnscrypt-IsRouted, fetch_odoh-Retried,
}
use sourcegraph_testing_dnsc.Servers.Named.{IsUnique, register-IsUnique}

abbrev average : RttAverage
average = record {
  Average = ℕ;
  Float = ℕ;
  new_moving_average = 0;
  assign = λ x a. x;
  add = λ x a. (a * 9 + x) / 10;
  value_of = λ a. a;
  float_of = λ n. n;
  float_lt = ltb;
  float_le = leb;
  plus = λ x y. x + y;
  half = λ x. x / 2;
  times4 = λ x. x * 4;
}

abbrev stamp : StampProto → Bytes → ServerStamp
stamp proto addr = record {
  server_addr_str = addr;
  server_pk = replicate 32 7;
  hashes = [];
  provider_name = codes "2.dnscrypt-cert.example";
  path = codes "/dns-query";
  proto = proto;
}

abbrev server : Bytes → ℕ → ServerInfo ℕ ℕ
server name rtt = record {
  proto = dnscrypt;
  name = name;
  host_name = [];
  udp_addr = none;
  tcp_addr = none;
  relay = none;
  url = none;
  initial_rtt = rtt;
  timeout = 5000;
  crypto_construction = undefined_construction;
  server_pk = [];
  shared_key = [];
  magic_query = [];
  fragments_blocked = false;
  use_get = false;
  odoh_target_configs = [];
  rtt = rtt;
  last_action_ts = 0;
}

abbrev three : List (ServerInfo ℕ ℕ)
three = server (codes "a") 30 ∷ server (codes "b") 20 ∷ server (codes "c") 10 ∷ []

abbrev servers : ServersInfo ℕ ℕ
servers = record new_three { registered_servers = register (codes "c") ∷ register (codes "d") ∷ [] }
  where
    register : Bytes → RegisteredServer
    register name = record { name = name; stamp = stamp dnscrypt (codes "192.0.2.1") }

    new_three : ServersInfo ℕ ℕ
    new_three = record {
      inner = three;
      registered_servers = [];
      registered_relays = [];
      lb_strategy = p2;
      lb_estimator = true;
    }

abbrev last_draw : ℕ → ℕ
last_draw n = n - 1

last_draw-IsDraw : IsDraw last_draw
last_draw-IsDraw n h = omega arith

get_one_picks_example :
    (ys : List (ServerInfo ℕ ℕ)) × (s : ServerInfo ℕ ℕ) × (get_one average servers last_draw
        last_draw 0
      ≡ some (ys, some s))
    × IsPicked average servers ys s
get_one_picks_example =
    get_one_picks average servers last_draw last_draw 0 tt last_draw-IsDraw last_draw-IsDraw
      (omega arith)

abbrev names_left : Option (List (ServerInfo ℕ ℕ) × Option (ServerInfo ℕ ℕ)) → List Bytes
names_left none = []
names_left (some (ys, s)) = map (λ (y : ServerInfo ℕ ℕ). y.name) ys

-- The third server is faster than the second, and takes its place; then a pass moves the first back.
swapped :
    names_left (get_one average servers last_draw last_draw 0)
    ≡ codes "c" ∷ codes "b" ∷ codes "a" ∷ []
unfolding get_one estimator_update get_active_count get_candidate min weigh partial_sort carry
swapped = refl

-- The server `d` does not answer.
abbrev fetch : Bytes → ServerStamp → Bool → Option (Result (ServerInfo ℕ ℕ))
fetch name stamp is_new =
    some (if bytes_eq name (codes "d") then err timed_out else ok (server name 25))

fetch-IsNaming : IsNaming average fetch
fetch-IsNaming name stamp is_new s h = go (bytes_eq name (codes "d")) h
  where
    go :
        (b : Bool)
        → some (if b then err timed_out else ok (server name 25)) ≡ some (ok s)
        → s.name ≡ name
    go true e = cc
    go false e =
        let same : server name 25 ≡ s = cc in ap (λ (t : ServerInfo ℕ ℕ). t.name) (sym same)

refresh-IsRefreshed_example :
    ((refresh average fetch servers ≡ none) × Exits average fetch servers.registered_servers)
    ⊎ ((all : RefreshedAll ℕ ℕ) × (refresh average fetch servers ≡ some all)
        × IsRefreshed average fetch servers all)
refresh-IsRefreshed_example =
    refresh-IsRefreshed average fetch fetch-IsNaming servers ((refl, tt), (tt, tt))
      ((refl, (refl, tt)), ((refl, tt), (tt, tt)))

abbrev live_of : Option (RefreshedAll ℕ ℕ) → ℕ
live_of none = 0
live_of (some all) = all.live

-- One of the two registered servers answers.
refreshes : live_of (refresh average fetch servers) ≡ 1
unfolding refresh refresh_loop refresh_server install
refreshes = refl

-- An address is its four bytes, after twelve others.
abbrev env : RouteEnv
env = record {
  new_server_stamp_from_string = λ s. none;
  parse_ip = λ s. some (replicate 12 0 ++ s);
  to4 = λ ip. some (drop 12 ip);
  resolve_udp_addr = λ s. ok (record { ip = s; port = 443 });
  resolve_tcp_addr = λ s. ok (record { ip = s; port = 443 });
  path_escape = λ s. s;
  parse_url = λ s. err relay_not_found;
  add_target = λ host path url. url;
  draw = λ n. 0;
  routes = some ((codes "*", codes "*" ∷ []) ∷ []);
  proxy_servers = [];
}

abbrev near : ServerStamp
near = stamp dnscrypt_relay (10 ∷ 0 ∷ 0 ∷ 2 ∷ [])

abbrev far : ServerStamp
far = stamp dnscrypt_relay (200 ∷ 0 ∷ 0 ∷ 1 ∷ [])

abbrev relays : List RegisteredServer
relays =
    record { name = codes "near"; stamp = near } ∷ record { name = codes "far"; stamp = far } ∷ []

abbrev targets : List RegisteredServer
targets = record { name = codes "a"; stamp = stamp dnscrypt (10 ∷ 0 ∷ 0 ∷ 1 ∷ []) } ∷ []

abbrev taken : Routed
taken = route env targets relays (codes "a") dnscrypt

route-IsAnonymous_example :
    ((names : List Bytes) × (wildcard : Bool) × (relay_proto : StampProto) × (configured env
          (codes "a")
        ≡ some (names, wildcard))
      × (relay_proto_for_server_proto dnscrypt ≡ some relay_proto)
      × IsAnonymous dnscrypt taken)
    ⊎ (((configured env (codes "a") ≡ none) ⊎ (relay_proto_for_server_proto dnscrypt ≡ none))
        × (taken ≡ no_relay))
route-IsAnonymous_example = route-IsAnonymous env targets relays (codes "a") dnscrypt

near_bits : same_prefix_bits env (replicate 12 0 ++ 10 ∷ 0 ∷ 0 ∷ 1 ∷ []) near ≡ some 30
unfolding same_prefix_bits extract_host_and_port same_family prefix_bits
near_bits = refl

far_loop_keeps_first_example :
    (more : List ℕ) × (far_loop env
        (replicate 12 0 ++ 10 ∷ 0 ∷ 0 ∷ 1 ∷ [])
        (near ∷ far ∷ [])
        0
        128
        []
      ≡ 0 ∷ more)
far_loop_keeps_first_example =
    far_loop_keeps_first env (replicate 12 0 ++ 10 ∷ 0 ∷ 0 ∷ 1 ∷ []) near (far ∷ []) 30 near_bits
      (omega arith)

-- A library that reads every packet as the test query, and a server of one certificate.
abbrev lib : DnsLib
lib = record {
  unpack = λ s. some (test_question (codes ".") cafe);
  pack = λ m. some (0xca ∷ 0xfe ∷ []);
  is_edns0 = λ m. none;
  set_edns0 = λ n d m. m;
  set_options = λ o m. m;
  spoiled = λ s m. s;
}

abbrev answer : HttpAnswer
answer = record {
  body = 0xca ∷ 0xfe ∷ 0 ∷ 0 ∷ 0 ∷ 1 ∷ replicate 20 0;
  status = 200;
  tls_state = some (record { handshake_complete = true; peer_certificates = replicate 32 5 ∷ [] });
  rtt = 12000000;
}

abbrev fetch_env : FetchEnv ℕ
fetch_env = record {
  lib = lib;
  padding = replicate 16 1;
  nx_name = codes "abcdefghijklmnop";
  decode_hex = λ s. none;
  sha256 = λ s. s;
  timeout = 5000;
  skip_anon_incompatible_resolvers = false;
  servers_blocking_fragments = [];
  fetch_cert = λ name key stamp relay known. record {
    blocked = is_some relay;
    result = ok (
      record {
        server_pk = key;
        shared_key = key;
        magic_query = [];
        crypto_construction = xsalsa20_poly1305;
        forward_security = true;
      },
      7,
    );
  };
  doh_query = λ use_get url body. ok answer;
  odoh_query = λ use_get url body. err timed_out;
  get = λ url. err timed_out;
  parse_configs = λ s. none;
  encrypt_query = λ config query. none;
  shuffle = λ configs. configs;
}

abbrev no_average : ℕ
no_average = 0

abbrev doh_stamp : ServerStamp
doh_stamp = record (stamp doh []) { hashes = replicate 32 4 ∷ replicate 32 5 ∷ [] }

fetch_doh-IsDohServer_example :
    IfFetched
      (IsDohServer env fetch_env no_average targets relays (codes "d") doh_stamp)
      (fetch_doh_server_info env fetch_env no_average targets relays (codes "d") doh_stamp)
fetch_doh-IsDohServer_example =
    fetch_doh-IsDohServer env fetch_env no_average targets relays (codes "d") doh_stamp

fetch_dnscrypt-IsRouted_example :
    IfFetched
      (IsRouted env fetch_env no_average targets relays (codes "a") (stamp dnscrypt (codes "x")))
      (fetch_dnscrypt_server_info env fetch_env no_average targets relays
        (codes "a")
        (stamp dnscrypt (codes "x")))
fetch_dnscrypt-IsRouted_example =
    fetch_dnscrypt-IsRouted env fetch_env no_average targets relays (codes "a")
      (stamp dnscrypt (codes "x"))

-- A target whose configurations cannot be fetched.
abbrev retried : Option (Result (ServerInfo ℕ ℕ) × Option (Bytes × Bytes))
retried =
    fetch_odoh_target_info env (λ i. fetch_env) no_average targets relays (codes "d") doh_stamp

fetch_odoh-Retried_example :
    Retried
      (attempt_at env (λ i. fetch_env) no_average targets relays (codes "d") doh_stamp)
      0
      2
      retried
fetch_odoh-Retried_example =
    fetch_odoh-Retried env (λ i. fetch_env) no_average targets relays (codes "d") doh_stamp

register-IsUnique_example :
    let new : RegisteredServer = record { name = codes "c"; stamp = near } in
    let st' = register_server (codes "c") near servers in
    let st'' = register_relay (codes "c") near servers in
    IsUnique (λ r. r.name) st'.registered_servers
    × IsUnique (λ r. r.name) st''.registered_relays
    × (find_named (λ r. r.name) (codes "d") st'.registered_servers ≡ (
        if bytes_eq (codes "c") (codes "d")
        then some new
        else find_named (λ r. r.name) (codes "d") servers.registered_servers))
    × (find_named (λ r. r.name) (codes "d") st''.registered_relays ≡ (
        if bytes_eq (codes "c") (codes "d")
        then some new
        else find_named (λ r. r.name) (codes "d") servers.registered_relays))
    × (st'.registered_relays ≡ servers.registered_relays)
    × (st''.registered_servers ≡ servers.registered_servers)
register-IsUnique_example =
    register-IsUnique (codes "c") (codes "d") near servers ((refl, tt), (tt, tt)) tt
