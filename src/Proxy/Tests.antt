-- ===== src/Proxy/Tests.antt =====
-- proxy.go at concrete inputs.
use sourcegraph_testing_dnsc.Base.{
  Bytes, List, Result, [], arith, codes, drop, err, false, get_elem?, none, ok, question_too_large,
  refl, replicate, some, take, timed_out, true, ℕ, ◌++◌, ◌∷◌, ◌≡◌, ◌≢◌, ◌⊎◌,
}
use sourcegraph_testing_dnsc.Crypto.{
  Encrypted, Primitives, ServerKeys, tag_size, udp, xchacha20_poly1305,
}
use sourcegraph_testing_dnsc.Dns.{DnsLib, Msg, class_inet, type_a}
use sourcegraph_testing_dnsc.Dns.Padding.{transaction_id}
use sourcegraph_testing_dnsc.Plugins.{PluginsState, new_plugins_state}
use sourcegraph_testing_dnsc.Plugins.Pipeline.{Globals}
use sourcegraph_testing_dnsc.Proxy.{UdpTry, exchange_with_udp_server, nothing_read}
use sourcegraph_testing_dnsc.Proxy.Clients.{
  Pool, Step, Steps, entering, here, idle, inc_load, inc_swap, next, serving, swap_inc,
}
use sourcegraph_testing_dnsc.Proxy.Admission.{IsCounted, Steps-IsCounted, admits}
use sourcegraph_testing_dnsc.Proxy.Upstream.{Upstream, dnscrypt_exchange}
use sourcegraph_testing_dnsc.Proxy.Requests.{process_incoming_query, udp_client}
use sourcegraph_testing_dnsc.Proxy.Replies.{IfReplies, Sends, process_incoming_query-Sends}
use sourcegraph_testing_dnsc.Proxy.Timeouts.{dnscrypt_exchange_unread, unread_outcome}
use sourcegraph_testing_dnsc.Servers.{dnscrypt, doh}

-- Two clients, one of them about to enter.
abbrev pool : Pool
pool = record { clients_count = 1; phases = idle ∷ serving ∷ entering 1 ∷ [] }

pool-IsCounted : IsCounted 2 pool
pool-IsCounted = record {
  counted = refl;
  within = omega arith;
  loaded = (tt, (tt, (omega arith, tt)));
}

-- The last client enters, and the first is refused by the swap of a count that is no longer there.
abbrev run : Steps 2 pool (inc_swap pool 2 1)
run = next here (swap_inc pool 2 1 refl)

Steps-IsCounted_example : IsCounted 2 (inc_swap pool 2 1)
Steps-IsCounted_example = Steps-IsCounted (omega arith) pool-IsCounted run

-- The first client loads the count, and the last one enters before it swaps.
abbrev loaded : Pool
loaded = record { clients_count = 1; phases = entering 1 ∷ serving ∷ entering 1 ∷ [] }

abbrev overtaken : Pool
overtaken = record { clients_count = 2; phases = entering 1 ∷ serving ∷ serving ∷ [] }

loads : inc_load 3 pool 0 ≡ loaded
unfolding inc_load
loads = refl

enters : inc_swap loaded 2 1 ≡ overtaken
unfolding inc_swap
enters = refl

overtakes : Steps 3 (inc_load 3 pool 0) (inc_swap (inc_load 3 pool 0) 2 1)
unfolding inc_load
overtakes = next here (swap_inc (inc_load 3 pool 0) 2 1 refl)

admits_example :
    let q = inc_swap (inc_load 3 pool 0) 2 1 in
    Step 3 q (inc_swap q 0 1)
    × (((q.clients_count ≡ 1)
          × (get_elem? (inc_swap q 0 1).phases 0 ≡ some serving)
          × ((inc_swap q 0 1).clients_count ≡ 2))
        ⊎ ((q.clients_count ≢ 1)
            × (get_elem? (inc_swap q 0 1).phases 0 ≡ some idle)
            × ((inc_swap q 0 1).clients_count ≡ q.clients_count)))
unfolding overtakes
admits_example =
    admits (omega arith) pool (inc_swap (inc_load 3 pool 0) 2 1) 0 (omega arith) refl overtakes
      (tt, refl)

abbrev question : Msg
question = record {
  id = 7;
  response = false;
  truncated = false;
  recursion_desired = true;
  recursion_available = false;
  authenticated_data = false;
  checking_disabled = false;
  rcode = 0;
  compress = false;
  question = record { name = codes "a."; qtype = type_a; qclass = class_inet } ∷ [];
  answer = [];
  ns = [];
  extra = [];
}

abbrev start : PluginsState
start =
    new_plugins_state
      (record {
        cache_size = 16;
        cache_neg_min_ttl = 60;
        cache_neg_max_ttl = 600;
        cache_min_ttl = 60;
        cache_max_ttl = 3600;
        reject_ttl = 10;
        timeout = 5000;
      })
      (codes "udp") (codes "192.0.2.1") (codes "udp") 1

abbrev packet : Bytes
packet = 0 ∷ 7 ∷ 0x81 ∷ 0 ∷ replicate 16 0

abbrev dns_lib : DnsLib
dns_lib = record {
  unpack = λ s. some question;
  pack = λ m. some packet;
  is_edns0 = λ m. none;
  set_edns0 = λ n d m. m;
  set_options = λ o m. m;
  spoiled = λ s m. s;
}

abbrev no_plugins : Globals ℕ
no_plugins = record {
  query = [];
  response = [];
  logging = [];
  blocked = record {
    refused_code_in_responses = true;
    respond_with_ipv4 = none;
    respond_with_ipv6 = none;
  };
  to4 = some;
  to16 = some;
}

abbrev doh_server : Upstream ℕ
doh_server = record {
  proto = doh;
  name = codes "a";
  encrypt_query = λ proto q. err question_too_large;
  exchange_udp = λ e. ([], some timed_out);
  exchange_tcp = λ e. ([], some timed_out);
  doh_query = λ q. ok (q, true);
  target = none;
  odoh_query = λ t q. none;
  refreshes = none;
}

process_incoming_query-Sends_example :
    IfReplies dns_lib no_plugins 0 (Sends dns_lib no_plugins 0 udp_client) (
      process_incoming_query dns_lib no_plugins 0 udp_client udp false
        (some doh_server)
        0
        start
        packet)
process_incoming_query-Sends_example =
    process_incoming_query-Sends dns_lib no_plugins 0 udp_client udp false (some doh_server) 0 start
      packet

number : transaction_id packet ≡ 7
unfolding transaction_id
number = refl

abbrev primitives : Primitives
primitives = record {
  shared_key = λ sk pk. some sk;
  weak_key = λ sk pk. sk;
  precompute = λ pk sk. sk;
  sha512_256 = λ m. take 32 m;
  scalar_base_mult = λ sk. replicate 32 9;
  seal = λ c nonce message key. replicate tag_size 0 ++ message;
  unseal = λ c nonce box key. some (drop tag_size box);
}

abbrev keys : ServerKeys
keys = record {
  construction = xchacha20_poly1305;
  server_pk = replicate 32 1;
  shared_key = replicate 32 2;
  magic_query = replicate 8 3;
  fragments_blocked = false;
  relayed = false;
}

abbrev silent : Bytes → Result (List UdpTry)
silent q = ok (nothing_read ∷ nothing_read ∷ [])

abbrev encrypted : Encrypted
encrypted = record { key = []; packet = packet; client_nonce = [] }

abbrev dnscrypt_server : Upstream ℕ
dnscrypt_server = record doh_server {
  proto = dnscrypt;
  encrypt_query = λ proto q. ok encrypted;
  exchange_udp =
      λ e. exchange_with_udp_server primitives keys none silent e.key e.packet e.client_nonce;
  exchange_tcp = λ e. (packet, none);
}

dnscrypt_exchange_unread_example :
    dnscrypt_exchange dns_lib dnscrypt_server none udp packet ≡ unread_outcome dns_lib none
dnscrypt_exchange_unread_example =
    dnscrypt_exchange_unread dns_lib dnscrypt_server none packet encrypted primitives keys none
      silent (nothing_read ∷ nothing_read ∷ []) refl refl refl (tt, (tt, tt))
