-- ===== src/Plugins/Cloak/Tests.antt =====
-- plugin_cloak.go at concrete inputs: addresses are their texts.
use sourcegraph_testing_dnsc.Base.{
  Bool, Bytes, List, Option, [], arith, codes, false, if◌then◌else◌, leb, none, refl, some, true,
  ◌&&◌, ◌==◌, ◌∷◌, ◌≡◌,
}
use sourcegraph_testing_dnsc.Common.{trim_and_strip_inline_comments}
use sourcegraph_testing_dnsc.Dns.{DnsLib, Rr, a_rr, class_inet, type_a}
use sourcegraph_testing_dnsc.Patterns.{PatternMatcher}
use sourcegraph_testing_dnsc.Patterns.ListTrie.{list_trie}
use sourcegraph_testing_dnsc.Plugins.{Evaluated, PluginsState}
use sourcegraph_testing_dnsc.Plugins.Tests.{asked, query, start}
use sourcegraph_testing_dnsc.Plugins.Cloak.{
  Addresses, CloakedName, Store, cloak_eval, cloak_loop, cloak_rule, cloaked_answer, found_loop,
  new_cloaked_name, time_left,
}
use sourcegraph_testing_dnsc.Plugins.Cloak.Loading.{
  IsSorted, cloak_loop_panics, found_loop-IsSorted,
}

-- Texts that begin with a digit are IPv4 addresses.
abbrev parse : Bytes → Option Bytes
parse [] = none
parse (c ∷ s) = if leb 48 c && leb c 57 then some (c ∷ s) else none

abbrev net : Addresses
net = record {
  parse_ip = parse;
  to4 = λ ip. some ip;
  to16 = λ ip. none;
  reverse_addr = λ ip. codes "1.2.0.192.in-addr.arpa.";
}

abbrev lines : List Bytes
lines = codes "Web.local 192.0.2.1 # here" ∷ codes "web.local example.com" ∷ []

parsed_rule :
    cloak_rule (trim_and_strip_inline_comments (codes "Web.local 192.0.2.1 # here"))
    ≡ some (codes "web.local", codes "192.0.2.1")
unfolding cloak_rule trim_and_strip_inline_comments
parsed_rule = refl

parsed_target :
    cloak_rule (trim_and_strip_inline_comments (codes "web.local example.com"))
    ≡ some (codes "web.local", codes "example.com")
unfolding cloak_rule trim_and_strip_inline_comments
parsed_target = refl

cloak_loop_panics_example : cloak_loop net true 0 lines [] ≡ none
cloak_loop_panics_example =
    cloak_loop_panics net 0 (codes "Web.local 192.0.2.1 # here") (codes "web.local example.com")
      (codes "web.local") (codes "192.0.2.1") (codes "example.com") (codes "192.0.2.1")
      (codes "192.0.2.1") [] [] refl parsed_rule parsed_target refl refl refl refl refl

-- Three addresses of a lookup.
abbrev of_kind : Bytes → Option Bytes
of_kind [] = none
of_kind (c ∷ s) = if c == 4 then some s else none

found_loop-IsSorted_example :
    IsSorted of_kind
      (found_loop of_kind ((4 ∷ 1 ∷ []) ∷ (6 ∷ 1 ∷ []) ∷ (4 ∷ 2 ∷ []) ∷ []) new_cloaked_name)
found_loop-IsSorted_example =
    found_loop-IsSorted of_kind ((4 ∷ 1 ∷ []) ∷ (6 ∷ 1 ∷ []) ∷ (4 ∷ 2 ∷ []) ∷ []) new_cloaked_name
      (record { are_ipv4 = tt; are_ipv6 = tt; most_ipv4 = omega arith; most_ipv6 = omega arith })
      (omega arith) (omega arith)

-- An entry that was looked up 100 seconds ago, and its answer.
abbrev web : CloakedName
web = record new_cloaked_name {
  target = codes "example.com";
  ipv4 = (192 ∷ 0 ∷ 2 ∷ 1 ∷ []) ∷ [];
  last_update = some 1000000000;
}

answers_web :
    cloaked_answer asked (time_left 600 101000000000 web).0 web
    ≡ record {
      header = record {
        name = codes "Ads.example.";
        rrtype = type_a;
        class = class_inet;
        ttl = 500;
      };
      rdata = a_rr (192 ∷ 0 ∷ 2 ∷ 1 ∷ []);
    }
      ∷ []
unfolding cloaked_answer time_left
answers_web = refl

abbrev no_edns : DnsLib
no_edns = record {
  unpack = λ s. none;
  pack = λ m. none;
  is_edns0 = λ m. none;
  set_edns0 = λ n d m. m;
  set_options = λ o m. m;
  spoiled = λ s m. s;
}

abbrev unshuffled : List Rr → List Rr
unshuffled rrs = rrs

abbrev never : Bytes → Bytes → Option Bool
never p s = some false

abbrev no_lookup : Bytes → Option (List Bytes)
no_lookup name = none

abbrev rules : PatternMatcher Bytes (List (Bytes × Option Bytes))
rules = record {
  prefixes = [];
  suffixes = [];
  substrings = [];
  patterns = [];
  exacts = (codes "ads.example", some (codes "=ads.example")) ∷ [];
  indirect_vals = [];
}

abbrev ads_state : PluginsState
ads_state = record start { q_name = codes "ads.example" }

abbrev store : Store
store = (codes "=ads.example", web) ∷ []

abbrev answered_web : Evaluated Store
answered_web =
    cloak_eval no_edns of_kind no_lookup unshuffled 600 list_trie never rules 101000000000 store
      ads_state query
