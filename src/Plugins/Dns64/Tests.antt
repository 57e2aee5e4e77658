-- ===== src/Plugins/Dns64/Tests.antt =====
-- plugin_dns64.go at concrete inputs.
use sourcegraph_testing_dnsc.Base.{
  Bytes, Option, [], ap, arith, codes, length, none, refl, replicate, some, suc, sym, zero, ℕ, ◌++◌,
  ◌∷◌, ◌≡◌,
}
use sourcegraph_testing_dnsc.Plugins.Tests.{query, start}
use sourcegraph_testing_dnsc.Plugins.Dns64.{
  IpNet, a_data, a_query, asked_self, dns64_eval, from_answers, has_aaaa_answer, initial_ttl,
  on_question, on_question_msg, prefix_of, synth_aaaa, synth_loop, synthesized, translate_loop,
  translate_to_ipv6, translations,
}
use sourcegraph_testing_dnsc.Plugins.Dns64.Prefixes.{ends12, net, prefix_of-translate_to_ipv6, wka1}
use sourcegraph_testing_dnsc.Dns.{
  DnsLib, Msg, Question, a_rr, aaaa_rr, class_inet, type_a, type_aaaa,
}
use sourcegraph_testing_dnsc.Dns.Replies.{empty_response_from_message}
use sourcegraph_testing_dnsc.Plugins.{Evaluated, PluginsState, code_cloak, evaluated, synthesize}
use sourcegraph_testing_dnsc.Plugins.Dns64.Totality.{IsTo4, SynthesizedFrom, dns64_eval_synthesizes}

-- 64:ff9b::/96.
abbrev well_known_prefix : IpNet
well_known_prefix = record { ip = 0 ∷ 0x64 ∷ 0xff ∷ 0x9b ∷ replicate 12 0; ones = 96 }

abbrev byte : ℕ → ℕ
byte zero = 0
byte (suc zero) = 0x64
byte (suc (suc zero)) = 0xff
byte (suc (suc (suc zero))) = 0x9b
byte (suc (suc (suc (suc n)))) = 0

prefix_of-translate_to_ipv6_example :
    (ipv6 : Bytes) × (translate_to_ipv6 (192 ∷ 0 ∷ 0 ∷ 170 ∷ []) (net byte 12) ≡ some ipv6)
    × (prefix_of ipv6 ≡ some (net byte 12))
prefix_of-translate_to_ipv6_example =
    prefix_of-translate_to_ipv6 byte 12 (192 ∷ 0 ∷ 0 ∷ 170 ∷ []) ends12 wka1

-- Byte 8 is left out behind a prefix of 56 bits.
translated_56 :
    translate_to_ipv6 (1 ∷ 2 ∷ 3 ∷ 4 ∷ []) (record { ip = replicate 16 7; ones = 56 })
    ≡ some (replicate 7 7 ++ 1 ∷ 7 ∷ 2 ∷ 3 ∷ 4 ∷ replicate 4 7)
unfolding translate_to_ipv6 translate_loop
translated_56 = refl

-- A prefix that leaves no room.
translated_104 :
    translate_to_ipv6 (1 ∷ 2 ∷ 3 ∷ 4 ∷ []) (record { ip = replicate 16 7; ones = 104 }) ≡ none
unfolding translate_to_ipv6 translate_loop
translated_104 = refl

-- A query for the IPv6 address, and what the proxy finds of A records.
abbrev asked_aaaa : Question
asked_aaaa = record { name = codes "Ads.example."; qtype = type_aaaa; qclass = class_inet }

abbrev aaaa_query : Msg
aaaa_query = record query { question = asked_aaaa ∷ [] }

abbrev found_a : Msg
found_a = record query {
  answer =
      record {
        header = record {
          name = codes "Ads.example.";
          rrtype = type_a;
          class = class_inet;
          ttl = 900;
        };
        rdata = a_rr (192 ∷ 0 ∷ 2 ∷ 1 ∷ []);
      }
      ∷ [];
}

abbrev aaaa_state : PluginsState
aaaa_state = record start { question_msg = some aaaa_query }

abbrev finding : DnsLib
finding = record {
  unpack = λ s. some found_a;
  pack = λ m. some (1 ∷ 2 ∷ []);
  is_edns0 = λ m. none;
  set_edns0 = λ n d m. m;
  set_options = λ o m. m;
  spoiled = λ s m. s;
}

abbrev four : Bytes → Option Bytes
four ip = some (192 ∷ 0 ∷ 2 ∷ 1 ∷ [])

four-IsTo4 : IsTo4 four
four-IsTo4 ip ipv4 h = ap (λ o. length (elim o [ none ↦ [] | some s ↦ s ])) (sym h)

abbrev ask_once : Unit {0} → Bytes → Option (Bytes × Unit {0})
ask_once w packet = some (packet, w)

-- The address of the answer is the record's behind the prefix, with the lower lifetime.
synthesizes_address :
    dns64_eval finding four ask_once (well_known_prefix ∷ []) 5 tt aaaa_state aaaa_query
    ≡ some (
        evaluated tt
          (synthesize
            (record (empty_response_from_message finding aaaa_query) {
              answer =
                  record {
                    header = record {
                      name = codes "Ads.example.";
                      rrtype = type_aaaa;
                      class = class_inet;
                      ttl = 600;
                    };
                    rdata =
                        aaaa_rr (0 ∷ 0x64 ∷ 0xff ∷ 0x9b ∷ replicate 8 0 ++ 192 ∷ 0 ∷ 2 ∷ 1 ∷ []);
                  }
                  ∷ [];
            })
            code_cloak
            aaaa_state)
          aaaa_query)
unfolding dns64_eval on_question_msg on_question asked_self from_answers synth_loop synthesized
    translations translate_to_ipv6 translate_loop synth_aaaa a_data initial_ttl has_aaaa_answer
synthesizes_address = refl

dns64_eval_synthesizes_example :
    (out : Evaluated (Unit {0})) × (dns64_eval finding four ask_once
        (well_known_prefix ∷ [])
        5
        tt
        aaaa_state
        aaaa_query
      ≡ some out)
    × SynthesizedFrom finding four ask_once
        (well_known_prefix ∷ [])
        tt
        aaaa_state
        aaaa_query
        (a_query 5 (codes "Ads.example.") aaaa_query)
        out
dns64_eval_synthesizes_example =
    dns64_eval_synthesizes four four-IsTo4 (well_known_prefix ∷ []) (omega arith, tt) finding
      ask_once 5 tt aaaa_state aaaa_query aaaa_query asked_aaaa [] refl refl
