-- ===== src/Dns/Tests.antt =====
-- dnsutils.go at concrete inputs, over a library that knows no EDNS0 and no wire format.
use sourcegraph_testing_dnsc.Base.{
  Bytes, [], codes, false, none, refl, some, true, ℕ, ◌∷◌, ◌≡◌, ◌⊎◌,
}
use sourcegraph_testing_dnsc.Dns.{
  DnsLib, Msg, Question, Rr, a_rr, class_inet, rcode_refused, rcode_success, type_a,
}
use sourcegraph_testing_dnsc.Dns.Lifetimes.{set_max_ttl}
use sourcegraph_testing_dnsc.Dns.Replies.{
  Answers, IsBlocked, KeepsMessage, refused_response-Answers, refused_response_from_message,
}

abbrev no_edns : DnsLib
no_edns = record {
  unpack = λ s. none;
  pack = λ m. some [];
  is_edns0 = λ m. none;
  set_edns0 = λ n d m. m;
  set_options = λ o m. m;
  spoiled = λ s m. s;
}

no_edns-KeepsMessage : KeepsMessage no_edns
no_edns-KeepsMessage = record { kept = λ n d m. (refl, refl, refl, refl, refl, refl) }

abbrev asked : Question
asked = record { name = codes "Example.com."; qtype = type_a; qclass = class_inet }

abbrev address : ℕ → Rr
address ttl = record {
  header = record { name = codes "example.com."; rrtype = type_a; class = class_inet; ttl = ttl };
  rdata = a_rr (192 ∷ 0 ∷ 2 ∷ 1 ∷ []);
}

abbrev answered : Msg
answered = record {
  id = 7;
  response = true;
  truncated = false;
  recursion_desired = true;
  recursion_available = true;
  authenticated_data = true;
  checking_disabled = false;
  rcode = rcode_success;
  compress = false;
  question = asked ∷ [];
  answer = address 300 ∷ address 60 ∷ [];
  ns = [];
  extra = [];
}

abbrev shortened : Msg
shortened = set_max_ttl answered 100

abbrev blocked : Msg
blocked = refused_response_from_message no_edns some some answered false none none 10

refused_response-Answers_example :
    Answers answered blocked
    × (((false ≡ true) × (blocked.rcode ≡ rcode_refused) × (blocked.answer ≡ []))
        ⊎ ((false ≡ false)
            × (blocked.rcode ≡ rcode_success)
            × (rr : Rr) × (blocked.answer ≡ rr ∷ [])
            × IsBlocked asked 10 rr))
refused_response-Answers_example =
    refused_response-Answers no_edns no_edns-KeepsMessage some some answered false none none 10
      asked [] refl

abbrev packet : Bytes
packet = 1 ∷ 2 ∷ 3 ∷ []
