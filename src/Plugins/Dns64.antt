-- ===== src/Plugins/Dns64.antt =====
-- dnscrypt-proxy/plugin_dns64.go: IPv6 addresses made of IPv4 addresses and a prefix. An address is
-- its sixteen bytes. The exchange with a resolver and the proxy's own answer to the query for A
-- records are arguments; `none` is a panic, by an index out of range.
pub mod Prefixes
pub mod Synthesis
pub mod Totality
mod Tests
use sourcegraph_testing_dnsc.Base.{
  Bool, Bytes, List, Option, Result, [], any, bytes_eq, err, false, if◌then◌else◌, length, ltb,
  no_prefix, none, not, ok, pack_failed, replicate, set, some, take, too_many_clients, true,
  unpack_failed, ℕ, ◌&&◌, ◌*◌, ◌++◌, ◌+◌, ◌-◌, ◌/◌, ◌==◌, ◌||◌, ◌∷◌,
}
use sourcegraph_testing_dnsc.Dns.{
  DnsLib, Msg, Question, Rdata, Rr, RrHeader, a_rr, aaaa_rr, class_inet, rcode_success, type_a,
  type_aaaa, type_cname, type_soa,
}
use sourcegraph_testing_dnsc.Dns.Padding.{byte_at}
use sourcegraph_testing_dnsc.Dns.Replies.{empty_response_from_message}
use sourcegraph_testing_dnsc.Plugins.{
  Evaluated, PluginsState, code_cloak, evaluated, failed, synthesize,
}

-- `net.IPNet`, with the number of ones of its mask.
pub record IpNet : Type 0 where
  pub ip : Bytes
  pub ones : ℕ

unfoldable pub has_aaaa_answer : List Rr → Bool
has_aaaa_answer [] = false
has_aaaa_answer (rr ∷ rrs) = rr.header.rrtype == type_aaaa || has_aaaa_answer rrs

-- A write of one byte.
abbrev put : Bytes → ℕ → ℕ → Option Bytes
put s i b = if ltb i (length s) then some (set s i b) else none

-- The loop over the bytes of the IPv4 address, the `i`-th first: byte 8 is left out.
unfoldable pub translate_loop : Bytes → ℕ → ℕ → Bytes → Option Bytes
translate_loop [] i ip_shift ipv6 = some ipv6
translate_loop (b ∷ bs) i ip_shift ipv6 =
    let shift = if ip_shift + i == 8 then ip_shift + 1 else ip_shift in
    elim (put ipv6 (shift + i) b) [
      | none ↦ none
      | some ipv6' ↦ translate_loop bs (i + 1) shift ipv6'
    ]

unfoldable pub translate_to_ipv6 : Bytes → IpNet → Option Bytes
unfolding translate_loop
translate_to_ipv6 ipv4 prefix =
    translate_loop ipv4 0 (prefix.ones / 8)
      (take 16 (prefix.ip ++ replicate (16 - length prefix.ip) 0))

-- One of the two well-known addresses, 192.0.0.170 and 192.0.0.171.
abbrev is_well_known : ℕ → ℕ → ℕ → ℕ → Bool
is_well_known a b c d = a == 192 && (b == 0 && (c == 0 && (d == 170 || d == 171)))

-- Where the prefix of a translated well-known address ends; 0 for none.
unfoldable pub prefix_end : Bytes → ℕ
prefix_end ip =
    let at = byte_at ip in
    if is_well_known (at 12) (at 13) (at 14) (at 15)
    then 12
    else if is_well_known (at 9) (at 10) (at 11) (at 12)
    then 8
    else if is_well_known (at 7) (at 9) (at 10) (at 11)
    then 7
    else if is_well_known (at 6) (at 7) (at 9) (at 10)
    then 6
    else if is_well_known (at 5) (at 6) (at 7) (at 9)
    then 5
    else if is_well_known (at 4) (at 5) (at 6) (at 7)
    then 4
    else 0

unfoldable pub prefix_of : Bytes → Option IpNet
unfolding prefix_end
prefix_of ip =
    let end = prefix_end ip in
    if ltb 0 end
    then some (record { ip = take end ip ++ replicate (16 - end) 0; ones = end * 8 })
    else none

abbrev same_net : IpNet → IpNet → Bool
same_net a b = bytes_eq a.ip b.ip && a.ones == b.ones

abbrev add_prefix : Option IpNet → List IpNet → List IpNet
add_prefix none prefixes = prefixes
add_prefix (some p) prefixes = if any (same_net p) prefixes then prefixes else prefixes ++ p ∷ []

abbrev prefix_in : Rr → Option IpNet
prefix_in rr = elim rr.rdata [
  | aaaa_rr ip ↦ if rr.header.rrtype == type_aaaa && length ip == 16 then prefix_of ip else none
  | _ ↦ none
]

unfoldable pub prefix_loop : List Rr → List IpNet → List IpNet
unfolding prefix_of
prefix_loop [] prefixes = prefixes
prefix_loop (rr ∷ rrs) prefixes = prefix_loop rrs (add_prefix (prefix_in rr) prefixes)

-- What a resolver's response leaves as prefixes; an error leaves those that were there.
unfoldable pub fetch_pref64 : Result Msg → Result (List IpNet)
unfolding prefix_loop
fetch_pref64 (err e) = err e
fetch_pref64 (ok resp) =
    if not (resp.rcode == rcode_success)
    then err no_prefix
    else elim (prefix_loop resp.answer []) [ [] ↦ err no_prefix | p ∷ ps ↦ ok (p ∷ ps) ]

-- `refreshPref64`, over the responses of the resolvers in their order.
unfoldable pub refresh_pref64 : List (Result Msg) → List IpNet → Result (List IpNet)
unfolding fetch_pref64
refresh_pref64 [] [] = err no_prefix
refresh_pref64 [] (p ∷ ps) = ok (p ∷ ps)
refresh_pref64 (r ∷ rs) prefixes = elim (fetch_pref64 r) [
  | ok found ↦ ok found
  | err e ↦ refresh_pref64 rs prefixes
]

-- The lifetime of the last SOA record.
unfoldable pub initial_ttl : List Rr → ℕ → ℕ
initial_ttl [] ttl = ttl
initial_ttl (rr ∷ rrs) ttl =
    initial_ttl rrs (if rr.header.rrtype == type_soa then rr.header.ttl else ttl)

unfoldable pub synth_aaaa : RrHeader → ℕ → Bytes → Rr
synth_aaaa header ttl ipv6 = record {
  header = record header {
    rrtype = type_aaaa;
    ttl = if ltb header.ttl ttl then header.ttl else ttl;
  };
  rdata = aaaa_rr ipv6;
}

-- `answer.(*dns.A).A.To4()`.
unfoldable pub a_data : (Bytes → Option Bytes) → Rdata → Option Bytes
a_data to4 (a_rr ip) = to4 ip
a_data to4 _ = none

unfoldable pub translations : RrHeader → ℕ → Bytes → List IpNet → Option (List Rr)
unfolding translate_to_ipv6 synth_aaaa
translations header ttl ipv4 [] = some []
translations header ttl ipv4 (p ∷ ps) = elim (translate_to_ipv6 ipv4 p) [
  | none ↦ none
  | some ipv6 ↦ elim (translations header ttl ipv4 ps) [
    | none ↦ none
    | some rrs ↦ some (synth_aaaa header ttl ipv6 ∷ rrs)
  ]
]

module _ (to4 : Bytes → Option Bytes) (prefixes : List IpNet) where
  -- The records that one answer gives.
  unfoldable pub synthesized : ℕ → Rr → Option (List Rr)
  unfolding translations a_data
  synthesized ttl rr =
      if rr.header.rrtype == type_cname
      then some (rr ∷ [])
      else if rr.header.rrtype == type_a
      then elim (a_data to4 rr.rdata) [
        | none ↦ some []
        | some ipv4 ↦ translations rr.header ttl ipv4 prefixes
      ]
      else some []

  unfoldable pub synth_loop : ℕ → List Rr → Option (List Rr)
  unfolding synthesized
  synth_loop ttl [] = some []
  synth_loop ttl (rr ∷ rrs) = elim (synthesized ttl rr) [
    | none ↦ none
    | some here ↦ elim (synth_loop ttl rrs) [ none ↦ none | some rest ↦ some (here ++ rest) ]
  ]

-- `SetQuestion`, with its random identifier.
abbrev pub a_query : ℕ → Bytes → Msg → Msg
a_query id name msg = record msg {
  id = id;
  recursion_desired = true;
  question = record { name = name; qtype = type_a; qclass = class_inet } ∷ [];
}

module _ {W : Type 0} (lib : DnsLib) (to4 : Bytes → Option Bytes)
    (ask : W → Bytes → Option (Bytes × W)) where
  -- From the response to the query for A records.
  unfoldable pub from_answers : List IpNet → W → PluginsState → Msg → Msg → Option (Evaluated W)
  unfolding synth_loop initial_ttl
  from_answers prefixes w st msg resp =
      if not (resp.rcode == rcode_success) || length resp.answer == 0
      then some (evaluated w st msg)
      else elim (synth_loop to4 prefixes (initial_ttl resp.ns 600) resp.answer) [
        | none ↦ none
        | some rrs ↦ some (
            evaluated w
              (synthesize (record (empty_response_from_message lib msg) { answer = rrs }) code_cloak
                st)
              msg)
      ]

  unfoldable pub asked_self : List IpNet → W → PluginsState → Msg → Msg → Option (Evaluated W)
  unfolding from_answers
  asked_self prefixes w st msg msg_a = elim (lib.pack msg_a) [
    | none ↦ some (failed w st msg pack_failed)
    | some packet ↦ elim (ask w packet) [
      | none ↦ some (failed w st msg too_many_clients)
      | some p ↦ elim (lib.unpack p.0) [
        | none ↦ some (failed p.1 st msg unpack_failed)
        | some resp ↦ from_answers prefixes p.1 st msg resp
      ]
    ]
  ]

  unfoldable pub on_question :
      List IpNet → ℕ → W → PluginsState → Msg → Msg → List Question → Option (Evaluated W)
  unfolding asked_self
  on_question prefixes id w st msg question_msg [] = none
  on_question prefixes id w st msg question_msg (q ∷ qs) =
      if not (q.qclass == class_inet) || not (q.qtype == type_aaaa)
      then some (evaluated w st msg)
      else asked_self prefixes w st msg (a_query id q.name question_msg)

  unfoldable pub on_question_msg :
      List IpNet → ℕ → W → PluginsState → Msg → Option Msg → Option (Evaluated W)
  unfolding on_question
  on_question_msg prefixes id w st msg none = none
  on_question_msg prefixes id w st msg (some question_msg) =
      on_question prefixes id w st msg question_msg question_msg.question

  -- `PluginDNS64.Eval`.
  unfoldable pub dns64_eval : List IpNet → ℕ → W → PluginsState → Msg → Option (Evaluated W)
  unfolding on_question_msg has_aaaa_answer
  dns64_eval prefixes id w st msg =
      if has_aaaa_answer msg.answer
      then some (evaluated w st msg)
      else on_question_msg prefixes id w st msg st.question_msg
