-- ===== src/Dns/Replies.antt =====
-- dnscrypt-proxy/dnsutils.go: the responses that the proxy makes itself, and header fields of packets.
use mathlib.Core.Path.{subst}
use sourcegraph_testing_dnsc.Base.{
  Bool, Bytes, List, Option, Option-cases, Result, [], arith, codes, err, false, if◌then◌else◌, inl,
  inr, is_some, none, ok, pack_failed, refl, some, sym, true, unpack_failed, ℕ, ◌&&◌, ◌==◌, ◌>>=◌,
  ◌∷◌, ◌≡◌, ◌⊎◌,
}
use sourcegraph_testing_dnsc.Dns.{
  DnsLib, Msg, Question, Rdata, Rr, RrHeader, a_rr, aaaa_rr, class_inet, hinfo, rcode_refused,
  rcode_success, type_a, type_aaaa, type_hinfo,
}

abbrev answer_header : Question → ℕ → ℕ → RrHeader
answer_header q rrtype ttl = record {
  name = q.name;
  rrtype = rrtype;
  class = class_inet;
  ttl = ttl;
}

abbrev hinfo_answer : Question → ℕ → Rr
hinfo_answer q ttl = record {
  header = answer_header q type_hinfo ttl;
  rdata = hinfo (codes "This query has been locally blocked") (codes "by dnscrypt-proxy");
}

-- An address record, or the HINFO record where the address has not the form.
abbrev address_or_hinfo : Option Rdata → Question → ℕ → ℕ → Rr
address_or_hinfo none q rrtype ttl = hinfo_answer q ttl
address_or_hinfo (some rdata) q rrtype ttl = record {
  header = answer_header q rrtype ttl;
  rdata = rdata;
}

abbrev map_rdata : (Bytes → Rdata) → Option Bytes → Option Rdata
map_rdata f none = none
map_rdata f (some ip) = some (f ip)

-- The record for a blocked question; `to4` and `to16` are `To4` and `To16`, with `none` for nil.
blocked_answer :
    (Bytes → Option Bytes)
    → (Bytes → Option Bytes)
    → Option Bytes
    → Option Bytes
    → Question
    → ℕ
    → Rr
blocked_answer to4 to16 ipv4 ipv6 q ttl =
    if is_some ipv4 && q.qtype == type_a
    then address_or_hinfo (map_rdata a_rr (ipv4 >>= to4)) q type_a ttl
    else if is_some ipv6 && q.qtype == type_aaaa
    then address_or_hinfo (map_rdata aaaa_rr (ipv6 >>= to16)) q type_aaaa ttl
    else hinfo_answer q ttl

answer_first : Msg → List Question → (Question → Rr) → Msg
answer_first dst [] f = record dst { rcode = rcode_success }
answer_first dst (q ∷ qs) f = record dst { rcode = rcode_success; answer = f q ∷ [] }

module _ (lib : DnsLib) where
  open lib use {unpack, pack, is_edns0, set_edns0}

  -- The header and the question are those of the source, without the flags that a response resets.
  abbrev base_response : Msg → Msg
  base_response src = record src {
    response = true;
    compress = true;
    recursion_available = if src.recursion_desired then true else src.recursion_available;
    recursion_desired = false;
    checking_disabled = false;
    authenticated_data = false;
    answer = [];
    ns = [];
    extra = [];
  }

  unfoldable pub empty_response_from_message : Msg → Msg
  empty_response_from_message src = elim (is_edns0 src) [
    | none ↦ base_response src
    | some edns ↦ set_edns0 edns.udp_size edns.do_bit (base_response src)
  ]

  unfoldable pub truncated_response : Bytes → Result Bytes
  truncated_response packet = elim (unpack packet) [
    | none ↦ err unpack_failed
    | some src ↦ elim (pack (record (empty_response_from_message src) { truncated = true })) [
      | none ↦ err pack_failed
      | some bytes ↦ ok bytes
    ]
  ]

  unfoldable pub refused_response_from_message :
      (Bytes → Option Bytes)
      → (Bytes → Option Bytes)
      → Msg
      → Bool
      → Option Bytes
      → Option Bytes
      → ℕ
      → Msg
  unfolding answer_first blocked_answer
  refused_response_from_message to4 to16 src refused_code ipv4 ipv6 ttl =
      let dst = empty_response_from_message src in
      if refused_code
      then record dst { rcode = rcode_refused }
      else answer_first dst src.question (λ q. blocked_answer to4 to16 ipv4 ipv6 q ttl)

-- What is documented of `SetEdns0`: it only adds to the extra section.
pub record KeepsMessage (lib : DnsLib) : Type 0 where
  pub kept :
      (n : ℕ) (d : Bool) (m : Msg)
      → let m' = DnsLib.set_edns0 lib n d m in
        (m'.id ≡ m.id)
        × (m'.response ≡ m.response)
        × (m'.question ≡ m.question)
        × (m'.answer ≡ m.answer)
        × (m'.rcode ≡ m.rcode)
        × (m'.authenticated_data ≡ m.authenticated_data)

-- The header that a client gets back.
pub record Answers (src dst : Msg) : Type 0 where
  pub same_id : dst.id ≡ src.id
  pub is_response : dst.response ≡ true
  pub same_question : dst.question ≡ src.question
  pub not_authenticated : dst.authenticated_data ≡ false

pub empty_response-Answers :
    (lib : DnsLib)
    → KeepsMessage lib
    → (src : Msg)
    → Answers src (empty_response_from_message lib src)
      × ((empty_response_from_message lib src).answer ≡ [])
      × ((empty_response_from_message lib src).rcode ≡ src.rcode)
unfolding empty_response_from_message
empty_response-Answers lib laws src = elim (Option-cases (DnsLib.is_edns0 lib src)) [
  | inl e ↦
      rw (empty_response_from_message, e)
        (
          record {
            same_id = refl;
            is_response = refl;
            same_question = refl;
            not_authenticated = refl;
          },
          refl,
          refl,
        )
  | inr (edns, e) ↦
      let k = laws.kept edns.udp_size edns.do_bit (base_response lib src) in
      rw (empty_response_from_message, e)
        (
          record { same_id = k.0; is_response = k.1; same_question = k.2; not_authenticated = k.5 },
          k.3,
          k.4,
        )
]

-- The question's name, the reject TTL, and the type that was asked for or HINFO.
abbrev pub IsBlocked : Question → ℕ → Rr → Type 0
IsBlocked q ttl rr =
    (rr.header.name ≡ q.name)
    × (rr.header.ttl ≡ ttl)
    × ((rr.header.rrtype ≡ q.qtype) ⊎ (rr.header.rrtype ≡ type_hinfo))

blocked_answer-IsBlocked :
    (to4 to16 : Bytes → Option Bytes) (ipv4 ipv6 : Option Bytes) (q : Question) (ttl : ℕ)
    → IsBlocked q ttl (blocked_answer to4 to16 ipv4 ipv6 q ttl)
unfolding blocked_answer
blocked_answer-IsBlocked to4 to16 ipv4 ipv6 q ttl = (ground arith, ground arith, ground arith)

answer_first-cons :
    (src dst : Msg) (f : Question → Rr) (l : List Question) (q : Question) (qs : List Question)
    → Answers src dst
    → l ≡ q ∷ qs
    → Answers src (answer_first dst l f)
      × ((answer_first dst l f).rcode ≡ rcode_success)
      × ((answer_first dst l f).answer ≡ f q ∷ [])
unfolding answer_first
answer_first-cons src dst f l q qs h e =
    subst
      (λ l.
        Answers src (answer_first dst l f)
        × ((answer_first dst l f).rcode ≡ rcode_success)
        × ((answer_first dst l f).answer ≡ f q ∷ []))
      (sym e)
      (
        record {
          same_id = h.same_id;
          is_response = h.is_response;
          same_question = h.same_question;
          not_authenticated = h.not_authenticated;
        },
        refl,
        refl,
      )

-- A blocked query is answered by REFUSED with no record, or else by success with one record of the
-- first question's name and of the reject TTL; the record is of the type that was asked for, or a
-- HINFO. The response has the query's number and question, and is not authenticated.
pub refused_response-Answers :
    (lib : DnsLib)
    → KeepsMessage lib
    → (to4 to16 : Bytes → Option Bytes) (src : Msg) (refused_code : Bool) (ipv4 ipv6 : Option Bytes)
      (ttl : ℕ) (q : Question) (qs : List Question)
    → src.question ≡ q ∷ qs
    → let dst = refused_response_from_message lib to4 to16 src refused_code ipv4 ipv6 ttl in
      Answers src dst
      × (((refused_code ≡ true) × (dst.rcode ≡ rcode_refused) × (dst.answer ≡ []))
          ⊎ ((refused_code ≡ false)
              × (dst.rcode ≡ rcode_success)
              × (rr : Rr) × (dst.answer ≡ rr ∷ [])
              × IsBlocked q ttl rr))
unfolding refused_response_from_message
refused_response-Answers lib laws to4 to16 src true ipv4 ipv6 ttl q qs e =
    let (h, empty, same) = empty_response-Answers lib laws src in
    (
      record {
        same_id = h.same_id;
        is_response = h.is_response;
        same_question = h.same_question;
        not_authenticated = h.not_authenticated;
      },
      inl (refl, refl, empty),
    )
refused_response-Answers lib laws to4 to16 src false ipv4 ipv6 ttl q qs e =
    let (h, empty, same) = empty_response-Answers lib laws src in
    let answer_of = λ (x : Question). blocked_answer to4 to16 ipv4 ipv6 x ttl in
    let (h', code, one) =
      answer_first-cons src (empty_response_from_message lib src) answer_of src.question q qs h e in
    (h', inr (refl, code, answer_of q, one, blocked_answer-IsBlocked to4 to16 ipv4 ipv6 q ttl))
