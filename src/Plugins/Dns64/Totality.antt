-- ===== src/Plugins/Dns64/Totality.antt =====
-- plugin_dns64.go: `Eval` with prefixes that an IPv4 address fits behind.
use mathlib.Core.Path.{subst}
use sourcegraph_testing_dnsc.Base.{
  All, Bool-cases, Bytes, List, Option, Option-cases, [], false, inl, inr, length, not, refl, some,
  sym, ℕ, ◌==◌, ◌||◌, ◌∷◌, ◌≡◌, ◌≤◌, ◌⊎◌,
}
use sourcegraph_testing_dnsc.Dns.{
  DnsLib, Msg, Question, Rdata, Rr, RrHeader, a_rr, class_inet, rcode_success, type_a, type_aaaa,
  type_cname,
}
use sourcegraph_testing_dnsc.Plugins.{Evaluated, PluginsState, code_cloak}
use sourcegraph_testing_dnsc.Plugins.Dns64.{
  IpNet, a_data, a_query, asked_self, dns64_eval, from_answers, has_aaaa_answer, initial_ttl,
  on_question, on_question_msg, synth_loop, synthesized, translations,
}
use sourcegraph_testing_dnsc.Plugins.Dns64.Prefixes.{translate_to_ipv6_total}
use sourcegraph_testing_dnsc.Plugins.Dns64.Synthesis.{AreSynthesized, synth_loop-AreSynthesized}

abbrev pub AreShort : List IpNet → Type 0
AreShort = All (λ p. p.ones ≤ 96)

-- `To4` returns four bytes.
abbrev pub IsTo4 : (Bytes → Option Bytes) → Type 0
IsTo4 to4 = (ip ipv4 : Bytes) → to4 ip ≡ some ipv4 → length ipv4 ≡ 4

translations_total :
    (header : RrHeader) (ttl : ℕ) (ipv4 : Bytes) (prefixes : List IpNet)
    → length ipv4 ≡ 4
    → AreShort prefixes
    → (outs : List Rr) × (translations header ttl ipv4 prefixes ≡ some outs)
unfolding translations
translations_total header ttl ipv4 [] n h = ([], refl)
translations_total header ttl ipv4 (p ∷ ps) n h =
    let (ipv6, e) = translate_to_ipv6_total ipv4 p n h.0 in
    let (outs, f) = translations_total header ttl ipv4 ps n h.1 in rw (translations, e, f) (_, refl)

-- The state is kept, or a query without an IPv6 address is answered by aliases and translations of
-- the response that the proxy gives to the query for A records, `msg_a`.
abbrev pub SynthesizedFrom :
    {W : Type 0}
    → DnsLib
    → (Bytes → Option Bytes)
    → (W → Bytes → Option (Bytes × W))
    → List IpNet
    → W
    → PluginsState
    → Msg
    → Msg
    → Evaluated W
    → Type 0
SynthesizedFrom {W = W} lib to4 ask prefixes w st msg msg_a out =
    (out.state ≡ st)
    ⊎ ((resp : Msg) × (synth : Msg) × (packet : Bytes) × (received : Bytes × W) × (DnsLib.pack lib
            msg_a
          ≡ some packet)
        × (ask w packet ≡ some received)
        × (DnsLib.unpack lib received.0 ≡ some resp)
        × (out.state.synth_response ≡ some synth)
        × (out.state.return_code ≡ code_cloak)
        × (has_aaaa_answer msg.answer ≡ false)
        × AreSynthesized to4 prefixes (initial_ttl resp.ns 600) resp.answer synth.answer)

module _ (to4 : Bytes → Option Bytes) (law : IsTo4 to4) where
  a_data_size : (rdata : Rdata) (ipv4 : Bytes) → a_data to4 rdata ≡ some ipv4 → length ipv4 ≡ 4
  unfolding a_data
  a_data_size (a_rr ip) ipv4 h = law ip ipv4 h
  a_data_size _ ipv4 h = cc

  module _ (prefixes : List IpNet) (short : AreShort prefixes) where
    synthesized_total :
        (ttl : ℕ) (rr : Rr) → (outs : List Rr) × (synthesized to4 prefixes ttl rr ≡ some outs)
    unfolding synthesized
    synthesized_total ttl rr = elim (Bool-cases (rr.header.rrtype == type_cname)) [
      | inl e ↦ rw (synthesized, e) (_, refl)
      | inr e ↦ elim (Bool-cases (rr.header.rrtype == type_a)) [
        | inr f ↦ rw (synthesized, e, f) (_, refl)
        | inl f ↦ elim (Option-cases (a_data to4 rr.rdata)) [
          | inl g ↦ rw (synthesized, e, f, g) (_, refl)
          | inr (ipv4, g) ↦
              let (outs, k) =
                translations_total rr.header ttl ipv4 prefixes (a_data_size rr.rdata ipv4 g)
                  short in
              rw (synthesized, e, f, g) (outs, k)
        ]
      ]
    ]

    synth_loop_total :
        (ttl : ℕ) (rrs : List Rr) → (outs : List Rr) × (synth_loop to4 prefixes ttl rrs ≡ some outs)
    unfolding synth_loop
    synth_loop_total ttl [] = ([], refl)
    synth_loop_total ttl (rr ∷ rrs) =
        let (outs, e) = synthesized_total ttl rr in
        let (rest, f) = synth_loop_total ttl rrs in rw (synth_loop, e, f) (_, refl)

    module _ {W : Type 0} (lib : DnsLib) (ask : W → Bytes → Option (Bytes × W)) where
      Evaluates : W → PluginsState → Msg → Msg → Option (Evaluated W) → Type 0
      Evaluates w st msg msg_a r =
          (out : Evaluated W) × (r ≡ some out)
          × SynthesizedFrom lib to4 ask prefixes w st msg msg_a out

      from_answers-Evaluates :
          (w : W) (st : PluginsState) (msg msg_a resp : Msg) (packet : Bytes) (p : Bytes × W)
          → has_aaaa_answer msg.answer ≡ false
          → lib.pack msg_a ≡ some packet
          → ask w packet ≡ some p
          → lib.unpack p.0 ≡ some resp
          → Evaluates w st msg msg_a (from_answers lib to4 ask prefixes p.1 st msg resp)
      unfolding Evaluates from_answers
      from_answers-Evaluates w st msg msg_a resp packet p h packs asks unpacks =
          let ttl : ℕ = initial_ttl resp.ns 600 in
          let all = synth_loop-AreSynthesized to4 prefixes ttl resp.answer in
          let (outs, e) = synth_loop_total ttl resp.answer in
          elim (Bool-cases (not (resp.rcode == rcode_success) || length resp.answer == 0)) [
            | inl f ↦ rw (from_answers, f) (_, refl, inl refl)
            | inr f ↦
                rw (from_answers, f, e)
                  (
                    _,
                    refl,
                    inr (resp, _, packet, p, packs, asks, unpacks, refl, refl, h, rw e at all),
                  )
          ]

      asked_self-Evaluates :
          (w : W) (st : PluginsState) (msg msg_a : Msg)
          → has_aaaa_answer msg.answer ≡ false
          → Evaluates w st msg msg_a (asked_self lib to4 ask prefixes w st msg msg_a)
      unfolding Evaluates asked_self
      asked_self-Evaluates w st msg msg_a h = elim (Option-cases (lib.pack msg_a)) [
        | inl e ↦ simp (asked_self, e) (_, refl, inl refl)
        | inr (packet, e) ↦ elim (Option-cases (ask w packet)) [
          | inl f ↦ simp (asked_self, e, f) (_, refl, inl refl)
          | inr (p, f) ↦ elim (Option-cases (lib.unpack p.0)) [
            | inl g ↦ simp (asked_self, e, f, g) (_, refl, inl refl)
            | inr (resp, g) ↦
                let same : asked_self lib to4 ask prefixes w st msg msg_a
                    ≡ from_answers lib to4 ask prefixes p.1 st msg resp =
                  rw (asked_self, e, f, g) refl in
                subst (Evaluates w st msg msg_a) (sym same)
                  (from_answers-Evaluates w st msg msg_a resp packet p h e f g)
          ]
        ]
      ]

      on_question-Evaluates :
          (id : ℕ) (w : W) (st : PluginsState) (msg asked : Msg) (q : Question) (qs : List Question)
          → has_aaaa_answer msg.answer ≡ false
          → Evaluates w st msg
              (a_query id q.name asked)
              (on_question lib to4 ask prefixes id w st msg asked (q ∷ qs))
      unfolding on_question Evaluates
      on_question-Evaluates id w st msg asked q qs e =
          elim (Bool-cases (not (q.qclass == class_inet) || not (q.qtype == type_aaaa))) [
            | inl f ↦ rw (on_question, f) (_, refl, inl refl)
            | inr f ↦ rw (on_question, f) (asked_self-Evaluates w st msg _ e)
          ]

      -- With prefixes of at most 96 bits, where `To4` gives four bytes, `Eval` does not panic on a query with a question: it keeps
      -- the state, or answers a query that has no IPv6 address yet by records of which each is an
      -- alias of the response for A records or one of its addresses behind one of the prefixes.
      pub dns64_eval_synthesizes :
          (id : ℕ) (w : W) (st : PluginsState) (msg asked : Msg) (q : Question) (qs : List Question)
          → st.question_msg ≡ some asked
          → asked.question ≡ q ∷ qs
          → (out : Evaluated W) × (dns64_eval lib to4 ask prefixes id w st msg ≡ some out)
            × SynthesizedFrom lib to4 ask prefixes w st msg (a_query id q.name asked) out
      unfolding dns64_eval Evaluates on_question_msg
      dns64_eval_synthesizes id w st msg asked q qs h k =
          elim (Bool-cases (has_aaaa_answer msg.answer)) [
            | inl e ↦ rw (dns64_eval, e) (_, refl, inl refl)
            | inr e ↦
                let a : Msg = a_query id q.name asked in
                let r : Evaluates w st msg a
                    (on_question_msg lib to4 ask prefixes id w st msg st.question_msg) =
                  subst
                    (λ o. Evaluates w st msg a (on_question_msg lib to4 ask prefixes id w st msg o))
                    (sym h)
                    (subst
                      (λ l.
                        Evaluates w st msg a (on_question lib to4 ask prefixes id w st msg asked l))
                      (sym k) (on_question-Evaluates id w st msg asked q qs e)) in
                (r.0, rw (dns64_eval, e) r.1, r.2)
          ]
