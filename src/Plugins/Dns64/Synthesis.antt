-- ===== src/Plugins/Dns64/Synthesis.antt =====
-- plugin_dns64.go: which records `Eval` answers with.
use sourcegraph_testing_dnsc.Base.{
  All, All-append, All-implies, Any, Bool-cases, Bytes, List, Option, Option-cases, [], arith, inl,
  inr, none, refl, some, ℕ, ◌==◌, ◌∷◌, ◌≡◌, ◌≤◌,
}
use sourcegraph_testing_dnsc.Dns.{Rr, RrHeader, aaaa_rr, type_a, type_cname}
use sourcegraph_testing_dnsc.Plugins.Dns64.{
  IpNet, a_data, synth_aaaa, synth_loop, synthesized, translate_to_ipv6, translations,
}

-- The address `ipv4` behind a prefix, with a lifetime of at most that of the record and at most
-- `ttl`.
pub record IsTranslation (header : RrHeader) (ttl : ℕ) (ipv4 : Bytes) (out : Rr) (prefix : IpNet)
    : Type 0 where
  pub ipv6 : Bytes
  pub translated : translate_to_ipv6 ipv4 prefix ≡ some ipv6
  pub address : out.rdata ≡ aaaa_rr ipv6
  pub same_name : out.header.name ≡ header.name
  pub within : out.header.ttl ≤ ttl
  pub within_record : out.header.ttl ≤ header.ttl

abbrev IfSome : {A : Type 0} → (A → Type 0) → Option A → Type 0
IfSome P none = Unit {0}
IfSome P (some a) = P a

synth_aaaa-IsTranslation :
    (header : RrHeader) (ttl : ℕ) (ipv4 ipv6 : Bytes) (prefix : IpNet)
    → translate_to_ipv6 ipv4 prefix ≡ some ipv6
    → IsTranslation header ttl ipv4 (synth_aaaa header ttl ipv6) prefix
unfolding synth_aaaa
synth_aaaa-IsTranslation header ttl ipv4 ipv6 prefix h = record {
  ipv6 = ipv6;
  translated = h;
  address = refl;
  same_name = refl;
  within = ground arith;
  within_record = ground arith;
}

translations-AreTranslations :
    (header : RrHeader) (ttl : ℕ) (ipv4 : Bytes) (prefixes : List IpNet)
    → IfSome
        (All (λ out. Any (IsTranslation header ttl ipv4 out) prefixes))
        (translations header ttl ipv4 prefixes)
unfolding translations
translations-AreTranslations header ttl ipv4 [] = tt
translations-AreTranslations header ttl ipv4 (p ∷ ps) =
    let ih = translations-AreTranslations header ttl ipv4 ps in
    elim (Option-cases (translate_to_ipv6 ipv4 p)) [
      | inl e ↦ rw (translations, e) tt
      | inr (ipv6, e) ↦ elim (Option-cases (translations header ttl ipv4 ps)) [
        | inl f ↦ rw (translations, e, f) tt
        | inr (rrs, f) ↦
            rw (translations, e, f)
              (
                inl (synth_aaaa-IsTranslation header ttl ipv4 ipv6 p e),
                All-implies (λ out. Any (IsTranslation header ttl ipv4 out) ps)
                    (λ out. Any (IsTranslation header ttl ipv4 out) (p ∷ ps)) rrs (λ out h. inr h)
                    (rw f at ih),
              )
      ]
    ]

module _ (to4 : Bytes → Option Bytes) (prefixes : List IpNet) where
  -- Where a record comes from: it is an alias of the response, or a translation of an A record's
  -- address.
  pub data IsSynthesized (ttl : ℕ) (out rr : Rr) : Type 0 where
    alias : rr.header.rrtype ≡ type_cname → out ≡ rr → IsSynthesized ttl out rr
    translation :
        (ipv4 : Bytes)
        → rr.header.rrtype ≡ type_a
        → a_data to4 rr.rdata ≡ some ipv4
        → Any (IsTranslation rr.header ttl ipv4 out) prefixes
        → IsSynthesized ttl out rr

  synthesized-AreSynthesized :
      (ttl : ℕ) (rr : Rr)
      → IfSome (All (λ out. IsSynthesized ttl out rr)) (synthesized to4 prefixes ttl rr)
  unfolding synthesized
  synthesized-AreSynthesized ttl rr = elim (Bool-cases (rr.header.rrtype == type_cname)) [
    | inl e ↦ rw (synthesized, e) (alias (ground arith) refl, tt)
    | inr e ↦ elim (Bool-cases (rr.header.rrtype == type_a)) [
      | inr f ↦ rw (synthesized, e, f) tt
      | inl f ↦ elim (Option-cases (a_data to4 rr.rdata)) [
        | inl g ↦ rw (synthesized, e, f, g) tt
        | inr (ipv4, g) ↦
            let all = translations-AreTranslations rr.header ttl ipv4 prefixes in
            elim (Option-cases (translations rr.header ttl ipv4 prefixes)) [
              | inl k ↦ rw (synthesized, e, f, g, k) tt
              | inr (outs, k) ↦
                  rw (synthesized, e, f, g, k)
                    (All-implies (λ out. Any (IsTranslation rr.header ttl ipv4 out) prefixes)
                      (λ out. IsSynthesized ttl out rr) outs
                      (λ out h. translation ipv4 (ground arith) g h) (rw k at all))
            ]
      ]
    ]
  ]

  abbrev pub AreSynthesized : ℕ → List Rr → List Rr → Type 0
  AreSynthesized ttl rrs = All (λ out. Any (IsSynthesized ttl out) rrs)

  -- Each record of the loop's result is an alias of the response, or a translation.
  pub synth_loop-AreSynthesized :
      (ttl : ℕ) (rrs : List Rr) → IfSome (AreSynthesized ttl rrs) (synth_loop to4 prefixes ttl rrs)
  unfolding synth_loop
  synth_loop-AreSynthesized ttl [] = tt
  synth_loop-AreSynthesized ttl (rr ∷ rrs) =
      let ih = synth_loop-AreSynthesized ttl rrs in
      let here = synthesized-AreSynthesized ttl rr in
      elim (Option-cases (synthesized to4 prefixes ttl rr)) [
        | inl e ↦ rw (synth_loop, e) tt
        | inr (outs, e) ↦ elim (Option-cases (synth_loop to4 prefixes ttl rrs)) [
          | inl f ↦ rw (synth_loop, e, f) tt
          | inr (rest, f) ↦
              rw (synth_loop, e, f)
                (All-append (λ out. Any (IsSynthesized ttl out) (rr ∷ rrs)) outs rest
                  (All-implies (λ out. IsSynthesized ttl out rr)
                    (λ out. Any (IsSynthesized ttl out) (rr ∷ rrs)) outs (λ out h. inl h)
                    (rw e at here))
                  (All-implies (λ out. Any (IsSynthesized ttl out) rrs)
                    (λ out. Any (IsSynthesized ttl out) (rr ∷ rrs)) rest (λ out h. inr h)
                    (rw f at ih)))
        ]
      ]
