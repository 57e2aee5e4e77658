-- ===== src/Plugins/Addresses/Hits.antt =====
-- plugin_block_ip.go: what is rejected.
use mathlib.Core.Path.{subst}
use sourcegraph_testing_dnsc.Base.{
  All, Any, Bool-cases, Bytes, List, Option-cases, [], false, has_prefix, inl, inr, none, some, sym,
  true, ℕ, ◌∙◌, ◌∷◌, ◌≡◌, ◌⊎◌,
}
use sourcegraph_testing_dnsc.Dns.{Msg, Rr}
use sourcegraph_testing_dnsc.Patterns.Tries.{IsTrie, Trie, member}
use sourcegraph_testing_dnsc.Plugins.Addresses.{
  IpPlugin, IpRules, address_of, at_separator, block_ip_eval, first_hit, ip_hit,
}
use sourcegraph_testing_dnsc.Plugins.{PluginsState, action_reject, evaluated}
use sourcegraph_testing_dnsc.Plugins.Logging.{Log}

module _ (t : Trie ℕ) (laws : IsTrie t) where
  -- The text of an address is a rule, or begins with one that had a star and goes on with a
  -- separator, if at all.
  abbrev pub IsListedIp : IpRules t → Bytes → Type 0
  IsListedIp rules text =
      (member text rules.ips ≡ true)
      ⊎ ((m : Bytes) × (member m (Trie.keys t rules.prefixes) ≡ true)
          × (has_prefix text m ≡ true)
          × (at_separator t m text ≡ true))

  -- A record of the answers with such an address.
  abbrev pub HasListedIp : IpPlugin t → Rr → Type 0
  HasListedIp plugin rr =
      (ip : Bytes) × (address_of t rr ≡ some ip) × IsListedIp plugin.rules (plugin.ip_text ip)

  ip_hit-IsListedIp :
      (rules : IpRules t) (text reason : Bytes)
      → ip_hit t rules text ≡ some reason
      → IsListedIp rules text
  unfolding ip_hit
  ip_hit-IsListedIp rules text reason h = elim (Bool-cases (member text rules.ips)) [
    | inl e ↦ inl e
    | inr e ↦ elim (Option-cases (Trie.longest_prefix t rules.prefixes text)) [
      | inl n ↦ absurd (let h' : none ≡ some reason = rw (e, n, ip_hit) at h in cc)
      | inr ((m, v), y) ↦ elim (Bool-cases (at_separator t m text)) [
        | inl b ↦
            let (mem, prefix) = laws.found rules.prefixes text m v y in inr (m, mem, prefix, b)
        | inr b ↦ absurd (let h' : none ≡ some reason = rw (e, y, b, ip_hit) at h in cc)
      ]
    ]
  ]

  -- The search over the answers.
  first_hit-HasListedIp :
      (plugin : IpPlugin t) (rrs : List Rr) (hit : Bytes × Bytes)
      → first_hit t plugin.ip_text plugin.rules rrs ≡ some hit
      → Any (HasListedIp plugin) rrs
  unfolding first_hit
  first_hit-HasListedIp plugin [] hit h = cc
  first_hit-HasListedIp plugin (rr ∷ rrs) hit h = elim (Option-cases (address_of t rr)) [
    | inl n ↦ inr (first_hit-HasListedIp plugin rrs hit (rw (n, first_hit) at h))
    | inr (ip, y) ↦ elim (Option-cases (ip_hit t plugin.rules (plugin.ip_text ip))) [
      | inl n ↦ inr (first_hit-HasListedIp plugin rrs hit (rw (y, n, first_hit) at h))
      | inr (reason, z) ↦ inl (ip, y, ip_hit-IsListedIp plugin.rules (plugin.ip_text ip) reason z)
    ]
  ]

  -- The text of its address is no rule without a star.
  abbrev pub HasNoExact : IpPlugin t → Rr → Type 0
  HasNoExact plugin rr =
      (ip : Bytes) → address_of t rr ≡ some ip → member (plugin.ip_text ip) plugin.rules.ips ≡ false

  no_exact :
      (plugin : IpPlugin t) (rr : Rr) (ip : Bytes)
      → address_of t rr ≡ some ip
      → ip_hit t plugin.rules (plugin.ip_text ip) ≡ none
      → HasNoExact plugin rr
  unfolding ip_hit
  no_exact plugin rr ip y h ip' y' =
      elim (Bool-cases (member (plugin.ip_text ip') plugin.rules.ips)) [
        | inr e ↦ e
        | inl e ↦
            let same = some_eq (sym y ∙ y') in
            let h' : ip_hit t plugin.rules (plugin.ip_text ip') ≡ none =
              subst (λ i. ip_hit t plugin.rules (plugin.ip_text i) ≡ none) same h in
            absurd (let f : some (plugin.ip_text ip') ≡ none = rw (e, ip_hit) at h' in cc)
      ]
    where
      some_eq : {x y : Bytes} → some x ≡ some y → x ≡ y
      some_eq e = cc

  first_hit-HasNoExact :
      (plugin : IpPlugin t) (rrs : List Rr)
      → first_hit t plugin.ip_text plugin.rules rrs ≡ none
      → All (HasNoExact plugin) rrs
  unfolding first_hit
  first_hit-HasNoExact plugin [] h = tt
  first_hit-HasNoExact plugin (rr ∷ rrs) h = elim (Option-cases (address_of t rr)) [
    | inl n ↦ (
      λ ip y. absurd (let f : none ≡ some ip = sym n ∙ y in cc),
      first_hit-HasNoExact plugin rrs (rw (n, first_hit) at h),
    )
    | inr (ip, y) ↦ elim (Option-cases (ip_hit t plugin.rules (plugin.ip_text ip))) [
      | inl n ↦
          (no_exact plugin rr ip y n, first_hit-HasNoExact plugin rrs (rw (y, n, first_hit) at h))
      | inr (reason, z) ↦
          absurd (let f : some (plugin.ip_text ip, reason) ≡ none = rw (y, z, first_hit) at h in cc)
    ]
  ]

  -- A response that was not whitelisted is rejected only if an answer's address is listed, and is
  -- left alone only if none is a rule of its own.
  pub block_ip_eval_lem :
      (plugin : IpPlugin t) (log : Log) (st : PluginsState) (msg : Msg)
      → st.whitelisted ≡ false
      → let out = block_ip_eval t plugin log st msg in
        ((out.state.action ≡ action_reject) × Any (HasListedIp plugin) msg.answer)
        ⊎ ((out ≡ evaluated log st msg) × All (HasNoExact plugin) msg.answer)
  unfolding block_ip_eval
  block_ip_eval_lem plugin log st msg h =
      elim (Option-cases (first_hit t plugin.ip_text plugin.rules msg.answer)) [
        | inl n ↦ inr (simp (block_ip_eval, h, n), first_hit-HasNoExact plugin msg.answer n)
        | inr (hit, y) ↦
            inl (simp (block_ip_eval, h, y), first_hit-HasListedIp plugin msg.answer hit y)
      ]
