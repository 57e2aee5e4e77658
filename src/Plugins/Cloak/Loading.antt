-- ===== src/Plugins/Cloak/Loading.antt =====
-- plugin_cloak.go: `Init`, and the addresses that a lookup leaves in an entry.
use mathlib.Core.Path.{subst}
use sourcegraph_testing_dnsc.Base.{
  All, All-append, Bool-cases, Bytes, List, Option, Option-cases, [], ap, arith, bytes_eq, codes,
  contains, false, inl, inr, is_some, leb, length, length-append, none, refl, some, sym,
  trim_suffix, true, ℕ, ◌++◌, ◌+◌, ◌<◌, ◌∙◌, ◌∷◌, ◌≡◌, ◌≤◌,
}
use sourcegraph_testing_dnsc.Common.{trim_and_strip_inline_comments}
use sourcegraph_testing_dnsc.Plugins.Cloak.Answers.{lookup-set_entry, lookup-set_entry_self}
use sourcegraph_testing_dnsc.Plugins.Cloak.{
  Addresses, CloakedName, Store, add_ptr, cloak_line, cloak_loop, cloak_rule, entry_at, found_loop,
  new_cloaked_name, ptr_entry_to_query, ptr_line, record_rule, rule_for, set_entry, with_ptr,
  with_target,
}
use sourcegraph_testing_dnsc.Patterns.{lookup_text}

-- Sixteen addresses of either kind at most, each with its kind.
pub record IsSorted (to4 : Bytes → Option Bytes) (c : CloakedName) : Type 0 where
  pub are_ipv4 : All (λ ip. is_some (to4 ip) ≡ true) c.ipv4
  pub are_ipv6 : All (λ ip. to4 ip ≡ none) c.ipv6
  pub most_ipv4 : length c.ipv4 ≤ 16
  pub most_ipv6 : length c.ipv6 ≤ 16

-- A lookup leaves sixteen addresses of each kind at most, and every address under its kind.
pub found_loop-IsSorted :
    (to4 : Bytes → Option Bytes) (ips : List Bytes) (c : CloakedName)
    → IsSorted to4 c
    → length c.ipv4 < 16
    → length c.ipv6 < 16
    → IsSorted to4 (found_loop to4 ips c)
unfolding found_loop
found_loop-IsSorted to4 [] c h h4 h6 = h
found_loop-IsSorted to4 (ip ∷ ips) c h h4 h6 = elim (Option-cases (to4 ip)) [
  | inr (ipv4, e) ↦
      let n = length-append c.ipv4 (ip ∷ []) in
      let c4 : CloakedName = record c { ipv4 = c.ipv4 ++ ip ∷ [] } in
      let h' : IsSorted to4 c4 = record {
        are_ipv4 =
            All-append (λ ip. is_some (to4 ip) ≡ true) c.ipv4 (ip ∷ []) (IsSorted.are_ipv4 h)
              (rw e refl, tt);
        are_ipv6 = IsSorted.are_ipv6 h;
        most_ipv4 = omega arith;
        most_ipv6 = IsSorted.most_ipv6 h;
      } in
      elim (Bool-cases (leb 16 (length (c.ipv4 ++ ip ∷ [])))) [
        | inl f ↦ rw (found_loop, e, f) h'
        | inr f ↦ rw (found_loop, e, f) (found_loop-IsSorted to4 ips c4 h' (ground arith) h6)
      ]
  | inl e ↦
      let n = length-append c.ipv6 (ip ∷ []) in
      let c6 : CloakedName = record c { ipv6 = c.ipv6 ++ ip ∷ [] } in
      let h' : IsSorted to4 c6 = record {
        are_ipv4 = IsSorted.are_ipv4 h;
        are_ipv6 = All-append (λ ip. to4 ip ≡ none) c.ipv6 (ip ∷ []) (IsSorted.are_ipv6 h) (e, tt);
        most_ipv4 = IsSorted.most_ipv4 h;
        most_ipv6 = omega arith;
      } in
      elim (Bool-cases (leb 16 (length (c.ipv6 ++ ip ∷ [])))) [
        | inl f ↦ rw (found_loop, e, f) h'
        | inr f ↦ rw (found_loop, e, f) (found_loop-IsSorted to4 ips c6 h' h4 (ground arith))
      ]
]

-- The key of an address's reverse name.
abbrev pub reverse_key : Addresses → Bytes → Bytes
reverse_key net ipv4 = ptr_entry_to_query (trim_suffix (net.reverse_addr ipv4) (codes "."))

module _ (net : Addresses) where
  open net use {parse_ip, to4}

  add_ptr_panics :
      (line : Bytes) (n : ℕ) (c : CloakedName) (store : Store)
      → c.ipv6 ≡ []
      → add_ptr net line n none c store ≡ none
  unfolding add_ptr ptr_line
  add_ptr_panics line n c store six = rw (add_ptr, ptr_line, six) refl

  add_ptr_ipv4 :
      (line : Bytes) (n : ℕ) (ip ipv4 : Bytes) (c : CloakedName) (store : Store)
      → to4 ip ≡ some ipv4
      → add_ptr net line n (some ip) c store
        ≡ some (
            set_entry
              (reverse_key net ipv4)
              (with_ptr line n (entry_at (reverse_key net ipv4) store))
              store)
  unfolding add_ptr ptr_line
  add_ptr_ipv4 line n ip ipv4 c store p4 = rw (add_ptr, ptr_line, p4) refl

  record_rule-add_ptr :
      (n : ℕ) (name : Bytes) (ip : Option Bytes) (c : CloakedName) (store : Store)
      → c.is_ip ≡ true
      → contains name (codes "*") ≡ false
      → record_rule net true n name ip c store ≡ add_ptr net name n ip c (set_entry name c store)
  unfolding record_rule
  record_rule-add_ptr n name ip c store e star = simp (record_rule, star, e) refl

  -- A rule for a name, of a name whose entry has IPv4 addresses only.
  cloak_line_panics :
      (n : ℕ) (name target : Bytes) (store : Store)
      → (entry_at name store).is_ip ≡ true
      → (entry_at name store).ipv6 ≡ []
      → parse_ip target ≡ none
      → contains name (codes "*") ≡ false
      → cloak_line net true n name target store ≡ none
  unfolding cloak_line rule_for with_target
  cloak_line_panics n name target store e six p star =
      let c : CloakedName = record (entry_at name store) { target = target; line_no = n } in
      subst (λ ip. rule_for net true n name target ip store ≡ none) (sym p)
        (record_rule-add_ptr n name none c store e star
          ∙ add_ptr_panics name n c (set_entry name c store) six)

  -- The entry of the first rule's name.
  OnlyIpv4 : Bytes → Option Store → Type 0
  OnlyIpv4 name r =
      (store : Store) × (r ≡ some store)
      × ((entry_at name store).is_ip ≡ true)
      × ((entry_at name store).ipv6 ≡ [])

  -- The entry after the rule for the address.
  abbrev after_ipv4 : ℕ → Bytes → CloakedName → CloakedName
  after_ipv4 n ipv4 c = record c { ipv4 = c.ipv4 ++ ipv4 ∷ []; is_ip = true; line_no = n }

  rule_for-record_rule :
      (n : ℕ) (name target ip ipv4 : Bytes) (store : Store)
      → to4 ip ≡ some ipv4
      → rule_for net true n name target (some ip) store
        ≡ record_rule net true n name (some ip) (after_ipv4 n ipv4 (entry_at name store)) store
  unfolding rule_for with_target
  rule_for-record_rule n name target ip ipv4 store p4 = rw (rule_for, with_target, p4) refl

  cloak_line-OnlyIpv4 :
      (n : ℕ) (name target ip ipv4 : Bytes) (store : Store)
      → (entry_at name store).ipv6 ≡ []
      → parse_ip target ≡ some ip
      → to4 ip ≡ some ipv4
      → contains name (codes "*") ≡ false
      → bytes_eq (reverse_key net ipv4) name ≡ false
      → OnlyIpv4 name (cloak_line net true n name target store)
  unfolding cloak_line OnlyIpv4
  cloak_line-OnlyIpv4 n name target ip ipv4 store six p p4 star d =
      let c : CloakedName = after_ipv4 n ipv4 (entry_at name store) in
      let before : Store = set_entry name c store in
      let k : Bytes = reverse_key net ipv4 in
      let added : CloakedName = with_ptr name n (entry_at k before) in
      let same : lookup_text name (set_entry k added before) ≡ some c =
        lookup-set_entry name k added before d ∙ lookup-set_entry_self name c store in
      let entry : Option CloakedName → CloakedName =
        λ o. elim o [ none ↦ new_cloaked_name | some c ↦ c ] in
      (
        set_entry k added before,
        subst (λ o. rule_for net true n name target o store ≡ some (set_entry k added before))
            (sym p)
            (rule_for-record_rule n name target ip ipv4 store p4
              ∙ (record_rule-add_ptr n name (some ip) c store refl star
                  ∙ add_ptr_ipv4 name n ip ipv4 c before p4)),
        ap (λ o. (entry o).is_ip) same,
        ap (λ o. (entry o).ipv6) same ∙ six,
      )

  -- With reverse names asked for, two lines in a row make loading panic wherever they stand in the
  -- file: a rule of a name for an IPv4 address, where no rule before gave the name an IPv6 address,
  -- and one of the same name for another name. The name has no star, and is not the rule of the
  -- address's reverse name.
  pub cloak_loop_panics :
      (n : ℕ) (raw raw' name target target' ip ipv4 : Bytes) (rest : List Bytes) (store : Store)
      → (entry_at name store).ipv6 ≡ []
      → cloak_rule (trim_and_strip_inline_comments raw) ≡ some (name, target)
      → cloak_rule (trim_and_strip_inline_comments raw') ≡ some (name, target')
      → parse_ip target ≡ some ip
      → to4 ip ≡ some ipv4
      → parse_ip target' ≡ none
      → contains name (codes "*") ≡ false
      → bytes_eq (reverse_key net ipv4) name ≡ false
      → cloak_loop net true n (raw ∷ raw' ∷ rest) store ≡ none
  unfolding cloak_loop OnlyIpv4
  cloak_loop_panics n raw raw' name target target' ip ipv4 rest store six r r' p p4 p' star d =
      let (store', e, is, six') =
        cloak_line-OnlyIpv4 (n + 1) name target ip ipv4 store six p p4 star d in
      let last = cloak_line_panics (n + 1 + 1) name target' store' is six' p' star in
      rw (cloak_loop, r, e, r', last) refl
