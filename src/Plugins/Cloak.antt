-- ===== src/Plugins/Cloak.antt =====
-- dnscrypt-proxy/plugin_cloak.go: names that are answered by addresses of the proxy's own. A rule of
-- the pattern matcher holds the key of an entry, and the entries are a store, since `Eval` changes
-- them. The package for addresses, the lookup of a name and the shuffling are arguments; the clock
-- is in nanoseconds. `none` is a panic.
pub mod Loading
pub mod Answers
mod Tests
use sourcegraph_testing_dnsc.Base.{
  Bool, Bytes, List, Option, [], bytes_eq, codes, contains, false, if◌then◌else◌, is_space, leb,
  length, ltb, map, none, not, some, to_lower, trim_prefix, trim_space, trim_suffix, true, ℕ, ◌%◌,
  ◌&&◌, ◌++◌, ◌+◌, ◌-◌, ◌/◌, ◌==◌, ◌^◌, ◌||◌, ◌∷◌,
}
use sourcegraph_testing_dnsc.Common.{trim_and_strip_inline_comments}
use sourcegraph_testing_dnsc.Dns.{
  DnsLib, Msg, Question, Rdata, Rr, a_rr, aaaa_rr, class_inet, ptr, type_a, type_aaaa, type_ptr,
}
use sourcegraph_testing_dnsc.Dns.Replies.{empty_response_from_message}
use sourcegraph_testing_dnsc.Patterns.{PatternMatcher, eval, lookup_text}
use sourcegraph_testing_dnsc.Patterns.Tries.{Trie}
use sourcegraph_testing_dnsc.Plugins.{
  Evaluated, Plugin, PluginsState, code_cloak, evaluated, synthesize,
}

pub record CloakedName : Type 0 where
  pub target : Bytes
  pub ipv4 : List Bytes
  pub ipv6 : List Bytes
  pub last_update : Option ℕ
  pub line_no : ℕ
  pub is_ip : Bool
  pub ptr_names : List Bytes

abbrev pub Store : Type 0
Store = List (Bytes × CloakedName)

abbrev pub new_cloaked_name : CloakedName
new_cloaked_name = record {
  target = [];
  ipv4 = [];
  ipv6 = [];
  last_update = none;
  line_no = 0;
  is_ip = false;
  ptr_names = [];
}

abbrev pub entry_at : Bytes → Store → CloakedName
entry_at k store = elim (lookup_text k store) [ none ↦ new_cloaked_name | some c ↦ c ]

unfoldable pub set_entry : Bytes → CloakedName → Store → Store
set_entry k c [] = (k, c) ∷ []
set_entry k c ((j, d) ∷ store) =
    let rest = set_entry k c store in if bytes_eq j k then (j, c) ∷ store else (j, d) ∷ rest

abbrev pub ptr_entry_to_query : Bytes → Bytes
ptr_entry_to_query ptr_entry = b'=' ∷ ptr_entry

abbrev pub ptr_name_to_fqdn : Bytes → Bytes
ptr_name_to_fqdn ptr_line = trim_prefix ptr_line (codes "=") ++ codes "."

-- `strings.FieldsFunc`, with the field that is read so far.
abbrev fields_loop : Bytes → Bytes → List Bytes
fields_loop cur [] = if length cur == 0 then [] else cur ∷ []
fields_loop cur (c ∷ s) = elim (is_space c) [
  | false ↦ fields_loop (cur ++ c ∷ []) s
  | true ↦ if length cur == 0 then fields_loop [] s else cur ∷ fields_loop [] s
]

abbrev pub fields : Bytes → List Bytes
fields s = fields_loop [] s

-- The name and the target of a line without its comment; `none` where the line is skipped.
unfoldable pub cloak_rule : Bytes → Option (Bytes × Bytes)
cloak_rule line = elim (fields line) [
  | [] ↦ none
  | name ∷ more ↦ elim more [
    | [] ↦ none
    | target ∷ rest ↦
        if not (length rest == 0)
        then none
        else if length (trim_space name) == 0 || length (trim_space target) == 0
        then none
        else some (to_lower (trim_space name), trim_space target)
  ]
]

-- What the code uses of the package for addresses: `ParseIP`, `To4`, `To16`, and `ReverseAddr` of an
-- address's text.
pub record Addresses : Type 0 where
  pub parse_ip : Bytes → Option Bytes
  pub to4 : Bytes → Option Bytes
  pub to16 : Bytes → Option Bytes
  pub reverse_addr : Bytes → Bytes

abbrev pub with_ptr : Bytes → ℕ → CloakedName → CloakedName
with_ptr line line_no c = record c {
  is_ip = true;
  ptr_names = c.ptr_names ++ ptr_name_to_fqdn line ∷ [];
  line_no = line_no;
}

module _ (net : Addresses) where
  open net use {parse_ip, to4, to16, reverse_addr}

  -- The entry with a rule's target; `none` where the line is skipped.
  unfoldable pub with_target : Bytes → Option Bytes → CloakedName → Option CloakedName
  with_target target none c = some (record c { target = target })
  with_target target (some ip) c = elim (to4 ip) [
    | some ipv4 ↦ some (record c { ipv4 = c.ipv4 ++ ipv4 ∷ []; is_ip = true })
    | none ↦ elim (to16 ip) [
      | some ipv6 ↦ some (record c { ipv6 = c.ipv6 ++ ipv6 ∷ []; is_ip = true })
      | none ↦ none
    ]
  ]

  abbrev to4_of : Option Bytes → Option Bytes
  to4_of none = none
  to4_of (some ip) = to4 ip

  -- The reverse name of the address, or of the entry's first IPv6 address.
  unfoldable pub ptr_line : Option Bytes → CloakedName → Option Bytes
  ptr_line ip c = elim (to4_of ip) [
    | some ipv4 ↦ some (trim_suffix (reverse_addr ipv4) (codes "."))
    | none ↦ elim c.ipv6 [
      | [] ↦ none
      | ipv6 ∷ rest ↦ some (trim_suffix (reverse_addr ipv6) (codes "."))
    ]
  ]

  unfoldable pub add_ptr : Bytes → ℕ → Option Bytes → CloakedName → Store → Option Store
  unfolding ptr_line set_entry
  add_ptr line line_no ip c store = elim (ptr_line ip c) [
    | none ↦ none
    | some reversed ↦
        let k = ptr_entry_to_query reversed in
        some (set_entry k (with_ptr line line_no (entry_at k store)) store)
  ]

  -- With the entry of a rule's name as the rule leaves it.
  unfoldable pub record_rule : Bool → ℕ → Bytes → Option Bytes → CloakedName → Store → Option Store
  unfolding add_ptr set_entry
  record_rule create_ptr line_no line ip c store =
      let store' = set_entry line c store in
      if not create_ptr || (contains line (codes "*") || not c.is_ip)
      then some store'
      else add_ptr line line_no ip c store'

  unfoldable pub rule_for : Bool → ℕ → Bytes → Bytes → Option Bytes → Store → Option Store
  unfolding with_target record_rule
  rule_for create_ptr line_no line target ip store =
      elim (with_target target ip (entry_at line store)) [
        | none ↦ some store
        | some c ↦ record_rule create_ptr line_no line ip (record c { line_no = line_no }) store
      ]

  -- One line that has a name and a target.
  unfoldable pub cloak_line : Bool → ℕ → Bytes → Bytes → Store → Option Store
  unfolding rule_for
  cloak_line create_ptr line_no line target store =
      rule_for create_ptr line_no line target (parse_ip target) store

  -- The loop of `Init` over the lines of the file.
  unfoldable pub cloak_loop : Bool → ℕ → List Bytes → Store → Option Store
  unfolding cloak_rule cloak_line
  cloak_loop create_ptr line_no [] store = some store
  cloak_loop create_ptr line_no (raw ∷ lines) store =
      elim (cloak_rule (trim_and_strip_inline_comments raw)) [
        | none ↦ cloak_loop create_ptr (line_no + 1) lines store
        | some (line, target) ↦ elim (cloak_line create_ptr (line_no + 1) line target store) [
          | none ↦ none
          | some store' ↦ cloak_loop create_ptr (line_no + 1) lines store'
        ]
      ]

-- The addresses of a lookup: the loop ends with the sixteenth of either kind.
unfoldable pub found_loop : (Bytes → Option Bytes) → List Bytes → CloakedName → CloakedName
found_loop to4 [] c = c
found_loop to4 (ip ∷ ips) c =
    let c4 : CloakedName = record c { ipv4 = c.ipv4 ++ ip ∷ [] } in
    let c6 : CloakedName = record c { ipv6 = c.ipv6 ++ ip ∷ [] } in
    elim (to4 ip) [
      | some ipv4 ↦ elim (leb 16 (length c4.ipv4)) [ true ↦ c4 | false ↦ found_loop to4 ips c4 ]
      | none ↦ elim (leb 16 (length c6.ipv6)) [ true ↦ c6 | false ↦ found_loop to4 ips c6 ]
    ]

-- The lifetime that is left, and whether it has ended.
unfoldable pub time_left : ℕ → ℕ → CloakedName → ℕ × Bool
time_left ttl now c = elim c.last_update [
  | none ↦ (ttl, false)
  | some last ↦
      let elapsed = (now - last) / 1000000000 % 2 ^ 32 in
      if ltb elapsed ttl then (ttl - elapsed, false) else (ttl, true)
]

unfoldable pub needs_lookup : Bool → CloakedName → Bool
needs_lookup expired c = not c.is_ip && ((length c.ipv4 == 0 && length c.ipv6 == 0) || expired)

abbrev pub cloaked_rr : Question → ℕ → ℕ → Rdata → Rr
cloaked_rr q rrtype ttl rdata = record {
  header = record { name = q.name; rrtype = rrtype; class = class_inet; ttl = ttl };
  rdata = rdata;
}

unfoldable pub cloaked_answer : Question → ℕ → CloakedName → List Rr
cloaked_answer q ttl c =
    if q.qtype == type_a
    then map (λ ip. cloaked_rr q type_a ttl (a_rr ip)) c.ipv4
    else if q.qtype == type_aaaa
    then map (λ ip. cloaked_rr q type_aaaa ttl (aaaa_rr ip)) c.ipv6
    else if q.qtype == type_ptr
    then map (λ name. cloaked_rr q type_ptr ttl (ptr name)) c.ptr_names
    else []

abbrev pub is_cloakable : Question → Bool
is_cloakable q =
    q.qclass == class_inet && (q.qtype == type_a || (q.qtype == type_aaaa || q.qtype == type_ptr))

module _ (lib : DnsLib) (to4 : Bytes → Option Bytes) (lookup_ip : Bytes → Option (List Bytes))
    (shuffle : List Rr → List Rr) (plugin_ttl : ℕ) where
  abbrev pub answer_cloaked :
      Question → ℕ → CloakedName → Store → PluginsState → Msg → Evaluated Store
  answer_cloaked q ttl c store st msg =
      evaluated store
        (synthesize
          (record (empty_response_from_message lib msg) {
            answer = shuffle (cloaked_answer q ttl c);
          })
          code_cloak st)
        msg

  -- With the entry of the name.
  unfoldable pub cloaked :
      ℕ → Question → Bytes → CloakedName → Store → PluginsState → Msg → Evaluated Store
  unfolding time_left needs_lookup found_loop cloaked_answer set_entry
  cloaked now q k c store st msg =
      let (ttl, expired) = time_left plugin_ttl now c in
      if not (needs_lookup expired c)
      then answer_cloaked q ttl c store st msg
      else elim (lookup_ip c.target) [
        | none ↦ evaluated store st msg
        | some ips ↦
            let c' =
              found_loop to4 ips (record c { last_update = some now; ipv4 = []; ipv6 = [] }) in
            answer_cloaked q ttl c' (set_entry k c' store) st msg
      ]

  unfoldable pub on_key : ℕ → Question → Option Bytes → Store → PluginsState → Msg → Evaluated Store
  unfolding cloaked
  on_key now q none store st msg = evaluated store st msg
  on_key now q (some k) store st msg = cloaked now q k (entry_at k store) store st msg

  -- `PluginCloak.Eval`.
  unfoldable pub cloak_eval :
      (t : Trie Bytes)
      → (Bytes → Bytes → Option Bool)
      → PatternMatcher Bytes (Trie.Tree t)
      → ℕ
      → Plugin Store
  unfolding on_key
  cloak_eval t glob_match m now store st msg = elim msg.question [
    | [] ↦ evaluated store st msg
    | q ∷ qs ↦
        if is_cloakable q
        then on_key now q (eval t glob_match m st.q_name).val store st msg
        else evaluated store st msg
  ]
