-- ===== src/Plugins/Cloak/Answers.antt =====
-- plugin_cloak.go: what `Eval` answers, and what it does to the entries.
use mathlib.Core.Path.{subst}
use sourcegraph_testing_dnsc.Base.{
  All, Any, Bool-cases, Bytes, List, Option, [], ap, bytes_eq, bytes_eq_refl, bytes_eq→eq, false,
  if◌then◌else◌, inl, inr, refl, some, sym, ℕ, ◌∷◌, ◌≡◌, ◌≤◌, ◌⊎◌,
}
use sourcegraph_testing_dnsc.Dns.{
  DnsLib, Msg, Question, Rdata, Rr, a_rr, aaaa_rr, ptr, type_a, type_aaaa, type_ptr,
}
use sourcegraph_testing_dnsc.Patterns.{lookup_text}
use sourcegraph_testing_dnsc.Plugins.Cloak.{
  CloakedName, Store, entry_at, found_loop, needs_lookup, set_entry, time_left,
}
use sourcegraph_testing_dnsc.Plugins.{Evaluated, PluginsState, code_cloak, evaluated}

-- `rand.Shuffle` keeps what holds of each record.
abbrev pub IsShuffle : (List Rr → List Rr) → Type 1
IsShuffle shuffle = (P : Rr → Type 0) (rrs : List Rr) → All P rrs → All P (shuffle rrs)

-- The data of a record: an address of the entry of the question's family, or one of its names.
abbrev pub IsEntryData : Question → CloakedName → Rdata → Type 0
IsEntryData q c rdata =
    ((q.qtype ≡ type_a) × Any (λ ip. rdata ≡ a_rr ip) c.ipv4)
    ⊎ (((q.qtype ≡ type_aaaa) × Any (λ ip. rdata ≡ aaaa_rr ip) c.ipv6)
        ⊎ ((q.qtype ≡ type_ptr) × Any (λ name. rdata ≡ ptr name) c.ptr_names))

-- A record for the question, with data of the entry and a lifetime of at most `ttl`.
pub record IsCloakedRr (q : Question) (ttl : ℕ) (c : CloakedName) (rr : Rr) : Type 0 where
  pub same_name : rr.header.name ≡ q.name
  pub same_type : rr.header.rrtype ≡ q.qtype
  pub within : rr.header.ttl ≤ ttl
  pub of_entry : IsEntryData q c rr.rdata

-- Writing an entry leaves the others.
pub lookup-set_entry :
    (j k : Bytes) (c : CloakedName) (store : Store)
    → bytes_eq k j ≡ false
    → lookup_text j (set_entry k c store) ≡ lookup_text j store
unfolding set_entry
lookup-set_entry j k c [] h = rw h refl
lookup-set_entry j k c ((i, d) ∷ store) h = elim (Bool-cases (bytes_eq i k)) [
  | inl e ↦
      let same : bytes_eq i j ≡ false =
        subst (λ x. bytes_eq x j ≡ false) (sym (bytes_eq→eq i k e)) h in
      rw (set_entry, e, same) refl
  | inr e ↦
      rw (set_entry, e)
        (ap (λ r. if bytes_eq i j then some d else r) (lookup-set_entry j k c store h))
]

pub lookup-set_entry_self :
    (k : Bytes) (c : CloakedName) (store : Store) → lookup_text k (set_entry k c store) ≡ some c
unfolding set_entry
lookup-set_entry_self k c [] = rw (bytes_eq_refl k) refl
lookup-set_entry_self k c ((i, d) ∷ store) = elim (Bool-cases (bytes_eq i k)) [
  | inl e ↦ rw (set_entry, e, e) refl
  | inr e ↦ rw (set_entry, e, e) (lookup-set_entry_self k c store)
]

module _ (to4 : Bytes → Option Bytes) (lookup_ip : Bytes → Option (List Bytes)) (plugin_ttl : ℕ)
    (now : ℕ) where
  -- The entry of the key as it answers: as it stands in the store, where it needs no lookup, or with
  -- the addresses that its target was looked up to, which are then stored.
  pub data IsCurrent (k : Bytes) (store : Store) : CloakedName → Store → Type 0 where
    kept :
        needs_lookup (time_left plugin_ttl now (entry_at k store)).1 (entry_at k store) ≡ false
        → IsCurrent k store (entry_at k store) store
    looked_up :
        (ips : List Bytes) (c : CloakedName)
        → lookup_ip (entry_at k store).target ≡ some ips
        → c
          ≡ found_loop to4 ips
              (record (entry_at k store) { last_update = some now; ipv4 = []; ipv6 = [] })
        → IsCurrent k store c (set_entry k c store)

  -- A response for the question, of records of the entry that the name's rule holds.
  abbrev pub AnswersCloaked : Question → Option Bytes → Store → Evaluated Store → Type 0
  AnswersCloaked q key store out =
      (k : Bytes) × (c : CloakedName) × (synth : Msg) × (key ≡ some k)
      × IsCurrent k store c out.world
      × (out.state.synth_response ≡ some synth)
      × (out.state.return_code ≡ code_cloak)
      × All (IsCloakedRr q plugin_ttl c) synth.answer

module _ (lib : DnsLib) (to4 : Bytes → Option Bytes) (lookup_ip : Bytes → Option (List Bytes))
    (shuffle : List Rr → List Rr) (law : IsShuffle shuffle) (plugin_ttl : ℕ) where
  Cloaks : ℕ → Question → Option Bytes → Store → PluginsState → Msg → Evaluated Store → Type 0
  Cloaks now q key store st msg out =
      (out ≡ evaluated store st msg) ⊎ AnswersCloaked to4 lookup_ip plugin_ttl now q key store out
