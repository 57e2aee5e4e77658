-- ===== src/Plugins/Ecs.antt =====
-- dnscrypt-proxy/plugin_ecs.go: the subnet of the client that outgoing queries name. The random
-- choice is an argument, and so is the packing of the option; `none` is a panic, by a draw among
-- no networks.
pub mod Once
mod Tests
use sourcegraph_testing_dnsc.Base.{
  Bool, Bytes, List, Option, [], any, false, get_elem?, if◌then◌else◌, none, some, true, ℕ, ◌%◌,
  ◌++◌, ◌==◌, ◌^◌, ◌∷◌,
}
use sourcegraph_testing_dnsc.Dns.{DnsLib, EdnsOption, Msg, Rr, opt, type_opt}
use sourcegraph_testing_dnsc.Plugins.{Evaluated, PluginsState, evaluated}

-- `net.IPNet`, with the two sizes of its mask.
pub record Subnet : Type 0 where
  pub address : Bytes
  pub bits : ℕ
  pub total_size : ℕ

-- The code of `dns.EDNS0SUBNET`.
abbrev pub edns0_subnet : ℕ
edns0_subnet = 8

abbrev pub is_subnet : EdnsOption → Bool
is_subnet o = o.code == edns0_subnet

-- The options of an OPT record.
unfoldable pub options_of : Rr → Option (List EdnsOption)
options_of rr =
    if rr.header.rrtype == type_opt
    then elim rr.rdata [ opt options ↦ some options | _ ↦ some [] ]
    else none

-- Those of the first OPT record.
unfoldable pub find_options : List Rr → Option (List EdnsOption)
unfolding options_of
find_options [] = none
find_options (rr ∷ rrs) = elim (options_of rr) [
  | some options ↦ some options
  | none ↦ find_options rrs
]

-- `*options = append(*options, &prr)`, on the first OPT record.
unfoldable pub append_option : EdnsOption → List Rr → List Rr
unfolding options_of
append_option o [] = []
append_option o (rr ∷ rrs) = elim (options_of rr) [
  | some options ↦ record rr { rdata = opt (options ++ o ∷ []) } ∷ rrs
  | none ↦ rr ∷ append_option o rrs
]

unfoldable pub family : ℕ → Option ℕ
family total_size = if total_size == 32 then some 1 else if total_size == 128 then some 2 else none

-- The family, the two lengths and the address, packed.
abbrev pub SubnetPacking : Type 0
SubnetPacking = ℕ → ℕ → ℕ → Bytes → Bytes

module _ (lib : DnsLib) (packing : SubnetPacking) (nets : List Subnet) where
  unfoldable pub with_subnet : ℕ → Msg → Option Msg
  unfolding family append_option
  with_subnet drawn msg = elim (get_elem? nets drawn) [
    | none ↦ none
    | some net ↦ elim (family net.total_size) [
      | none ↦ some msg
      | some f ↦
          let o : EdnsOption = record {
            code = edns0_subnet;
            payload = packing f (net.bits % 256) 0 net.address;
          } in
          some (record msg { extra = append_option o msg.extra })
    ]
  ]

  -- An OPT record is made where there is none.
  unfoldable pub renewed : ℕ → Msg → Msg
  renewed max_payload_size msg = DnsLib.set_edns0 lib (max_payload_size % 2 ^ 16) false msg

  unfoldable pub ecs_msg : ℕ → ℕ → Msg → Option Msg
  unfolding find_options with_subnet renewed
  ecs_msg max_payload_size drawn msg = elim (find_options msg.extra) [
    | some options ↦ elim (any is_subnet options) [
      | true ↦ some msg
      | false ↦ with_subnet drawn msg
    ]
    | none ↦
        let msg' = renewed max_payload_size msg in
        elim (find_options msg'.extra) [ none ↦ some msg' | some options ↦ with_subnet drawn msg' ]
  ]

  -- `PluginECS.Eval`.
  unfoldable pub ecs_eval : {W : Type 0} → ℕ → W → PluginsState → Msg → Option (Evaluated W)
  unfolding ecs_msg
  ecs_eval drawn w st msg = elim (ecs_msg st.max_payload_size drawn msg) [
    | none ↦ none
    | some msg' ↦ some (evaluated w st msg')
  ]
