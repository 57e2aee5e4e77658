-- ===== src/Plugins/Ecs/Once.antt =====
-- plugin_ecs.go: a query names one subnet.
use sourcegraph_testing_dnsc.Base.{
  All, All-get_elem?, Bool, Bool-cases, List, Option, Option-cases, [], any, false, get_elem?_lt,
  inl, inr, length, none, refl, some, true, ℕ, ◌%◌, ◌++◌, ◌<◌, ◌==◌, ◌^◌, ◌∷◌, ◌≡◌, ◌⊎◌,
}
use sourcegraph_testing_dnsc.Dns.{DnsLib, EdnsOption, Msg, Rr, opt, type_opt}
use sourcegraph_testing_dnsc.Plugins.Ecs.{
  Subnet, SubnetPacking, append_option, ecs_eval, ecs_msg, edns0_subnet, family, find_options,
  is_subnet, options_of, renewed, with_subnet,
}
use sourcegraph_testing_dnsc.Plugins.{PluginsState, evaluated}

-- The first OPT record has a subnet.
abbrev pub NamesSubnet : List Rr → Type 0
NamesSubnet extra =
    (options : List EdnsOption) × (find_options extra ≡ some options)
    × (any is_subnet options ≡ true)

any-append :
    (o : EdnsOption) (options : List EdnsOption)
    → is_subnet o ≡ true
    → any is_subnet (options ++ o ∷ []) ≡ true
any-append o [] h = rw h refl
any-append o (p ∷ options) h = elim (Bool-cases (is_subnet p)) [
  | inl e ↦ rw e refl
  | inr e ↦ rw e (any-append o options h)
]

options_of-opt :
    (rr : Rr) (options : List EdnsOption)
    → (rr.header.rrtype == type_opt) ≡ true
    → options_of (record rr { rdata = opt options }) ≡ some options
unfolding options_of
options_of-opt rr options h = rw (options_of, h) refl

-- What `options_of` finds, and that the record is an OPT record then.
options_of_cases :
    (rr : Rr)
    → (options_of rr ≡ none)
      ⊎ ((options : List EdnsOption) × (options_of rr ≡ some options)
          × ((rr.header.rrtype == type_opt) ≡ true))
unfolding options_of
options_of_cases rr = elim (Bool-cases (rr.header.rrtype == type_opt)) [
  | inr e ↦ inl (rw (options_of, e) refl)
  | inl e ↦ elim (Option-cases (options_of rr)) [
    | inl f ↦ inl f
    | inr (options, f) ↦ inr (options, f, e)
  ]
]

append_option-NamesSubnet :
    (o : EdnsOption) (extra : List Rr) (options : List EdnsOption)
    → is_subnet o ≡ true
    → find_options extra ≡ some options
    → NamesSubnet (append_option o extra)
unfolding append_option find_options
append_option-NamesSubnet o [] options h e = absurd (cc)
append_option-NamesSubnet o (rr ∷ rrs) options h e = elim (options_of_cases rr) [
  | inr (here, f, is) ↦
      let found = options_of-opt rr (here ++ o ∷ []) is in
      rw (append_option, f, find_options, found) (here ++ o ∷ [], refl, any-append o here h)
  | inl f ↦
      let rest = append_option-NamesSubnet o rrs options h (rw (find_options, f) at e) in
      rw (append_option, f, find_options, f) rest
]

-- `SetEdns0` leaves an OPT record.
abbrev pub MakesOpt : DnsLib → Type 0
MakesOpt lib =
    (size : ℕ) (d : Bool) (msg : Msg)
    → (options : List EdnsOption) × (find_options (DnsLib.set_edns0 lib size d msg).extra
        ≡ some options)

-- The mask of an IPv4 or IPv6 network.
abbrev pub IsSized : Subnet → Type 0
IsSized net = (f : ℕ) × (family net.total_size ≡ some f)

module _ (lib : DnsLib) (packing : SubnetPacking) (nets : List Subnet) (law : MakesOpt lib)
    (sized : All IsSized nets) where
  Named : Option Msg → Type 0
  Named r = (msg : Msg) × (r ≡ some msg) × NamesSubnet msg.extra

  with_subnet-Named :
      (drawn : ℕ) (msg : Msg) (options : List EdnsOption)
      → drawn < length nets
      → find_options msg.extra ≡ some options
      → Named (with_subnet lib packing nets drawn msg)
  unfolding Named with_subnet
  with_subnet-Named drawn msg options h e =
      let (net, g) = get_elem?_lt nets drawn h in
      let (f, k) = All-get_elem? IsSized nets drawn net sized g in
      let o : EdnsOption = record {
        code = edns0_subnet;
        payload = packing f (net.bits % 256) 0 net.address;
      } in
      rw (with_subnet, g, k) (_, refl, append_option-NamesSubnet o msg.extra options refl e)

  ecs_msg-Named :
      (size drawn : ℕ) (msg : Msg)
      → drawn < length nets
      → Named (ecs_msg lib packing nets size drawn msg)
  unfolding Named ecs_msg renewed
  ecs_msg-Named size drawn msg h = elim (Option-cases (find_options msg.extra)) [
    | inr (options, e) ↦ elim (Bool-cases (any is_subnet options)) [
      | inl f ↦ simp (ecs_msg, e, f) (msg, refl, (options, e, f))
      | inr f ↦ simp (ecs_msg, e, f) (with_subnet-Named drawn msg options h e)
    ]
    | inl e ↦
        let made : Msg = DnsLib.set_edns0 lib (size % 2 ^ 16) false msg in
        let (options, f) = law (size % 2 ^ 16) false msg in
        simp (ecs_msg, e, f) (with_subnet-Named drawn made options h f)
  ]

  ecs_msg_kept :
      (size drawn : ℕ) (msg : Msg)
      → NamesSubnet msg.extra
      → ecs_msg lib packing nets size drawn msg ≡ some msg
  unfolding ecs_msg
  ecs_msg_kept size drawn msg (options, e, f) = simp (ecs_msg, e, f) refl

  -- With networks of either family and an OPT record where `SetEdns0` is called, a query that the
  -- plugin has seen names a subnet, and the plugin leaves it as it is from then on, whatever is
  -- drawn.
  pub ecs_eval_once :
      {W : Type 0} (drawn : ℕ) (w : W) (st : PluginsState) (msg : Msg)
      → drawn < length nets
      → (msg' : Msg) × (ecs_eval lib packing nets drawn w st msg ≡ some (evaluated w st msg'))
        × NamesSubnet msg'.extra
        × ((drawn' : ℕ) (st' : PluginsState)
            → ecs_eval lib packing nets drawn' w st' msg' ≡ some (evaluated w st' msg'))
  unfolding ecs_eval Named
  ecs_eval_once drawn w st msg h =
      let (msg', e, named) = ecs_msg-Named st.max_payload_size drawn msg h in
      (
        msg',
        rw (ecs_eval, e) refl,
        named,
        λ drawn' st'. simp (ecs_eval, ecs_msg_kept st'.max_payload_size drawn' msg' named) refl,
      )
