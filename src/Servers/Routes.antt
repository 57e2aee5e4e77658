-- ===== src/Servers/Routes.antt =====
-- serversInfo.go: the choice of a relay. The packages for stamps, addresses and URLs are arguments,
-- and so is the random draw; `none` is a panic, by a draw among no candidates.
use Prim.Native.Nat.{bit_xor}
use sourcegraph_testing_dnsc.Base.{
  Bool, Bytes, List, Option, Result, [], bytes_eq, codes, drop, err, false, get_elem?,
  if◌then◌else◌, invalid_relay, is_some, leb, length, ltb, negsuc, no_such_relay, no_valid_relay,
  none, not, ok, pos, relay_not_found, reverse, some, trim_left, true, ℕ, ◌&&◌, ◌++◌, ◌+◌, ◌==◌,
  ◌>>=◌, ◌||◌, ◌∷◌,
}
use sourcegraph_testing_dnsc.Common.{extract_host_and_port}
use sourcegraph_testing_dnsc.Servers.{
  Addr, RegisteredServer, Relay, ServerStamp, StampProto, Url, dnscrypt, dnscrypt_relay,
  dnscrypt_via, find_named, is_proto, odoh_relay, odoh_target, odoh_via,
}
use sourcegraph_testing_dnsc.Servers.Balancing.{intn}

pub record RouteEnv : Type 0 where
  pub new_server_stamp_from_string : Bytes → Option ServerStamp
  pub parse_ip : Bytes → Option Bytes
  pub to4 : Bytes → Option Bytes
  pub resolve_udp_addr : Bytes → Result Addr
  pub resolve_tcp_addr : Bytes → Result Addr
  pub path_escape : Bytes → Bytes
  pub parse_url : Bytes → Result Url
  pub add_target : Bytes → Bytes → Url → Url
  pub draw : ℕ → ℕ
  -- The routes of the configuration, and the servers that the proxy has read.
  pub routes : Option (List (Bytes × List Bytes))
  pub proxy_servers : List RegisteredServer

unfoldable pub relay_proto_for_server_proto : StampProto → Option StampProto
relay_proto_for_server_proto dnscrypt = some dnscrypt_relay
relay_proto_for_server_proto odoh_target = some odoh_relay
relay_proto_for_server_proto other = none

-- `bits.LeadingZeros8`.
abbrev leading_zeros8 : ℕ → ℕ
leading_zeros8 x =
    if x == 0
    then 8
    else if ltb x 2
    then 7
    else if ltb x 4
    then 6
    else if ltb x 8
    then 5
    else if ltb x 16
    then 4
    else if ltb x 32
    then 3
    else if ltb x 64
    then 2
    else if ltb x 128
    then 1
    else 0

unfoldable pub prefix_bits : Bytes → Bytes → ℕ
prefix_bits [] bs = 0
prefix_bits (a ∷ as') [] = 0
prefix_bits (a ∷ as') (b ∷ bs) = elim (bit_xor a b == 0) [
  | true ↦ 8 + prefix_bits as' bs
  | false ↦ leading_zeros8 (bit_xor a b)
]

pub lookup_route : Bytes → List (Bytes × List Bytes) → Option (List Bytes)
lookup_route name [] = none
lookup_route name ((key, relays) ∷ routes) =
    if bytes_eq key name then some relays else lookup_route name routes

abbrev pub star : Bytes
star = b'*' ∷ []

-- A route that is taken, with the host and the address that are then cached for good.
abbrev pub Routed : Type 0
Routed = Option (Result (Option Relay × Option (Bytes × Bytes)))

abbrev pub no_relay : Routed
no_relay = some (ok (none, none))

module _ (env : RouteEnv) where
  open env use {
    new_server_stamp_from_string, parse_ip, to4, resolve_udp_addr, resolve_tcp_addr, path_escape,
    parse_url, add_target, draw, routes, proxy_servers,
  }

  abbrev is_ipv6 : Bytes → Bool
  is_ipv6 ip = not (is_some (to4 ip))

  unfoldable pub same_family : Bytes → Bytes → Bool
  same_family a b = if is_ipv6 a then is_ipv6 b else not (is_ipv6 b)

  -- How many leading bits a relay's address shares with the server's; `none` for a relay that is
  -- skipped.
  unfoldable pub same_prefix_bits : Bytes → ServerStamp → Option ℕ
  unfolding same_family prefix_bits
  same_prefix_bits server_addr relay =
      let first_byte : ℕ = if is_ipv6 server_addr then 0 else 12 in
      if not (is_proto relay.proto dnscrypt_relay)
      then none
      else elim (parse_ip (extract_host_and_port relay.server_addr_str (pos 443)).0) [
        | none ↦ none
        | some relay_addr ↦
            if same_family relay_addr server_addr
            then some (prefix_bits (drop first_byte server_addr) (drop first_byte relay_addr))
            else none
      ]

  -- The loop over the relays from the index `at` on, with the best number of bits and the indices.
  unfoldable pub far_loop : Bytes → List ServerStamp → ℕ → ℕ → List ℕ → List ℕ
  unfolding same_prefix_bits
  far_loop server_addr [] at best idxs = idxs
  far_loop server_addr (relay ∷ relays) at best idxs = elim (same_prefix_bits server_addr relay) [
    | none ↦ far_loop server_addr relays (at + 1) best idxs
    | some bits ↦ elim (leb bits best) [
      | true ↦ far_loop server_addr relays (at + 1) bits (idxs ++ at ∷ [])
      | false ↦ far_loop server_addr relays (at + 1) best idxs
    ]
  ]

  unfoldable pub odoh_loop : List ServerStamp → ℕ → List ℕ
  odoh_loop [] at = []
  odoh_loop (relay ∷ relays) at =
      if is_proto relay.proto odoh_relay
      then at ∷ odoh_loop relays (at + 1)
      else odoh_loop relays (at + 1)

  -- `&relayStamps[idxs[rand.Intn(len(idxs))]]`.
  unfoldable pub pick_index : List ServerStamp → List ℕ → Option (Option ServerStamp)
  pick_index relays idxs = do
    i ← intn draw (length idxs)
    at ← get_elem? idxs i
    relay ← get_elem? relays at
    some (some relay)

  unfoldable pub find_farthest_route :
      List RegisteredServer
      → List RegisteredServer
      → Bytes
      → List ServerStamp
      → Option (Option ServerStamp)
  unfolding find_named odoh_loop far_loop pick_index
  find_farthest_route registered relays name relay_stamps =
      elim (find_named (λ (r : RegisteredServer). r.name) name registered) [
        | none ↦ some none
        | some server ↦
            if is_proto server.stamp.proto odoh_target
            then pick_index relay_stamps (odoh_loop relay_stamps 0)
            else if not (is_proto server.stamp.proto dnscrypt)
            then some none
            else elim (parse_ip (extract_host_and_port server.stamp.server_addr_str (pos 443)).0) [
              | none ↦ some none
              | some server_addr ↦
                  if length relays == 0
                  then some none
                  else pick_index relay_stamps (far_loop server_addr relay_stamps 0 128 [])
            ]
      ]

  -- The relays of one kind among those registered, and the first with a name.
  unfoldable pub relays_of : StampProto → List RegisteredServer → List ServerStamp
  relays_of proto [] = []
  relays_of proto (r ∷ rs) =
      if is_proto r.stamp.proto proto then r.stamp ∷ relays_of proto rs else relays_of proto rs

  unfoldable pub relay_named : StampProto → Bytes → List RegisteredServer → List ServerStamp
  relay_named proto name [] = []
  relay_named proto name (r ∷ rs) =
      if bytes_eq r.name name && is_proto r.stamp.proto proto
      then r.stamp ∷ []
      else relay_named proto name rs

  -- The loop over the names of relays: the stamps that it finds, and whether it met a `*`.
  unfoldable pub relay_loop :
      StampProto → List RegisteredServer → List Bytes → List ServerStamp × Bool
  unfolding relays_of relay_named
  relay_loop proto relays [] = ([], false)
  relay_loop proto relays (name ∷ names) =
      let (stamps, wildcard) = relay_loop proto relays names in
      elim (new_server_stamp_from_string name) [
        | some stamp ↦
            if is_proto stamp.proto proto then (stamp ∷ stamps, wildcard) else (stamps, wildcard)
        | none ↦
            if bytes_eq name star
            then (relays_of proto relays, true)
            else (relay_named proto name relays ++ stamps, wildcard)
      ]

  -- The relays of a server's route, and whether the route is the one of `*`.
  relays_for : Bytes → List (Bytes × List Bytes) → Option (List Bytes) × Bool
  unfolding lookup_route
  relays_for name table = elim (lookup_route name table) [
    | some names ↦ (some names, false)
    | none ↦ (lookup_route star table, true)
  ]

  unfoldable pub dnscrypt_relay_of : ServerStamp → Result (Option Relay × Option (Bytes × Bytes))
  dnscrypt_relay_of candidate = elim (resolve_udp_addr candidate.server_addr_str) [
    | err e ↦ err e
    | ok udp_addr ↦ elim (resolve_tcp_addr candidate.server_addr_str) [
      | err e ↦ err e
      | ok tcp_addr ↦ ok (some (dnscrypt_via udp_addr tcp_addr), none)
    ]
  ]

  -- `ParseIP` of xtransport.go: an address may stand in brackets.
  unfoldable pub parse_bracketed_ip : Bytes → Option Bytes
  parse_bracketed_ip ip_str =
      parse_ip (reverse (trim_left (λ c. c == b']') (reverse (trim_left (λ c. c == b'[') ip_str))))

  unfoldable pub cached_host : ServerStamp → Option (Bytes × Bytes)
  cached_host stamp =
      if length stamp.server_addr_str == 0
      then none
      else elim (parse_bracketed_ip (extract_host_and_port stamp.server_addr_str (negsuc 0)).0) [
        | none ↦ none
        | some ip ↦ some ((extract_host_and_port stamp.provider_name (negsuc 0)).0, ip)
      ]

  -- The target among the servers that the proxy has read.
  unfoldable pub target_of : Bytes → List RegisteredServer → Option ServerStamp
  target_of name [] = none
  target_of name (r ∷ rs) =
      if not (bytes_eq r.name name) || not (is_proto r.stamp.proto odoh_target)
      then target_of name rs
      else some r.stamp

  unfoldable pub odoh_relay_of :
      Bytes → ServerStamp → Result (Option Relay × Option (Bytes × Bytes))
  unfolding cached_host target_of
  odoh_relay_of name candidate =
      elim (parse_url (codes "https://" ++ path_escape candidate.provider_name ++ candidate.path)) [
        | err e ↦ err e
        | ok base ↦ elim (target_of name proxy_servers) [
          | none ↦ err relay_not_found
          | some target ↦ ok (
            some (odoh_via (add_target target.provider_name target.path base)),
            cached_host candidate,
          )
        ]
      ]

  unfoldable pub relay_of : Bytes → ServerStamp → Result (Option Relay × Option (Bytes × Bytes))
  unfolding dnscrypt_relay_of odoh_relay_of
  relay_of name candidate =
      if is_proto candidate.proto dnscrypt || is_proto candidate.proto dnscrypt_relay
      then dnscrypt_relay_of candidate
      else if is_proto candidate.proto odoh_relay
      then odoh_relay_of name candidate
      else err invalid_relay

  unfoldable pub candidate_of :
      List RegisteredServer
      → List RegisteredServer
      → Bytes
      → List ServerStamp
      → Bool
      → Option (Option ServerStamp)
  unfolding find_farthest_route
  candidate_of registered relays name stamps wildcard =
      if not wildcard || length stamps == 1
      then (do i ← intn draw (length stamps); relay ← get_elem? stamps i; some (some relay))
      else find_farthest_route registered relays name stamps

  unfoldable pub through :
      List RegisteredServer
      → List RegisteredServer
      → Bytes
      → StampProto
      → List Bytes
      → Bool
      → Routed
  through registered relays name relay_proto names wildcard =
      let found = relay_loop relay_proto relays names in
      if length found.0 == 0
      then some (err no_such_relay)
      else elim (candidate_of registered relays name found.0 (wildcard || found.1)) [
        | none ↦ none
        | some none ↦ some (err no_valid_relay)
        | some (some candidate) ↦ some (relay_of name candidate)
      ]

  -- The names of the relays that a server is configured with, unless there are none.
  unfoldable pub configured : Bytes → Option (List Bytes × Bool)
  unfolding relays_for
  configured name = elim routes [
    | none ↦ none
    | some table ↦
        let found = relays_for name table in
        elim found.0 [
          | none ↦ none
          | some [] ↦ none
          | some (relay ∷ relays) ↦ some (relay ∷ relays, found.1)
        ]
  ]

  unfoldable pub route : List RegisteredServer → List RegisteredServer → Bytes → StampProto → Routed
  unfolding configured relay_proto_for_server_proto through
  route registered relays name server_proto = elim (configured name) [
    | none ↦ no_relay
    | some (names, wildcard) ↦ elim (relay_proto_for_server_proto server_proto) [
      | none ↦ no_relay
      | some relay_proto ↦ through registered relays name relay_proto names wildcard
    ]
  ]
