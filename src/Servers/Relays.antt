-- ===== src/Servers/Relays.antt =====
-- serversInfo.go: which relay a server gets.
use mathlib.Core.Path.{subst}
use sourcegraph_testing_dnsc.Base.{
  All, All-append, All-get_elem?, Bool, Bool-cases, Bytes, List, Option, Option-cases, Result-cases,
  [], append-nil, append_assoc, arith, bytes_eq, codes, err, false, get_elem?, inl, inr, leb,
  length, no_valid_relay, none, not, ok, pos, some, sym, true, ℕ, ◌&&◌, ◌++◌, ◌+◌, ◌==◌, ◌>>=◌,
  ◌||◌, ◌∙◌, ◌∷◌, ◌≡◌, ◌≤◌, ◌⊎◌,
}
use sourcegraph_testing_dnsc.Servers.{
  RegisteredServer, Relay, ServerStamp, StampProto, dnscrypt, dnscrypt_relay, dnscrypt_via, doh,
  doq, find_named, is_proto, odoh_relay, odoh_target, odoh_via, plain, proto_code, tls,
}
use sourcegraph_testing_dnsc.Common.{extract_host_and_port}
use sourcegraph_testing_dnsc.Servers.Routes.{
  RouteEnv, Routed, candidate_of, configured, dnscrypt_relay_of, far_loop, find_farthest_route,
  no_relay, odoh_loop, odoh_relay_of, pick_index, relay_loop, relay_named, relay_of,
  relay_proto_for_server_proto, relays_of, route, same_prefix_bits, star, target_of, through,
}

-- The kind of relay that fits a server.
abbrev pub Fits : StampProto → Relay → Type 0
Fits dnscrypt (dnscrypt_via udp_addr tcp_addr) = Unit {0}
Fits odoh_target (odoh_via url) = Unit {0}
Fits other relay = ⊥

-- A panic, an error or a relay that fits: never a way without a relay.
abbrev pub IsAnonymous : StampProto → Routed → Type 0
IsAnonymous proto none = Unit {0}
IsAnonymous proto (some (err e)) = Unit {0}
IsAnonymous proto (some (ok (none, cached))) = ⊥
IsAnonymous proto (some (ok (some relay, cached))) = Fits proto relay

module _ (env : RouteEnv) where
  open env use {new_server_stamp_from_string, draw, parse_ip}

  abbrev HasProto : StampProto → ServerStamp → Type 0
  HasProto proto s = is_proto s.proto proto ≡ true

  relays_of-HasProto :
      (proto : StampProto) (rs : List RegisteredServer)
      → All (HasProto proto) (relays_of env proto rs)
  unfolding relays_of
  relays_of-HasProto proto [] = tt
  relays_of-HasProto proto (r ∷ rs) = elim (Bool-cases (is_proto r.stamp.proto proto)) [
    | inl e ↦ rw e (e, relays_of-HasProto proto rs)
    | inr e ↦ rw e (relays_of-HasProto proto rs)
  ]

  relay_named-HasProto :
      (proto : StampProto) (name : Bytes) (rs : List RegisteredServer)
      → All (HasProto proto) (relay_named env proto name rs)
  unfolding relay_named
  relay_named-HasProto proto name [] = tt
  relay_named-HasProto proto name (r ∷ rs) =
      elim (Bool-cases (bytes_eq r.name name && is_proto r.stamp.proto proto)) [
        | inl e ↦ rw e ((and_right (bytes_eq r.name name) (is_proto r.stamp.proto proto) e), tt)
        | inr e ↦ rw e (relay_named-HasProto proto name rs)
      ]
    where
      and_right : (a b : Bool) → (a && b) ≡ true → b ≡ true
      and_right a b h = ground arith

  relay_loop-HasProto :
      (proto : StampProto) (relays : List RegisteredServer) (names : List Bytes)
      → All (HasProto proto) (relay_loop env proto relays names).0
  unfolding relay_loop
  relay_loop-HasProto proto relays [] = tt
  relay_loop-HasProto proto relays (name ∷ names) =
      elim (Option-cases (new_server_stamp_from_string name)) [
        | inr (stamp, e) ↦ elim (Bool-cases (is_proto stamp.proto proto)) [
          | inl f ↦ rw (relay_loop, e, f) (f, relay_loop-HasProto proto relays names)
          | inr f ↦ rw (relay_loop, e, f) (relay_loop-HasProto proto relays names)
        ]
        | inl e ↦ elim (Bool-cases (bytes_eq name star)) [
          | inl f ↦ rw (relay_loop, e, f) (relays_of-HasProto proto relays)
          | inr f ↦
              rw (relay_loop, e, f)
                (All-append _ (relay_named env proto name relays) _
                  (relay_named-HasProto proto name relays) (relay_loop-HasProto proto relays names))
        ]
      ]

  abbrev Picks : (ServerStamp → Type 0) → Option (Option ServerStamp) → Type 0
  Picks P none = Unit {0}
  Picks P (some none) = Unit {0}
  Picks P (some (some s)) = P s

  get_elem?-Picks :
      (P : ServerStamp → Type 0) (relays : List ServerStamp) (at : ℕ)
      → All P relays
      → Picks P (get_elem? relays at >>= λ relay. some (some relay))
  get_elem?-Picks P relays at h = elim (Option-cases (get_elem? relays at)) [
    | inl e ↦ rw (e, ◌>>=◌) tt
    | inr (s, e) ↦ rw (e, ◌>>=◌) (All-get_elem? P relays at s h e)
  ]

  pick_index-Picks :
      (P : ServerStamp → Type 0) (relays : List ServerStamp) (idxs : List ℕ)
      → All P relays
      → Picks P (pick_index env relays idxs)
  unfolding pick_index
  pick_index-Picks P relays idxs h = elim (Bool-cases (length idxs == 0)) [
    | inl e ↦ rw (pick_index, e) tt
    | inr e ↦ elim (Option-cases (get_elem? idxs (draw (length idxs)))) [
      | inl f ↦ rw (pick_index, e, f, ◌>>=◌) tt
      | inr (at, f) ↦ rw (pick_index, e, f, ◌>>=◌) (get_elem?-Picks P relays at h)
    ]
  ]

  far-Picks :
      (P : ServerStamp → Type 0) (registered relays : List RegisteredServer) (name : Bytes)
      (stamps : List ServerStamp)
      → All P stamps
      → Picks P (find_farthest_route env registered relays name stamps)
  unfolding find_farthest_route
  far-Picks P registered relays name stamps h =
      elim (Option-cases (find_named (λ (r : RegisteredServer). r.name) name registered)) [
        | inl e ↦ rw (find_farthest_route, e) tt
        | inr (server, e) ↦ elim (Bool-cases (is_proto server.stamp.proto odoh_target)) [
          | inl f ↦
              rw (find_farthest_route, e, f) (pick_index-Picks P stamps (odoh_loop env stamps 0) h)
          | inr f ↦ elim (Bool-cases (is_proto server.stamp.proto dnscrypt)) [
            | inr g ↦ rw (find_farthest_route, e, f, g) tt
            | inl g ↦
                elim (Option-cases
                  (parse_ip (extract_host_and_port server.stamp.server_addr_str (pos 443)).0)) [
                    | inl k ↦ rw (find_farthest_route, e, f, g, k) tt
                    | inr (ip, k) ↦ elim (Bool-cases (length relays == 0)) [
                      | inl l ↦ rw (find_farthest_route, e, f, g, k, l) tt
                      | inr l ↦
                          rw (find_farthest_route, e, f, g, k, l)
                            (pick_index-Picks P stamps (far_loop env ip stamps 0 128 []) h)
                    ]
                  ]
          ]
        ]
      ]

  candidate-Picks :
      (P : ServerStamp → Type 0) (registered relays : List RegisteredServer) (name : Bytes)
      (stamps : List ServerStamp) (wildcard : Bool)
      → All P stamps
      → Picks P (candidate_of env registered relays name stamps wildcard)
  unfolding candidate_of
  candidate-Picks P registered relays name stamps wildcard h =
      elim (Bool-cases (not wildcard || length stamps == 1)) [
        | inr e ↦ rw (candidate_of, e) (far-Picks P registered relays name stamps h)
        | inl e ↦ elim (Bool-cases (length stamps == 0)) [
          | inl f ↦ rw (candidate_of, e, f, ◌>>=◌) tt
          | inr f ↦
              rw (candidate_of, e, f, ◌>>=◌) (get_elem?-Picks P stamps (draw (length stamps)) h)
        ]
      ]

  dnscrypt_relay_of-IsAnonymous :
      (c : ServerStamp) → IsAnonymous dnscrypt (some (dnscrypt_relay_of env c))
  unfolding dnscrypt_relay_of
  dnscrypt_relay_of-IsAnonymous c = elim (Result-cases (env.resolve_udp_addr c.server_addr_str)) [
    | inr (e, h) ↦ rw (dnscrypt_relay_of, h) tt
    | inl (u, h) ↦ elim (Result-cases (env.resolve_tcp_addr c.server_addr_str)) [
      | inr (e, k) ↦ rw (dnscrypt_relay_of, h, k) tt
      | inl (t, k) ↦ rw (dnscrypt_relay_of, h, k) tt
    ]
  ]

  odoh_relay_of-IsAnonymous :
      (name : Bytes) (c : ServerStamp) → IsAnonymous odoh_target (some (odoh_relay_of env name c))
  unfolding odoh_relay_of
  odoh_relay_of-IsAnonymous name c =
      elim (Result-cases
        (env.parse_url (codes "https://" ++ env.path_escape c.provider_name ++ c.path))) [
          | inr (e, h) ↦ rw (odoh_relay_of, h) tt
          | inl (base, h) ↦ elim (Option-cases (target_of env name env.proxy_servers)) [
            | inl k ↦ rw (odoh_relay_of, h, k) tt
            | inr (target, k) ↦ rw (odoh_relay_of, h, k) tt
          ]
        ]

  relay_of-IsAnonymous :
      (server_proto relay_proto : StampProto) (name : Bytes) (c : ServerStamp)
      → relay_proto_for_server_proto server_proto ≡ some relay_proto
      → HasProto relay_proto c
      → IsAnonymous server_proto (some (relay_of env name c))
  unfolding relay_of relay_proto_for_server_proto
  relay_of-IsAnonymous dnscrypt relay_proto name c e h =
      let h' : is_proto c.proto dnscrypt_relay ≡ true =
        subst (λ p. is_proto c.proto p ≡ true) (some_eq e) h in
      rw (or_right (is_proto c.proto dnscrypt) (is_proto c.proto dnscrypt_relay) h')
        (dnscrypt_relay_of-IsAnonymous c)
    where
      some_eq : {p q : StampProto} → some p ≡ some q → q ≡ p
      some_eq e = cc

      or_right : (a b : Bool) → b ≡ true → (a || b) ≡ true
      or_right a b h = ground arith
  relay_of-IsAnonymous odoh_target relay_proto name c e h =
      let h' : is_proto c.proto odoh_relay ≡ true =
        subst (λ p. is_proto c.proto p ≡ true) (some_eq e) h in
      rw (neither (proto_code c.proto) h', h') (odoh_relay_of-IsAnonymous name c)
    where
      some_eq : {p q : StampProto} → some p ≡ some q → q ≡ p
      some_eq e = cc

      neither : (n : ℕ) → (n == 0x85) ≡ true → (n == 0x01 || n == 0x81) ≡ false
      neither n h = ground arith
  relay_of-IsAnonymous plain relay_proto name c e h = cc
  relay_of-IsAnonymous doh relay_proto name c e h = cc
  relay_of-IsAnonymous tls relay_proto name c e h = cc
  relay_of-IsAnonymous doq relay_proto name c e h = cc
  relay_of-IsAnonymous dnscrypt_relay relay_proto name c e h = cc
  relay_of-IsAnonymous odoh_relay relay_proto name c e h = cc

  through-IsAnonymous :
      (registered relays : List RegisteredServer) (name : Bytes)
      (server_proto relay_proto : StampProto) (names : List Bytes) (wildcard : Bool)
      → relay_proto_for_server_proto server_proto ≡ some relay_proto
      → IsAnonymous server_proto (through env registered relays name relay_proto names wildcard)
  unfolding through
  through-IsAnonymous registered relays name server_proto relay_proto names wildcard e =
      let found = relay_loop env relay_proto relays names in
      elim (Bool-cases (length found.0 == 0)) [
        | inl f ↦ rw (through, f) tt
        | inr f ↦
            rw (through, f)
              (go (candidate_of env registered relays name found.0 (wildcard || found.1)) (
                candidate-Picks (HasProto relay_proto) registered relays name found.0
                  (wildcard || found.1) (relay_loop-HasProto relay_proto relays names)))
      ]
    where
      go :
          (o : Option (Option ServerStamp))
          → Picks (HasProto relay_proto) o
          → IsAnonymous server_proto (elim o [
            | none ↦ none
            | some none ↦ some (err no_valid_relay)
            | some (some candidate) ↦ some (relay_of env name candidate)
          ])
      go none p = tt
      go (some none) p = tt
      go (some (some c)) p = relay_of-IsAnonymous server_proto relay_proto name c e p

  -- The route of a server of a protocol that can be anonymized, and that is configured with relays,
  -- is never the one without a relay: it panics, fails, or is a relay of the kind that fits the
  -- server. The route of every other server is the one without a relay.
  pub route-IsAnonymous :
      (registered relays : List RegisteredServer) (name : Bytes) (server_proto : StampProto)
      → ((names : List Bytes) × (wildcard : Bool) × (relay_proto : StampProto) × (configured env
              name
            ≡ some (names, wildcard))
          × (relay_proto_for_server_proto server_proto ≡ some relay_proto)
          × IsAnonymous server_proto (route env registered relays name server_proto))
        ⊎ (((configured env name ≡ none) ⊎ (relay_proto_for_server_proto server_proto ≡ none))
            × (route env registered relays name server_proto ≡ no_relay))
  unfolding route
  route-IsAnonymous registered relays name server_proto =
      elim (Option-cases (configured env name)) [
        | inl e ↦ inr (inl e, rw (route, e))
        | inr ((names, wildcard), e) ↦
            elim (Option-cases (relay_proto_for_server_proto server_proto)) [
              | inl f ↦ inr (inr f, rw (route, e, f))
              | inr (relay_proto, f) ↦ inl (
                names,
                wildcard,
                relay_proto,
                e,
                f,
                rw (route, e, f)
                    (through-IsAnonymous registered relays name server_proto relay_proto names
                      wildcard f),
              )
            ]
      ]

  far_loop-append :
      (ip : Bytes) (relays : List ServerStamp) (at best : ℕ) (idxs : List ℕ)
      → (more : List ℕ) × (far_loop env ip relays at best idxs ≡ idxs ++ more)
  unfolding far_loop
  far_loop-append ip [] at best idxs = ([], sym (append-nil idxs))
  far_loop-append ip (r ∷ rs) at best idxs = elim (Option-cases (same_prefix_bits env ip r)) [
    | inl e ↦ let (more, h) = far_loop-append ip rs (at + 1) best idxs in (more, rw (far_loop, e) h)
    | inr (bits, e) ↦ elim (Bool-cases (leb bits best)) [
      | inl f ↦
          let (more, h) = far_loop-append ip rs (at + 1) bits (idxs ++ at ∷ []) in
          (at ∷ more, rw (far_loop, e, f) (h ∙ append_assoc idxs (at ∷ []) more))
      | inr f ↦
          let (more, h) = far_loop-append ip rs (at + 1) best idxs in (more, rw (far_loop, e, f) h)
    ]
  ]

  -- The first relay that is compared stays among those that are drawn from, however many bits it
  -- shares with the server's address, and however few the relays after it share.
  pub far_loop_keeps_first :
      (ip : Bytes) (relay : ServerStamp) (relays : List ServerStamp) (bits : ℕ)
      → same_prefix_bits env ip relay ≡ some bits
      → bits ≤ 128
      → (more : List ℕ) × (far_loop env ip (relay ∷ relays) 0 128 [] ≡ 0 ∷ more)
  unfolding far_loop
  far_loop_keeps_first ip relay relays bits e le =
      let (more, h) = far_loop-append ip relays 1 bits (0 ∷ []) in
      let fits : leb bits 128 ≡ true = ground arith in (more, rw (far_loop, e, fits) h)
