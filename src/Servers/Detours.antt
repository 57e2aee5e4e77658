-- ===== src/Servers/Detours.antt =====
-- serversInfo.go: when a server is reached without the relay of its route, and how often a target is
-- asked again.
use mathlib.Core.Path.{subst}
use sourcegraph_testing_dnsc.Base.{
  Bool, Bytes, Error, List, Option, Option-cases, Result, Result-cases, any, ap, arith, bytes_eq,
  err, false, if◌then◌else◌, inl, inr, none, ok, refl, some, suc, sym, true,
  unreachable_anonymously, zero, ℕ, ◌&&◌, ◌+◌, ◌||◌, ◌∙◌, ◌≡◌, ◌≤◌, ◌⊎◌,
}
use sourcegraph_testing_dnsc.Certs.{CertInfo}
use sourcegraph_testing_dnsc.Servers.{RegisteredServer, Relay, ServerInfo, ServerStamp}
use sourcegraph_testing_dnsc.Servers.Routes.{RouteEnv, Routed, route}
use sourcegraph_testing_dnsc.Servers.Fetch.{
  CertAnswer, FetchEnv, fetch_dnscrypt_server_info, is_dnscrypt_relay, public_key, with_addrs,
  with_cert,
}
use sourcegraph_testing_dnsc.Servers.Targets.{fetch_odoh_target, fetch_odoh_target_info, retry}
use sourcegraph_testing_dnsc.Servers.Trust.{IfFetched, IfOk}

module _ (R : RouteEnv) {A T : Type 0} (env : FetchEnv T) (no_average : A)
    (registered relays : List RegisteredServer) where
  -- The relay is kept, or it is given up since it drops fragments and the configuration allows that.
  abbrev pub Kept : Option Relay → ServerInfo A T → Type 0
  Kept relay info =
      (info.relay ≡ relay)
      ⊎ ((env.skip_anon_incompatible_resolvers ≡ false)
          × (info.fragments_blocked ≡ true)
          × (info.relay ≡ none))

  pub record IsRouted (name : Bytes) (stamp : ServerStamp) (info : ServerInfo A T) : Type 0 where
    pub relay : Option Relay
    pub cached : Option (Bytes × Bytes)
    pub routed : route R registered relays name stamp.proto ≡ some (ok (relay, cached))
    pub kept : Kept relay info

  abbrev HasRelay : Option Relay → Bool → ServerInfo A T → Type 0
  HasRelay relay blocked i = (i.relay ≡ relay) × (i.fragments_blocked ≡ blocked)

  with_addrs-HasRelay :
      (name : Bytes) (stamp : ServerStamp) (relay : Option Relay) (blocked : Bool) (info : CertInfo)
      (rtt : ℕ)
      → IfOk
          (λ i. (i.relay ≡ relay) × (i.fragments_blocked ≡ blocked))
          (with_addrs R env no_average registered relays name stamp relay blocked info rtt)
  unfolding with_addrs
  with_addrs-HasRelay name stamp relay blocked info rtt =
      elim (Result-cases (R.resolve_udp_addr stamp.server_addr_str)) [
        | inr (e, h) ↦ rw (with_addrs, h) tt
        | inl (u, h) ↦ elim (Result-cases (R.resolve_tcp_addr stamp.server_addr_str)) [
          | inr (e, k) ↦ rw (with_addrs, h, k) tt
          | inl (t, k) ↦ rw (with_addrs, h, k) (refl, refl)
        ]
      ]

  IfOk-implies :
      (P Q : ServerInfo A T → Type 0) (r : Result (ServerInfo A T))
      → ((i : ServerInfo A T) → P i → Q i)
      → IfOk P r
      → IfOk Q r
  IfOk-implies P Q (err e) f h = tt
  IfOk-implies P Q (ok i) f h = f i h

  with_cert-Kept :
      (name : Bytes) (stamp : ServerStamp) (relay : Option Relay) (known : Bool)
      (answer : CertAnswer)
      → IfOk
          (Kept relay)
          (with_cert R env no_average registered relays name stamp relay known answer)
  unfolding with_cert
  with_cert-Kept name stamp relay known answer =
      go (known || answer.blocked)
        (is_dnscrypt_relay R {A = A} env no_average registered relays relay)
        env.skip_anon_incompatible_resolvers refl answer.result
    where
      go :
          (blocked via skip : Bool)
          → env.skip_anon_incompatible_resolvers ≡ skip
          → (r : Result (CertInfo × ℕ))
          → IfOk (Kept relay) (
              if (blocked && via) && skip then err unreachable_anonymously else elim r [
                | err e ↦ err e
                | ok (info, rtt) ↦
                    with_addrs R env no_average registered relays name stamp
                      (if blocked && via then none else relay)
                      blocked
                      info
                      rtt
              ])
      go true true true s r = tt
      go true true false s (err e) = tt
      go true true false s (ok (info, rtt)) =
          IfOk-implies (HasRelay none true) (Kept relay)
            (with_addrs R env no_average registered relays name stamp none true info rtt)
            (λ i h. inr (s, h.1, h.0)) (with_addrs-HasRelay name stamp none true info rtt)
      go true false skip s (err e) = tt
      go true false skip s (ok (info, rtt)) =
          IfOk-implies (HasRelay relay true) (Kept relay)
            (with_addrs R env no_average registered relays name stamp relay true info rtt)
            (λ i h. inl h.0) (with_addrs-HasRelay name stamp relay true info rtt)
      go false via skip s (err e) = tt
      go false via skip s (ok (info, rtt)) =
          IfOk-implies (HasRelay relay false) (Kept relay)
            (with_addrs R env no_average registered relays name stamp relay false info rtt)
            (λ i h. inl h.0) (with_addrs-HasRelay name stamp relay false info rtt)

  -- A server of DNSCrypt that is accepted has the relay of its route, and is reached without it only
  -- if it drops fragments and the configuration does not ask to skip such servers.
  pub fetch_dnscrypt-IsRouted :
      (name : Bytes) (stamp : ServerStamp)
      → IfFetched
          (IsRouted name stamp)
          (fetch_dnscrypt_server_info R env no_average registered relays name stamp)
  unfolding fetch_dnscrypt_server_info
  fetch_dnscrypt-IsRouted name stamp =
      elim (Option-cases (public_key R {A = A} env no_average registered relays stamp.server_pk)) [
        | inl e ↦ rw (fetch_dnscrypt_server_info, e) tt
        | inr (key, e) ↦
            rw (fetch_dnscrypt_server_info, e)
              (go key (route R registered relays name stamp.proto) refl)
      ]
    where
      known : Bool
      known = any (λ n. bytes_eq n name) env.servers_blocking_fragments

      go :
          (key : Bytes) (r : Routed)
          → route R registered relays name stamp.proto ≡ r
          → IfFetched (IsRouted name stamp) (elim r [
            | none ↦ none
            | some (err e) ↦ some (err e, none)
            | some (ok (relay, cached)) ↦ some (
              with_cert R env no_average registered relays name stamp relay known
                  (env.fetch_cert name key stamp relay known),
              cached,
            )
          ])
      go key none h = tt
      go key (some (err e)) h = tt
      go key (some (ok (relay, cached))) h =
          IfOk-implies (Kept relay) (IsRouted name stamp)
            (with_cert R env no_average registered relays name stamp relay known
              (env.fetch_cert name key stamp relay known))
            (λ i k. record { relay = relay; cached = cached; routed = h; kept = k })
            (with_cert-Kept name stamp relay known (env.fetch_cert name key stamp relay known))

module _ {B C : Type 0} (attempt : ℕ → Option (Result B × C)) where
  -- The attempts from the i-th on fail k times.
  abbrev pub Failing : ℕ → ℕ → Type 0
  Failing i zero = Unit {0}
  Failing i (suc k) = ((e : Error) × (c : C) × (attempt i ≡ some (err e, c))) × Failing (i + 1) k

  -- An attempt that succeeds, or ends the program.
  abbrev pub Settles : ℕ → Type 0
  Settles i = (attempt i ≡ none) ⊎ ((b : B) × (c : C) × (attempt i ≡ some (ok b, c)))

  -- What comes of the attempt `i` and at most `left` more.
  abbrev pub Retried : ℕ → ℕ → Option (Result B × C) → Type 0
  Retried i left r =
      ((k : ℕ) × (k ≤ left) × Failing i k × Settles (i + k) × (r ≡ attempt (i + k)))
      ⊎ (Failing i left × (r ≡ attempt (i + left)))

  attempt_cases : (i : ℕ) → Settles i ⊎ ((e : Error) × (c : C) × (attempt i ≡ some (err e, c)))
  attempt_cases i = elim (Option-cases (attempt i)) [
    | inl h ↦ inl (inl h)
    | inr ((r, c), h) ↦ elim (Result-cases r) [
      | inl (b, k) ↦ inl (inr (b, c, h ∙ ap (λ r. some (r, c)) k))
      | inr (e, k) ↦ inr (e, c, h ∙ ap (λ r. some (r, c)) k)
    ]
  ]

  settled : (i left : ℕ) → Settles i → retry attempt i (suc left) ≡ attempt i
  unfolding retry
  settled i left (inl h) = rw (retry, h) refl
  settled i left (inr (b, c, h)) = rw (retry, h) refl

  retry-Retried : (i left : ℕ) → Retried i left (retry attempt i left)
  unfolding retry
  retry-Retried i zero = let e : i + 0 ≡ i = omega arith in inr (tt, ap attempt (sym e))
  retry-Retried i (suc left) = elim (attempt_cases i) [
    | inl h ↦
        let e : i ≡ i + 0 = omega arith in
        inl (0, omega arith, tt, subst Settles e h, settled i left h ∙ ap attempt e)
    | inr (x, c, h) ↦
        let later : retry attempt i (suc left) ≡ retry attempt (i + 1) left = rw (retry, h) refl in
        elim (retry-Retried (i + 1) left) [
          | inl (k, le, f, s, e) ↦
              let same : i + 1 + k ≡ i + suc k = omega arith in
              inl (
                suc k,
                omega arith,
                ((x, c, h), f),
                subst Settles same s,
                later ∙ (e ∙ ap attempt same),
              )
          | inr (f, e) ↦
              let same : i + 1 + left ≡ i + suc left = omega arith in
              inr (((x, c, h), f), later ∙ (e ∙ ap attempt same))
        ]
  ]

module _ (R : RouteEnv) {A T : Type 0} (envs : ℕ → FetchEnv T) (no_average : A)
    (registered relays : List RegisteredServer) where
  -- One attempt at a target of oblivious DoH.
  abbrev pub attempt_at :
      Bytes → ServerStamp → ℕ → Option (Result (ServerInfo A T) × Option (Bytes × Bytes))
  attempt_at name stamp i = fetch_odoh_target R (envs i) no_average registered relays name stamp

  -- A target is tried three times at most: what comes of it is the first attempt that does not end
  -- with an error, or the third after two that do.
  pub fetch_odoh-Retried :
      (name : Bytes) (stamp : ServerStamp)
      → Retried
          (attempt_at name stamp)
          0
          2
          (fetch_odoh_target_info R envs no_average registered relays name stamp)
  unfolding fetch_odoh_target_info
  fetch_odoh-Retried name stamp = retry-Retried (attempt_at name stamp) 0 2
