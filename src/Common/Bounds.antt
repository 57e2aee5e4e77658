-- ===== src/Common/Bounds.antt =====
-- common.go, `ReadPrefixed`: the sizes of the packets that it returns.
use sourcegraph_testing_dnsc.Base.{
  Bytes, List, Option, Option-cases, Result, [], arith, drop, err, inl, inr, length, length-drop,
  length-take, none, ok, refl, some, take, ℕ, ◌++◌, ◌+◌, ◌-◌, ◌<◌, ◌∷◌, ◌≡◌, ◌≤◌,
}
use sourcegraph_testing_dnsc.Common.{
  ReadEvent, chunk, complete, failure, max_dns_packet_size, min_dns_packet_size, packet_length,
  read_loop, read_prefixed,
}

-- The size, once known, was accepted.
abbrev Accepted : Option ℕ → Type 0
Accepted none = Unit {0}
Accepted (some n) = (min_dns_packet_size ≤ n) × (n < max_dns_packet_size)

packet_length-Accepted :
    (buf : Bytes) (len len' : Option ℕ)
    → Accepted len
    → packet_length buf len ≡ ok len'
    → Accepted len'
unfolding packet_length
packet_length-Accepted buf (some n) len' a h = ground arith
packet_length-Accepted buf none none a h = tt
packet_length-Accepted buf none (some n) a h = ground arith

complete-length :
    (buf packet : Bytes) (n : ℕ) → complete buf (some n) ≡ some packet → length packet ≡ n
unfolding complete
complete-length buf packet n h = ground (arith, length-take n (drop 2 buf), length-drop 2 buf)

-- What `read_loop` does with the outcome of a round.
abbrev read_round : List ReadEvent → Bytes → Result (Option ℕ) → Result Bytes
read_round events buf r = elim r [
  | err e ↦ err e
  | ok len ↦ elim (complete buf len) [ some packet ↦ ok packet | none ↦ read_loop events buf len ]
]

abbrev InBounds : Bytes → Type 0
InBounds packet = (min_dns_packet_size ≤ length packet) × (length packet < max_dns_packet_size)

complete-InBounds :
    (buf packet : Bytes) (len : Option ℕ)
    → Accepted len
    → complete buf len ≡ some packet
    → InBounds packet
complete-InBounds buf packet none a h = unfold complete in cc
complete-InBounds buf packet (some n) a h =
    let e = complete-length buf packet n h in (omega (arith, a.0), omega (arith, a.1))

-- One round, given what holds of the rounds that follow.
round-InBounds :
    (events : List ReadEvent) (buf packet : Bytes) (r : Result (Option ℕ))
    → ((len : Option ℕ) → r ≡ ok len → Accepted len)
    → ((len : Option ℕ) → Accepted len → read_loop events buf len ≡ ok packet → InBounds packet)
    → read_round events buf r ≡ ok packet
    → InBounds packet
round-InBounds events buf packet (err e) a ih h = cc
round-InBounds events buf packet (ok len) a ih h = elim (Option-cases (complete buf len)) [
  | inl more ↦ ih len (a len refl) (rw (more, read_round) at h)
  | inr (p, e) ↦
      let same : ◌≡◌ {A = Result Bytes} (ok p) (ok packet) = rw (e, read_round) at h in
      complete-InBounds buf packet len (a len refl) (cc)
]

read_loop-InBounds :
    (events : List ReadEvent) (buf packet : Bytes) (len : Option ℕ)
    → Accepted len
    → read_loop events buf len ≡ ok packet
    → InBounds packet
unfolding read_loop
read_loop-InBounds [] buf packet len a h = cc
read_loop-InBounds (failure ∷ events) buf packet len a h = cc
read_loop-InBounds (chunk c ∷ events) buf packet len a h =
    let buf' = buf ++ take (2 + max_dns_packet_size - length buf) c in
    round-InBounds events buf' packet (packet_length buf' len)
      (λ len' e. packet_length-Accepted buf' len len' a e)
      (λ len' a' e. read_loop-InBounds events buf' packet len' a' e) h

-- Whatever the stream holds, a packet that `ReadPrefixed` returns has 17 to 4095 bytes.
pub read_prefixed_bounds :
    (events : List ReadEvent) (packet : Bytes)
    → read_prefixed events ≡ ok packet
    → (min_dns_packet_size ≤ length packet) × (length packet < max_dns_packet_size)
unfolding read_prefixed
read_prefixed_bounds events packet h = read_loop-InBounds events [] packet none tt h
