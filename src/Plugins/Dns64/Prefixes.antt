-- ===== src/Plugins/Dns64/Prefixes.antt =====
-- plugin_dns64.go: `translateToIPv6`, and the prefix that `fetchPref64` finds in an address.
use sourcegraph_testing_dnsc.Base.{
  Bytes, [], arith, if◌then◌else◌, length, length-append, length-replicate, length-set, length-take,
  ltb, map, refl, replicate, set, some, suc, take, true, ℕ, ◌*◌, ◌++◌, ◌+◌, ◌-◌, ◌/◌, ◌==◌, ◌∙◌,
  ◌∷◌, ◌≡◌, ◌≤◌,
}
use sourcegraph_testing_dnsc.Plugins.Dns64.{
  IpNet, prefix_end, prefix_of, translate_loop, translate_to_ipv6,
}

-- The lengths that RFC 6052 allows, in bytes.
pub data IsPrefixEnd : ℕ → Type 0 where
  ends4 : IsPrefixEnd 4
  ends5 : IsPrefixEnd 5
  ends6 : IsPrefixEnd 6
  ends7 : IsPrefixEnd 7
  ends8 : IsPrefixEnd 8
  ends12 : IsPrefixEnd 12

-- The addresses of ipv4only.arpa.
pub data IsWellKnown : Bytes → Type 0 where
  wka1 : IsWellKnown (192 ∷ 0 ∷ 0 ∷ 170 ∷ [])
  wka2 : IsWellKnown (192 ∷ 0 ∷ 0 ∷ 171 ∷ [])

-- The network whose `i`-th byte is `high i`, up to `end`.
abbrev pub net : (ℕ → ℕ) → ℕ → IpNet
net high end = record {
  ip =
      take end (map high (0 ∷ 1 ∷ 2 ∷ 3 ∷ 4 ∷ 5 ∷ 6 ∷ 7 ∷ 8 ∷ 9 ∷ 10 ∷ 11 ∷ []))
      ++ replicate (16 - end) 0;
  ones = end * 8;
}

-- The prefix of a translated well-known address is the prefix it was translated by, for every
-- length that a prefix may have.
pub prefix_of-translate_to_ipv6 :
    (high : ℕ → ℕ) (end : ℕ) (ipv4 : Bytes)
    → IsPrefixEnd end
    → IsWellKnown ipv4
    → (ipv6 : Bytes) × (translate_to_ipv6 ipv4 (net high end) ≡ some ipv6)
      × (prefix_of ipv6 ≡ some (net high end))
unfolding translate_to_ipv6 prefix_of translate_loop prefix_end
prefix_of-translate_to_ipv6 high _ _ ends4 wka1 = (_, refl, refl)
prefix_of-translate_to_ipv6 high _ _ ends4 wka2 = (_, refl, refl)
prefix_of-translate_to_ipv6 high _ _ ends5 wka1 = (_, refl, refl)
prefix_of-translate_to_ipv6 high _ _ ends5 wka2 = (_, refl, refl)
prefix_of-translate_to_ipv6 high _ _ ends6 wka1 = (_, refl, refl)
prefix_of-translate_to_ipv6 high _ _ ends6 wka2 = (_, refl, refl)
prefix_of-translate_to_ipv6 high _ _ ends7 wka1 = (_, refl, refl)
prefix_of-translate_to_ipv6 high _ _ ends7 wka2 = (_, refl, refl)
prefix_of-translate_to_ipv6 high _ _ ends8 wka1 = (_, refl, refl)
prefix_of-translate_to_ipv6 high _ _ ends8 wka2 = (_, refl, refl)
prefix_of-translate_to_ipv6 high _ _ ends12 wka1 = (_, refl, refl)
prefix_of-translate_to_ipv6 high _ _ ends12 wka2 = (_, refl, refl)

-- The bytes from the `i`-th on have room.
abbrev Fits : ℕ → ℕ → ℕ → Type 0
Fits left i shift = (shift + i + left ≤ 16) × (shift + i ≤ 8 → shift + i + left ≤ 15)

Fits-ltb :
    (left i shift : ℕ)
    → Fits (suc left) i shift
    → ltb ((if shift + i == 8 then shift + 1 else shift) + i) 16 ≡ true
Fits-ltb left i shift h = let (h1, h2) = h in ground arith

Fits-step :
    (left i shift : ℕ)
    → Fits (suc left) i shift
    → Fits left (i + 1) (if shift + i == 8 then shift + 1 else shift)
Fits-step left i shift h = let (h1, h2) = h in (ground arith, λ e. ground arith)

translate_loop_total :
    (bs : Bytes) (i shift : ℕ) (ipv6 : Bytes)
    → length ipv6 ≡ 16
    → Fits (length bs) i shift
    → (out : Bytes) × (translate_loop bs i shift ipv6 ≡ some out)
unfolding translate_loop
translate_loop_total [] i shift ipv6 n h = (ipv6, refl)
translate_loop_total (b ∷ bs) i shift ipv6 n h =
    let at : ℕ = if shift + i == 8 then shift + 1 else shift in
    let fits : ltb (at + i) (length ipv6) ≡ true = rw n (Fits-ltb (length bs) i shift h) in
    rw (translate_loop, fits)
      (translate_loop_total bs (i + 1) at (set ipv6 (at + i) b) (length-set ipv6 (at + i) b ∙ n)
        (Fits-step (length bs) i shift h))

-- No prefix of at most 96 bits makes the translation of an IPv4 address panic.
pub translate_to_ipv6_total :
    (ipv4 : Bytes) (prefix : IpNet)
    → length ipv4 ≡ 4
    → prefix.ones ≤ 96
    → (out : Bytes) × (translate_to_ipv6 ipv4 prefix ≡ some out)
unfolding translate_to_ipv6
translate_to_ipv6_total ipv4 prefix n h =
    let s : Bytes = prefix.ip ++ replicate (16 - length prefix.ip) 0 in
    let long : 16 ≤ length s =
      rw
        (
          length-append prefix.ip (replicate (16 - length prefix.ip) 0),
          length-replicate {A = ℕ} (16 - length prefix.ip) 0,
        )
        (omega arith) in
    translate_loop_total ipv4 0 (prefix.ones / 8) (take 16 s) (rw (length-take 16 s) (ground arith))
      (rw n (omega arith, λ e. omega arith))
