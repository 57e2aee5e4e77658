-- ===== src/Crypto/Queries.antt =====
-- crypto.go, `Encrypt`: the size of a query and what its server reads back.
use sourcegraph_testing_dnsc.Base.{
  Bytes, append_assoc, arith, drop, drop-append, err, false, length, length-append, length-take, ok,
  question_too_large, replicate, some, take, take-append, ℕ, ◌%◌, ◌++◌, ◌+◌, ◌-◌, ◌↔◌, ◌≡◌, ◌≤◌,
  ◌⊎◌,
}
use sourcegraph_testing_dnsc.Common.{
  client_magic_len, max_dns_udp_packet_size, max_dns_udp_safe_packet_size,
}
use mathlib.Core.Path.{subst}
use sourcegraph_testing_dnsc.Crypto.Padding.{length-pad, unpad-pad}
use sourcegraph_testing_dnsc.Crypto.{
  Encrypted, IsSealing, Primitives, Proto, ProxyKeys, ServerKeys, encrypt, half_nonce_size, pad,
  padded_length, public_key_size, query_keys, query_nonce, query_overhead, tcp, udp, unpad,
}

-- A padded query has at most 4096 bytes, and its size is a multiple of 64, but for the fixed size of
-- a server that blocks fragments.
pub padded_length_bounds :
    (server : ServerKeys) (proto : Proto) (min_size xpad packet_len : ℕ)
    → let n = padded_length server proto min_size xpad packet_len in
      (n ≤ max_dns_udp_packet_size) × ((n % 64 ≡ 0) ⊎ (n ≡ max_dns_udp_safe_packet_size))
unfolding padded_length
padded_length_bounds server udp min_size xpad packet_len = ground arith
padded_length_bounds server tcp min_size xpad packet_len = ground arith

-- Unless the server blocks fragments, every query of at most 4027 bytes fits its padded size.
pub padded_length_fits :
    (server : ServerKeys) (proto : Proto) (min_size xpad packet_len : ℕ)
    → server.fragments_blocked ≡ false
    → packet_len ≤ 4027
    → query_overhead + packet_len + 1 ≤ padded_length server proto min_size xpad packet_len
unfolding padded_length
padded_length_fits server udp min_size xpad packet_len h k = ground arith
padded_length_fits server tcp min_size xpad packet_len h k = ground arith

-- The sizes of the fixed parts of a query.
pub record HasSizes (proxy : ProxyKeys) (server : ServerKeys) (client_nonce : Bytes) : Type 0 where
  pub magic : length server.magic_query ≡ client_magic_len
  pub public_key : length proxy.proxy_public_key ≡ public_key_size
  pub nonce : length client_nonce ≡ half_nonce_size

module _ (p : Primitives) (laws : IsSealing p) (fresh client_nonce : Bytes) (xpad : ℕ)
    (proxy : ProxyKeys) (server : ServerKeys) (sizes : HasSizes proxy server client_nonce) where
  abbrev keys : Bytes × Bytes
  keys = query_keys p fresh proxy server client_nonce

  length_public_key : length keys.1 ≡ public_key_size
  unfolding query_keys
  length_public_key = ground (
    arith,
    laws.length-scalar_base_mult (Primitives.sha512_256 p (client_nonce ++ proxy.proxy_secret_key)),
    sizes.public_key,
  )

  abbrev header : Bytes
  header = (server.magic_query ++ keys.1) ++ take half_nonce_size (query_nonce client_nonce)

  length-header : length header ≡ client_magic_len + public_key_size + half_nonce_size
  length-header = omega (
    arith,
    length-append (server.magic_query ++ keys.1) (take half_nonce_size (query_nonce client_nonce)),
    length-append server.magic_query keys.1,
    length_public_key,
    sizes.magic,
    length-take half_nonce_size (query_nonce client_nonce),
    length-append client_nonce (replicate half_nonce_size 0),
    sizes.nonce,
  )

  -- The sealed part of a query of `size` bytes.
  abbrev sealed : Bytes → ℕ → Bytes
  sealed packet size =
      Primitives.seal p server.construction (query_nonce client_nonce)
        (pad packet (size - query_overhead)) keys.0

  length_query :
      (packet : Bytes) (size : ℕ)
      → query_overhead + length packet + 1 ≤ size
      → length (header ++ sealed packet size) ≡ size
  length_query packet size h = omega (
    arith,
    length-append header (sealed packet size),
    length-header,
    laws.length-seal server.construction (query_nonce client_nonce)
        (pad packet (size - query_overhead)) keys.0,
    length-pad packet (size - query_overhead) (omega arith),
  )

  abbrev query : Bytes → ℕ → Encrypted
  query packet size = record {
    key = keys.0;
    packet = header ++ sealed packet size;
    client_nonce = client_nonce;
  }

  abbrev pub size_of : Bytes → Proto → ℕ
  size_of packet proto = padded_length server proto proxy.min_question_size xpad (length packet)

  encrypt_ok :
      (packet : Bytes) (proto : Proto) (e : Encrypted)
      → encrypt p fresh client_nonce xpad proxy server packet proto ≡ ok e
      → (query_overhead + length packet + 1 ≤ size_of packet proto)
        × (query packet (size_of packet proto) ≡ e)
  unfolding encrypt
  encrypt_ok packet proto e h = ground arith

  abbrev pub ReadsBack : Bytes → ℕ → Encrypted → Type 0
  ReadsBack packet size e =
      (length e.packet ≡ size)
      × (take client_magic_len e.packet ≡ server.magic_query)
      × (padded : Bytes) × (Primitives.unseal p server.construction (query_nonce e.client_nonce)
            (drop (client_magic_len + public_key_size + half_nonce_size) e.packet) e.key
          ≡ some padded)
      × (unpad padded ≡ ok packet)

  query-ReadsBack :
      (packet : Bytes) (size : ℕ)
      → query_overhead + length packet + 1 ≤ size
      → ReadsBack packet size (query packet size)
  query-ReadsBack packet size h =
      let padded = pad packet (size - query_overhead) in
      (
        length_query packet size h,
        rw (append_assoc, append_assoc)
            (take-append client_magic_len server.magic_query _ sizes.magic),
        padded,
        rw (drop-append 52 header (sealed packet size) length-header)
            (laws.unseal-seal server.construction (query_nonce client_nonce) padded keys.0),
        unpad-pad packet (size - query_overhead),
      )

  -- A query that is sent has exactly its padded size and begins with the server's magic, and the
  -- server that opens what follows the header, with the client's nonce and the key of the query,
  -- reads the packet back.
  pub encrypt-ReadsBack :
      (packet : Bytes) (proto : Proto) (e : Encrypted)
      → encrypt p fresh client_nonce xpad proxy server packet proto ≡ ok e
      → ReadsBack packet (size_of packet proto) e
  encrypt-ReadsBack packet proto e h =
      let (fits, same) = encrypt_ok packet proto e h in
      subst (ReadsBack packet (size_of packet proto)) same
        (query-ReadsBack packet (size_of packet proto) fits)

-- A query is refused exactly if it does not fit the size to which it would be padded, and the only
-- error is that it is too large.
pub encrypt_refuses :
    (p : Primitives) (fresh client_nonce : Bytes) (xpad : ℕ) (proxy : ProxyKeys)
    (server : ServerKeys) (packet : Bytes) (proto : Proto)
    → encrypt p fresh client_nonce xpad proxy server packet proto ≡ err question_too_large ↔ (
        padded_length server proto proxy.min_question_size xpad (length packet)
        ≤ query_overhead + length packet)
unfolding encrypt
encrypt_refuses p fresh client_nonce xpad proxy server packet proto =
    (λ h. ground arith, λ h. ground arith)
