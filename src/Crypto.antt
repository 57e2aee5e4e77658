-- ===== src/Crypto.antt =====
-- dnscrypt-proxy/crypto.go: the padding and the sealing of queries and responses.
-- The primitives are of other libraries, and a random draw is an argument.
pub mod Padding
pub mod Queries
pub mod Responses
mod Tests
use sourcegraph_testing_dnsc.Base.{
  Bool, Bytes, Option, Result, [], bytes_eq, delimiter_not_found, drop, err, false, if◌then◌else◌,
  incorrect_padding, incorrect_tag, invalid_size_or_prefix, length, ltb, none, not, ok,
  question_too_large, replicate, reverse, short_padding, some, take, true, unexpected_nonce, ℕ,
  ◌&&◌, ◌*◌, ◌++◌, ◌+◌, ◌-◌, ◌/◌, ◌==◌, ◌||◌, ◌∷◌, ◌≡◌,
}
use sourcegraph_testing_dnsc.Common.{
  client_magic_len, max, max_dns_packet_size, max_dns_udp_packet_size, max_dns_udp_safe_packet_size,
  min, min_dns_packet_size, server_magic,
}

-- `CryptoConstruction`, in the order of its constants.
pub data CryptoConstruction : Type 0 where
  undefined_construction xsalsa20_poly1305 xchacha20_poly1305 : CryptoConstruction

abbrev pub nonce_size : ℕ
nonce_size = 24

abbrev pub half_nonce_size : ℕ
half_nonce_size = nonce_size / 2

abbrev pub tag_size : ℕ
tag_size = 16

abbrev pub public_key_size : ℕ
public_key_size = 32

abbrev pub query_overhead : ℕ
query_overhead = client_magic_len + public_key_size + half_nonce_size + tag_size

abbrev pub response_overhead : ℕ
response_overhead = length server_magic + nonce_size + tag_size

-- What the code calls of `xsecretbox`, `box`, `secretbox`, `sha512` and `curve25519`: keys, nonces and
-- messages are bytes, and `none` is a failure.
pub record Primitives : Type 0 where
  pub shared_key : Bytes → Bytes → Option Bytes
  pub weak_key : Bytes → Bytes → Bytes
  pub precompute : Bytes → Bytes → Bytes
  pub sha512_256 : Bytes → Bytes
  pub scalar_base_mult : Bytes → Bytes
  pub seal : CryptoConstruction → Bytes → Bytes → Bytes → Bytes
  pub unseal : CryptoConstruction → Bytes → Bytes → Bytes → Option Bytes

-- What is documented of the primitives: sealing adds a tag and the same nonce and key undo it, and
-- a public key has 32 bytes.
pub record IsSealing (p : Primitives) : Type 0 where
  pub length-seal :
      (c : CryptoConstruction) (nonce message key : Bytes)
      → length (Primitives.seal p c nonce message key) ≡ length message + tag_size
  pub unseal-seal :
      (c : CryptoConstruction) (nonce message key : Bytes)
      → Primitives.unseal p c nonce (Primitives.seal p c nonce message key) key ≡ some message
  pub length-scalar_base_mult :
      (secret_key : Bytes) → length (Primitives.scalar_base_mult p secret_key) ≡ public_key_size

unfoldable pub pad : Bytes → ℕ → Bytes
pad packet min_size =
    let marked = packet ++ 0x80 ∷ [] in marked ++ replicate (min_size - length marked) 0

-- `unpad` reads from the end: the list is the packet backwards.
unpad_loop : Bytes → Result Bytes
unpad_loop [] = err short_padding
unpad_loop (c ∷ s) =
    let rest = unpad_loop s in
    if c == 0x80 then ok (reverse s) else if not (c == 0) then err delimiter_not_found else rest

unfoldable pub unpad : Bytes → Result Bytes
unfolding unpad_loop
unpad packet = unpad_loop (reverse packet)

is_xchacha : CryptoConstruction → Bool
is_xchacha undefined_construction = false
is_xchacha xsalsa20_poly1305 = false
is_xchacha xchacha20_poly1305 = true

pub data Proto : Type 0 where
  udp tcp : Proto

abbrev pub is_udp : Proto → Bool
is_udp udp = true
is_udp tcp = false

-- The fields of `ServerInfo` that these functions read; `relayed` is `Relay != nil`.
pub record ServerKeys : Type 0 where
  pub construction : CryptoConstruction
  pub server_pk : Bytes
  pub shared_key : Bytes
  pub magic_query : Bytes
  pub fragments_blocked : Bool
  pub relayed : Bool

-- The fields of `Proxy` that these functions read.
pub record ProxyKeys : Type 0 where
  pub ephemeral_keys : Bool
  pub proxy_secret_key : Bytes
  pub proxy_public_key : Bytes
  pub min_question_size : ℕ

pub record Encrypted : Type 0 where
  pub key : Bytes
  pub packet : Bytes
  pub client_nonce : Bytes

abbrev pub all_zero : Bytes → Bool
all_zero [] = true
all_zero (c ∷ s) = c == 0 && all_zero s

-- A weak key is logged, and with XSalsa20 replaced by the random bytes `fresh`.
compute_shared_key : Primitives → Bytes → CryptoConstruction → Bytes → Bytes → Bytes
compute_shared_key p fresh construction secret_key server_pk =
    if is_xchacha construction
    then elim (Primitives.shared_key p secret_key server_pk) [
      | some key ↦ key
      | none ↦ Primitives.weak_key p secret_key server_pk
    ]
    else if all_zero (Primitives.precompute p server_pk secret_key)
    then fresh
    else Primitives.precompute p server_pk secret_key

-- The size to which a query is padded, with the tag and the header counted in: `xpad` is the random
-- byte of TCP.
unfoldable pub padded_length : ServerKeys → Proto → ℕ → ℕ → ℕ → ℕ
unfolding min max
padded_length server proto min_size xpad packet_len =
    let plain = query_overhead + packet_len in
    let min_question_size = if is_udp proto then max min_size plain else plain + xpad in
    if server.fragments_blocked && is_udp proto
    then max_dns_udp_safe_packet_size
    else if server.relayed && not (is_udp proto)
    then max_dns_packet_size
    else min max_dns_udp_packet_size ((max min_question_size query_overhead + 1 + 63) / 64 * 64)

-- The shared key and the public key of a query.
query_keys : Primitives → Bytes → ProxyKeys → ServerKeys → Bytes → Bytes × Bytes
unfolding compute_shared_key is_xchacha
query_keys p fresh proxy server client_nonce =
    if proxy.ephemeral_keys
    then (let sk = Primitives.sha512_256 p (client_nonce ++ proxy.proxy_secret_key) in
        (
          compute_shared_key p fresh server.construction sk server.server_pk,
          Primitives.scalar_base_mult p sk,
        ))
    else (server.shared_key, proxy.proxy_public_key)

-- The client's half of the nonce, followed by zeros.
abbrev pub query_nonce : Bytes → Bytes
query_nonce client_nonce = client_nonce ++ replicate half_nonce_size 0

-- `Encrypt`: the draws are a replacement for a weak key, the client's nonce and the byte of TCP.
unfoldable pub encrypt :
    Primitives → Bytes → Bytes → ℕ → ProxyKeys → ServerKeys → Bytes → Proto → Result Encrypted
unfolding query_keys
encrypt p fresh client_nonce xpad proxy server packet proto =
    let keys = query_keys p fresh proxy server client_nonce in
    let size = padded_length server proto proxy.min_question_size xpad (length packet) in
    let header =
      (server.magic_query ++ keys.1) ++ take half_nonce_size (query_nonce client_nonce) in
    let padded = pad packet (size - query_overhead) in
    if ltb size (query_overhead + length packet + 1)
    then err question_too_large
    else ok (record {
      key = keys.0;
      packet =
          header ++ Primitives.seal p server.construction (query_nonce client_nonce) padded keys.0;
      client_nonce = client_nonce;
    })

abbrev pub response_header_len : ℕ
response_header_len = length server_magic + nonce_size

-- The last checks of `Decrypt`, on an opened response.
finish : Option Bytes → Result Bytes
finish none = err incorrect_tag
finish (some padded) = elim (unpad padded) [
  | err e ↦ err incorrect_padding
  | ok packet ↦ if ltb (length packet) min_dns_packet_size then err incorrect_padding else ok packet
]

-- The test of `Invalid message size or prefix`.
bad_size_or_prefix : Bytes → Bool
bad_size_or_prefix encrypted =
    (ltb (length encrypted) (response_header_len + tag_size + min_dns_packet_size)
      || ltb (response_header_len + tag_size + max_dns_packet_size) (length encrypted))
    || not (bytes_eq (take (length server_magic) encrypted) server_magic)

-- The test of `Unexpected nonce`.
bad_nonce : Bytes → Bytes → Bool
bad_nonce nonce server_nonce =
    not (bytes_eq (take half_nonce_size nonce) (take half_nonce_size server_nonce))

pub decrypt : Primitives → ServerKeys → Bytes → Bytes → Bytes → Result Bytes
decrypt p server key encrypted nonce =
    let server_nonce = take nonce_size (drop (length server_magic) encrypted) in
    if bad_size_or_prefix encrypted
    then err invalid_size_or_prefix
    else if bad_nonce nonce server_nonce
    then err unexpected_nonce
    else finish (
        Primitives.unseal p server.construction server_nonce (drop response_header_len encrypted)
          key)
