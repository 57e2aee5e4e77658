-- ===== src/Proxy/Timeouts.antt =====
-- proxy.go: what becomes of a server that does not answer over UDP.
use sourcegraph_testing_dnsc.Base.{
  All, Bytes, List, Option, Option-cases, Result, [], ap, inl, inr, invalid_size_or_prefix, none,
  ok, refl, replicate, some, suc, zero, ℕ, ◌∙◌, ◌∷◌, ◌≡◌,
}
use sourcegraph_testing_dnsc.Common.{max_dns_packet_size}
use sourcegraph_testing_dnsc.Crypto.Responses.{decrypt_refuses_zero}
use sourcegraph_testing_dnsc.Crypto.{Encrypted, Primitives, ServerKeys, udp}
use sourcegraph_testing_dnsc.Dns.{DnsLib, Msg}
use sourcegraph_testing_dnsc.Plugins.{code_network_error}
use sourcegraph_testing_dnsc.Proxy.Upstream.{
  Exchange, Upstream, answered, dnscrypt_exchange, failed_exchange, network_code, notice_begin,
  notice_failure, over_udp, retry_over_tcp, settle, stopped,
}
use sourcegraph_testing_dnsc.Proxy.{
  UdpTry, Via, datagram, decrypted, exchange_with_udp_server, not_sent, nothing_read, relayed_query,
  udp_loop,
}

abbrev pub IsUnread : UdpTry → Type 0
IsUnread not_sent = ⊥
IsUnread nothing_read = Unit {0}
IsUnread (datagram d) = ⊥

udp_loop_unread :
    (left : ℕ) (tries : List UdpTry)
    → All IsUnread tries
    → udp_loop left tries ≡ ok (replicate max_dns_packet_size 0)
unfolding udp_loop
udp_loop_unread zero tries h = refl
udp_loop_unread (suc left) [] h = udp_loop_unread left [] tt
udp_loop_unread (suc left) (not_sent ∷ tries) h = absurd h.0
udp_loop_unread (suc left) (nothing_read ∷ tries) h = udp_loop_unread left tries h.1
udp_loop_unread (suc left) (datagram d ∷ tries) h = absurd h.0

-- The buffer that nothing was read into.
abbrev pub zero_buffer : Bytes
zero_buffer = replicate max_dns_packet_size 0

-- A server that sends nothing in time is reported as one that sent a malformed response: the error is
-- never that of a timeout.
pub exchange_with_udp_server_unread :
    (p : Primitives) (server : ServerKeys) (via : Via) (network : Bytes → Result (List UdpTry))
    (tries : List UdpTry) (shared_key encrypted_query client_nonce : Bytes)
    → network (relayed_query via encrypted_query) ≡ ok tries
    → All IsUnread tries
    → exchange_with_udp_server p server via network shared_key encrypted_query client_nonce
      ≡ (zero_buffer, some invalid_size_or_prefix)
unfolding exchange_with_udp_server decrypted
exchange_with_udp_server_unread p server via network tries shared_key encrypted_query client_nonce
      run h =
    let refused = decrypt_refuses_zero p server shared_key (replicate 4095 0) client_nonce in
    rw (exchange_with_udp_server, run, udp_loop_unread 2 tries h)
      (ap (decrypted zero_buffer) refused)

-- What a request gets instead of a response: the stale response, or the buffer with the code of a
-- network error; if the stale response cannot be packed, that code and nothing.
abbrev pub unread_outcome : DnsLib → Option Msg → Exchange
unread_outcome lib none =
    stopped zero_buffer (some code_network_error) (notice_begin ∷ notice_failure ∷ [])
unread_outcome lib (some msg) = elim (DnsLib.pack lib msg) [
  | none ↦ stopped [] (some code_network_error) (notice_begin ∷ notice_failure ∷ [])
  | some packet ↦ answered packet (notice_begin ∷ [])
]

-- A query that is encrypted for UDP, and to which a server of DNSCrypt sends nothing, is not sent over
-- TCP. The stale response of the cache is used if there is one that can be packed; if there is none
-- the request stops with the code of a network error, and the zeros of the buffer as its response,
-- and if it cannot be packed, with that code and an empty response.
pub dnscrypt_exchange_unread :
    {T : Type 0} (lib : DnsLib) (u : Upstream T) (stale : Option Msg) (query : Bytes)
    (encrypted : Encrypted) (p : Primitives) (server : ServerKeys) (via : Via)
    (network : Bytes → Result (List UdpTry)) (tries : List UdpTry)
    → u.encrypt_query udp query ≡ ok encrypted
    → u.exchange_udp encrypted
      ≡ exchange_with_udp_server p server via network encrypted.key encrypted.packet
          encrypted.client_nonce
    → network (relayed_query via encrypted.packet) ≡ ok tries
    → All IsUnread tries
    → dnscrypt_exchange lib u stale udp query ≡ unread_outcome lib stale
unfolding dnscrypt_exchange over_udp settle failed_exchange network_code retry_over_tcp
dnscrypt_exchange_unread lib u stale query encrypted p server via network tries e x run h =
    let lost =
      x
      ∙ exchange_with_udp_server_unread p server via network tries encrypted.key encrypted.packet
          encrypted.client_nonce run h in
    rw (dnscrypt_exchange, e, lost) (settled stale)
  where
    settled :
        (stale : Option Msg)
        → settle lib u stale (zero_buffer, some invalid_size_or_prefix) ≡ unread_outcome lib stale
    settled none = refl
    settled (some msg) = elim (Option-cases (DnsLib.pack lib msg)) [
      | inl e ↦ rw (settle, unread_outcome, e) refl
      | inr (packet, e) ↦ rw (settle, unread_outcome, e) refl
    ]
