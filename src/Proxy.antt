-- ===== src/Proxy.antt =====
-- dnscrypt-proxy/proxy.go: the exchange with a server of DNSCrypt. What the network does is an
-- argument: what becomes of each try, and what is read from a connection.
pub mod Clients
pub mod Admission
pub mod Timeouts
pub mod Upstream
pub mod Requests
pub mod Replies
pub mod Hidden
mod Tests
use sourcegraph_testing_dnsc.Base.{
  Bytes, Error, List, Option, Result, [], err, none, ok, replicate, some, suc, take, write_failed,
  zero, ℕ, ◌%◌, ◌++◌, ◌/◌, ◌^◌, ◌∷◌,
}
use sourcegraph_testing_dnsc.Common.{
  ReadEvent, max_dns_packet_size, prefix_with_size, read_prefixed,
}
use sourcegraph_testing_dnsc.Crypto.{Primitives, ServerKeys, decrypt}

abbrev anonymized_dns_header : Bytes
anonymized_dns_header = replicate 8 0xff ++ 0x00 ∷ 0x00 ∷ []

-- `prepareForRelay`: the server's address, as sixteen bytes, and its port before the query.
unfoldable pub prepare_for_relay : Bytes → ℕ → Bytes → Bytes
prepare_for_relay ip16 port encrypted_query =
    anonymized_dns_header
    ++ (ip16 ++ (port % 2 ^ 16 / 256 % 256 ∷ port % 2 ^ 16 % 256 ∷ encrypted_query))

-- One round over UDP: the query cannot be sent, nothing is read in time, or a datagram is.
pub data UdpTry : Type 0 where
  not_sent nothing_read : UdpTry
  datagram : Bytes → UdpTry

-- The relay of a server, if it has one: the address and the port that go before the query.
abbrev pub Via : Type 0
Via = Option (Bytes × ℕ)

abbrev pub relayed_query : Via → Bytes → Bytes
relayed_query none query = query
relayed_query (some (ip16, port)) query = prepare_for_relay ip16 port query

-- The loop of two tries. The buffer is full of zeros until something is read.
unfoldable pub udp_loop : ℕ → List UdpTry → Result Bytes
udp_loop zero tries = ok (replicate max_dns_packet_size 0)
udp_loop (suc left) [] = udp_loop left []
udp_loop (suc left) (not_sent ∷ tries) = err write_failed
udp_loop (suc left) (nothing_read ∷ tries) = udp_loop left tries
udp_loop (suc left) (datagram d ∷ tries) = ok (take max_dns_packet_size d)

-- What an exchange returns: a response, and perhaps an error beside it.
abbrev pub Received : Type 0
Received = Bytes × Option Error

-- `Decrypt` returns its input beside an error.
unfoldable pub decrypted : Bytes → Result Bytes → Received
decrypted encrypted_response (ok response) = (response, none)
decrypted encrypted_response (err e) = (encrypted_response, some e)

module _ (p : Primitives) (server : ServerKeys) (via : Via) where
  -- The network is given the query as it is sent; an error is one of the connection.
  unfoldable pub exchange_with_udp_server :
      (Bytes → Result (List UdpTry)) → Bytes → Bytes → Bytes → Received
  unfolding decrypted
  exchange_with_udp_server network shared_key encrypted_query client_nonce =
      elim (network (relayed_query via encrypted_query)) [
        | err e ↦ ([], some e)
        | ok tries ↦ elim (udp_loop 2 tries) [
          | err e ↦ ([], some e)
          | ok encrypted_response ↦
              decrypted encrypted_response
                (decrypt p server shared_key encrypted_response client_nonce)
        ]
      ]

  unfoldable pub exchange_with_tcp_server :
      (Bytes → Result (List ReadEvent)) → Bytes → Bytes → Bytes → Received
  unfolding decrypted
  exchange_with_tcp_server network shared_key encrypted_query client_nonce =
      elim (prefix_with_size (relayed_query via encrypted_query)) [
        | err e ↦ ([], some e)
        | ok packet ↦ elim (network packet) [
          | err e ↦ ([], some e)
          | ok events ↦ elim (read_prefixed events) [
            | err e ↦ ([], some e)
            | ok encrypted_response ↦
                decrypted encrypted_response
                  (decrypt p server shared_key encrypted_response client_nonce)
          ]
        ]
      ]
