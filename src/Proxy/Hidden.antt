-- ===== src/Proxy/Hidden.antt =====
-- proxy.go: what a server of DoH and a relay see of a query.
use sourcegraph_testing_dnsc.Base.{
  Bool, Bool-cases, Bytes, List, Option, Result, Result-cases, [], ap, append_assoc, arith, drop,
  drop-append, err, false, inl, inr, leb, length, length-append, none, ok, some, sym, take,
  take-append, true, ℕ, ◌%◌, ◌++◌, ◌/◌, ◌<◌, ◌^◌, ◌∙◌, ◌∷◌, ◌≡◌, ◌≤◌,
}
use sourcegraph_testing_dnsc.Common.{min_dns_packet_size, uint16}
use sourcegraph_testing_dnsc.Dns.{DnsLib, Msg}
use sourcegraph_testing_dnsc.Dns.Padding.{set_transaction_id, transaction_id, transaction_id-set}
use sourcegraph_testing_dnsc.Proxy.{prepare_for_relay}
use sourcegraph_testing_dnsc.Proxy.Upstream.{
  Exchange, Notice, Upstream, answered, doh_exchange, doh_response, exited, is_complete,
  notice_begin, packed, restore_id, stopped,
}

-- An exchange that is answered with a packet that has room for a header has the number of the query.
abbrev pub HasId : ℕ → Exchange → Type 0
HasId tid exited = Unit {0}
HasId tid (stopped response code notices) = Unit {0}
HasId tid (answered response notices) =
    min_dns_packet_size ≤ length response → transaction_id response ≡ tid

restore_id-HasId :
    (tid : ℕ) (r : Bytes) (notices : List Notice)
    → tid < 2 ^ 16
    → HasId tid (answered (restore_id tid r) notices)
unfolding restore_id
restore_id-HasId tid r notices small = elim (Bool-cases (leb min_dns_packet_size (length r))) [
  | inl e ↦ rw e (λ long. (transaction_id-set r tid (longer r e) small).0)
  | inr e ↦ rw e (λ long. absurd (shorter (length r) e long))
]
  where
    longer : (s : Bytes) → leb min_dns_packet_size (length s) ≡ true → 2 ≤ length s
    longer s e = go (length s) e
      where
        go : (n : ℕ) → leb min_dns_packet_size n ≡ true → 2 ≤ n
        go n e = ground arith

    shorter : (n : ℕ) → leb min_dns_packet_size n ≡ false → min_dns_packet_size ≤ n → ⊥
    shorter n e le = ground arith

module _ {T : Type 0} (lib : DnsLib) (u : Upstream T) where
  doh_response-HasId :
      (tid : ℕ) (r : Result (Bytes × Bool)) → tid < 2 ^ 16 → HasId tid (doh_response lib u tid r)
  unfolding doh_response
  doh_response-HasId tid (err e) small = tt
  doh_response-HasId tid (ok (body, complete)) small =
      restore_id-HasId tid body (notice_begin ∷ []) small

  staled-HasId :
      (tid : ℕ) (r : Result (Bytes × Bool)) (stale : Option Msg)
      → tid < 2 ^ 16
      → HasId tid (elim stale [
        | none ↦ doh_response lib u tid r
        | some msg ↦ elim (packed lib u msg) [
          | err e ↦ doh_response lib u tid (err e)
          | ok response ↦ answered (restore_id tid response) (notice_begin ∷ [])
        ]
      ])
  staled-HasId tid r none small = doh_response-HasId tid r small
  staled-HasId tid r (some msg) small = elim (Result-cases (packed lib u msg)) [
    | inr (e, h) ↦ rw h (doh_response-HasId tid (err e) small)
    | inl (response, h) ↦ rw h (restore_id-HasId tid response (notice_begin ∷ []) small)
  ]

  -- The response of a server of DoH, or the stale one in its place, is passed on with the number of
  -- the query.
  pub doh_exchange-HasId :
      (stale : Option Msg) (query : Bytes)
      → transaction_id query < 2 ^ 16
      → HasId (transaction_id query) (doh_exchange lib u stale query)
  unfolding doh_exchange
  doh_exchange-HasId stale query small =
      let tid = transaction_id query in
      let r = u.doh_query (set_transaction_id query 0) in
      elim (Bool-cases (is_complete lib u r)) [
        | inl e ↦ rw (doh_exchange, e) (doh_response-HasId tid r small)
        | inr e ↦ rw (doh_exchange, e) (staled-HasId tid r stale small)
      ]

-- A relay finds the address and the port of the server at their places, and the query after them.
pub prepare_for_relay_lem :
    (ip16 : Bytes) (port : ℕ) (query : Bytes)
    → length ip16 ≡ 16
    → port < 2 ^ 16
    → (take 16 (drop 10 (prepare_for_relay ip16 port query)) ≡ ip16)
      × (uint16 (drop 26 (prepare_for_relay ip16 port query)) ≡ port)
      × (drop 28 (prepare_for_relay ip16 port query) ≡ query)
unfolding prepare_for_relay
prepare_for_relay_lem ip16 port query long small = (
  take-append 16 ip16 _ long,
  ap uint16 (drop-append 16 ip16 _ long) ∙ omega arith,
  ap (drop 18) (sym (append_assoc ip16 (two port) query))
      ∙ drop-append 18 (ip16 ++ two port) query (omega (arith, length-append ip16 (two port))),
)
  where
    two : ℕ → Bytes
    two port = port % 2 ^ 16 / 256 % 256 ∷ port % 2 ^ 16 % 256 ∷ []
