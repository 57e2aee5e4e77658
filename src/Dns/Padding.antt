-- ===== src/Dns/Padding.antt =====
-- dnscrypt-proxy/dnsutils.go and plugins.go: the EDNS0 padding of queries for DoH and ODoH, and the
-- header fields read from packets.
use sourcegraph_testing_dnsc.Base.{
  Bool, Bytes, List, Result, [], arith, drop, err, false, get_elem?, if◌then◌else◌, length, none,
  ok, pack_failed, refl, replicate, set, some, true, unpack_failed, ℕ, ◌%◌, ◌*◌, ◌++◌, ◌+◌, ◌-◌,
  ◌/◌, ◌<◌, ◌==◌, ◌^◌, ◌||◌, ◌∷◌, ◌≡◌, ◌≤◌,
}
use sourcegraph_testing_dnsc.Dns.{DnsLib, Edns, EdnsOption, Msg}
use sourcegraph_testing_dnsc.Common.{max_dns_packet_size}

abbrev pub edns0_padding : ℕ
edns0_padding = 12

pub has_padding : List EdnsOption → Bool
has_padding [] = false
has_padding (o ∷ os) = o.code == edns0_padding || has_padding os

module _ (lib : DnsLib) where
  open lib use {unpack, pack, is_edns0, set_edns0, set_options}

  pub has_edns0_padding : Bytes → Result Bool
  unfolding has_padding
  has_edns0_padding packet = elim (unpack packet) [
    | none ↦ err unpack_failed
    | some msg ↦ elim (is_edns0 msg) [ none ↦ ok false | some edns ↦ ok (has_padding edns.options) ]
  ]

  -- The OPT record is there: `unpadded` is returned where it has padding already.
  pad_options : Msg → Edns → Bytes → ℕ → Msg × Result Bytes
  unfolding has_padding
  pad_options msg edns unpadded padding_len =
      let padding : EdnsOption = record {
        code = edns0_padding;
        payload = replicate padding_len 88;
      } in
      let padded = set_options (edns.options ++ padding ∷ []) msg in
      if has_padding edns.options
      then (msg, ok unpadded)
      else (padded, elim (pack padded) [ none ↦ err pack_failed | some bytes ↦ ok bytes ])

  -- The message as the call leaves it, with what the call returns.
  unfoldable pub add_edns0_padding_if_none_found : Msg → Bytes → ℕ → Msg × Result Bytes
  unfolding pad_options
  add_edns0_padding_if_none_found msg unpadded padding_len = elim (is_edns0 msg) [
    | some edns ↦ pad_options msg edns unpadded padding_len
    | none ↦
        let msg = set_edns0 max_dns_packet_size false msg in
        elim (is_edns0 msg) [
          | some edns ↦ pad_options msg edns unpadded padding_len
          | none ↦ (msg, ok unpadded)
        ]
  ]

  unfoldable pub remove_edns0_options : Msg → Msg × Bool
  remove_edns0_options msg = elim (is_edns0 msg) [
    | none ↦ (msg, false)
    | some edns ↦ (set_options [] msg, true)
  ]

-- `63 - ((len + 63) & 63)`: the mask is a remainder.
unfoldable pub pad_len : ℕ → ℕ
pad_len n = 63 - (n + 63) % 64

-- What the padding option is to bring the packet to, and the least such.
pub pad_len_aligns : (n : ℕ) → ((n + pad_len n) % 64 ≡ 0) × (pad_len n ≤ 63)
unfolding pad_len
pad_len_aligns n = (omega arith, omega arith)

abbrev pub byte_at : Bytes → ℕ → ℕ
byte_at s i = elim (get_elem? s i) [ none ↦ 0 | some b ↦ b ]

unfoldable pub has_tc_flag : Bytes → Bool
has_tc_flag packet = byte_at packet 2 / 2 % 2 == 1

unfoldable pub transaction_id : Bytes → ℕ
transaction_id packet = byte_at packet 0 * 2 ^ 8 + byte_at packet 1

unfoldable pub set_transaction_id : Bytes → ℕ → Bytes
set_transaction_id packet tid = set (set packet 0 (tid / 2 ^ 8 % 2 ^ 8)) 1 (tid % 2 ^ 8)

unfoldable pub rcode_of : Bytes → ℕ
rcode_of packet = byte_at packet 3 % 16

-- Setting the number of a packet is read back, and neither the length nor any later byte changes.
pub transaction_id-set :
    (packet : Bytes) (tid : ℕ)
    → 2 ≤ length packet
    → tid < 2 ^ 16
    → (transaction_id (set_transaction_id packet tid) ≡ tid)
      × (length (set_transaction_id packet tid) ≡ length packet)
      × (drop 2 (set_transaction_id packet tid) ≡ drop 2 packet)
unfolding transaction_id set_transaction_id
transaction_id-set [] tid h b = absurd (omega arith)
transaction_id-set (x ∷ []) tid h b = absurd (omega arith)
transaction_id-set (x ∷ y ∷ s) tid h b = (omega arith, refl, refl)
