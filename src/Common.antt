-- ===== src/Common.antt =====
-- dnscrypt-proxy/common.go: the constants of the protocol, size-prefixed packets and text helpers.
-- Text is ASCII: a rune is a byte.
pub mod Framing
pub mod Bounds
pub mod Fields
pub mod Reversal
mod Tests
use sourcegraph_testing_dnsc.Base.{
  Bool, Bytes, List, Option, Result, [], atoi, drop, err, false, get_elem?, has_prefix,
  if◌then◌else◌, index_func, is_space, last_index_byte, leb, length, ltb, none, ok,
  packet_too_large, packet_too_short, read_failed, set, some, suc, take, trim_space, true, zero, ℕ,
  ℤ, ◌%◌, ◌*◌, ◌++◌, ◌+◌, ◌-◌, ◌/◌, ◌==◌, ◌^◌, ◌||◌, ◌∷◌,
}

abbrev pub client_magic_len : ℕ
client_magic_len = 8

abbrev pub cert_magic : Bytes
cert_magic = 0x44 ∷ 0x4e ∷ 0x53 ∷ 0x43 ∷ []

abbrev pub server_magic : Bytes
server_magic = 0x72 ∷ 0x36 ∷ 0x66 ∷ 0x6e ∷ 0x76 ∷ 0x57 ∷ 0x6a ∷ 0x38 ∷ []

abbrev pub min_dns_packet_size : ℕ
min_dns_packet_size = 12 + 5

abbrev pub max_dns_packet_size : ℕ
max_dns_packet_size = 4096

abbrev pub max_dns_udp_packet_size : ℕ
max_dns_udp_packet_size = 4096

abbrev pub max_dns_udp_safe_packet_size : ℕ
max_dns_udp_safe_packet_size = 1252

abbrev pub initial_min_question_size : ℕ
initial_min_question_size = 512

unfoldable pub min : ℕ → ℕ → ℕ
min a b = if ltb a b then a else b

unfoldable pub max : ℕ → ℕ → ℕ
max a b = if ltb b a then a else b

-- `binary.BigEndian.Uint16` and `PutUint16` on the first two bytes.
abbrev pub uint16 : Bytes → ℕ
uint16 (a ∷ b ∷ s) = a * 256 + b
uint16 _ = 0

abbrev pub put_uint16 : Bytes → ℕ → Bytes
put_uint16 (a ∷ b ∷ s) v = (v / 256 % 256) ∷ (v % 256) ∷ s
put_uint16 s v = s

-- Two zero bytes are appended, the packet is moved up by two, and its size is written in front.
unfoldable pub prefix_with_size : Bytes → Result Bytes
prefix_with_size packet =
    let extended = packet ++ 0 ∷ 0 ∷ [] in
    let moved = take 2 extended ++ take (length extended - 2) extended in
    if ltb 0xffff (length packet)
    then err packet_too_large
    else ok (put_uint16 moved ((length moved - 2) % 2 ^ 16))

-- What one `Read` on a connection gives: bytes, or an error.
pub data ReadEvent : Type 0 where
  chunk : Bytes → ReadEvent
  failure : ReadEvent

-- `packetLength` is `none` until two bytes are there; the error cases are early returns.
packet_length : Bytes → Option ℕ → Result (Option ℕ)
packet_length buf (some n) = ok (some n)
packet_length buf none =
    let n = uint16 buf in
    if ltb (length buf) 2
    then ok none
    else if ltb (max_dns_packet_size - 1) n
    then err packet_too_large
    else if ltb n min_dns_packet_size
    then err packet_too_short
    else ok (some n)

-- The packet, once all of it is there.
complete : Bytes → Option ℕ → Option Bytes
complete buf none = none
complete buf (some n) = if leb (2 + n) (length buf) then some (take n (drop 2 buf)) else none

-- `buf` is what has been read; a read fills at most what is left of the 2 + 4096 bytes.
-- A connection that gives nothing more ends in an error.
read_loop : List ReadEvent → Bytes → Option ℕ → Result Bytes
read_loop [] buf len = err read_failed
read_loop (failure ∷ events) buf len = err read_failed
read_loop (chunk c ∷ events) buf len =
    let buf' = buf ++ take (2 + max_dns_packet_size - length buf) c in
    elim (packet_length buf' len) [
      | err e ↦ err e
      | ok len' ↦ elim (complete buf' len') [
        | some packet ↦ ok packet
        | none ↦ read_loop events buf' len'
      ]
    ]

pub read_prefixed : List ReadEvent → Result Bytes
read_prefixed events = read_loop events [] none

-- `r[i], r[j] = r[j], r[i]`; out of range does not occur in the loop.
swap : List ℕ → ℕ → ℕ → List ℕ
swap r i j = elim (get_elem? r i) [
  | none ↦ r
  | some a ↦ elim (get_elem? r j) [ none ↦ r | some b ↦ set (set r i b) j a ]
]

-- `for i, j := 0, len(r)-1; i < len(r)/2; i, j = i+1, j-1`, on the rounds that are left.
reverse_loop : ℕ → ℕ → ℕ → List ℕ → List ℕ
reverse_loop zero i j r = r
reverse_loop (suc rounds) i j r = reverse_loop rounds (i + 1) (j - 1) (swap r i j)

unfoldable pub string_reverse : Bytes → Bytes
unfolding reverse_loop swap
string_reverse s = reverse_loop (length s / 2) 0 (length s - 1) s

unfoldable pub string_two_fields : Bytes → Bytes × Bytes × Bool
string_two_fields str =
    if ltb (length str) 3 then ([], [], false) else elim (index_func str is_space) [
      | none ↦ ([], [], false)
      | some at ↦
          let a = trim_space (take at str) in
          let b = trim_space (drop (at + 1) str) in
          if length a == 0 || length b == 0 then (a, b, false) else (a, b, true)
    ]

unfoldable pub string_strip_spaces : Bytes → Bytes
string_strip_spaces [] = []
string_strip_spaces (c ∷ s) =
    if is_space c then string_strip_spaces s else c ∷ string_strip_spaces s

-- The text in front of a comment, if the byte before its `#` is a blank.
before_comment : Bytes → ℕ → Bytes
before_comment str idx = elim (get_elem? str (idx - 1)) [
  | none ↦ str
  | some prev ↦ if prev == b' ' || prev == b'\t' then take (idx - 1) str else str
]

unfoldable pub trim_and_strip_inline_comments : Bytes → Bytes
unfolding before_comment
trim_and_strip_inline_comments str = elim (last_index_byte str b'#') [
  | none ↦ trim_space str
  | some idx ↦
      if idx == 0 || has_prefix str (b'#' ∷ []) then [] else trim_space (before_comment str idx)
]

unfoldable pub extract_host_and_port : Bytes → ℤ → Bytes × ℤ
extract_host_and_port str default_port = elim (last_index_byte str b':') [
  | none ↦ (str, default_port)
  | some idx ↦
      if ltb idx (length str - 1)
      then elim (atoi (drop (idx + 1) str)) [
        | none ↦ (str, default_port)
        | some port ↦ (take idx str, port)
      ]
      else (str, default_port)
]
