-- ===== src/Common/Framing.antt =====
-- common.go, `PrefixWithSize` and `ReadPrefixed`: packets behind their size on a stream.
use sourcegraph_testing_dnsc.Base.{
  Bool-cases, Bytes, List, Option, [], ap, append_assoc, arith, drop, err, if◌then◌else◌, inl, inr,
  leb, length, length-append, length-take, ltb, none, ok, packet_too_large, refl, some, suc, take,
  take-append, take-append-drop, zero, ℕ, ◌%◌, ◌++◌, ◌+◌, ◌-◌, ◌/◌, ◌<◌, ◌^◌, ◌∷◌, ◌≡◌, ◌≢◌, ◌≤◌,
}
use sourcegraph_testing_dnsc.Common.{
  ReadEvent, chunk, complete, failure, max_dns_packet_size, min_dns_packet_size, packet_length,
  prefix_with_size, put_uint16, read_loop, read_prefixed, uint16,
}

take_front :
    (packet : Bytes) → take (length (packet ++ 0 ∷ 0 ∷ []) - 2) (packet ++ 0 ∷ 0 ∷ []) ≡ packet
take_front packet =
    let e : length (packet ++ 0 ∷ 0 ∷ []) - 2 ≡ length packet =
      omega (arith, length-append packet (0 ∷ 0 ∷ [])) in
    rw e (take-append (length packet) packet _ refl)

length_moved :
    (packet : Bytes) → length (take 2 (packet ++ 0 ∷ 0 ∷ []) ++ packet) - 2 ≡ length packet
length_moved packet = omega (
  arith,
  length-append (take 2 (packet ++ 0 ∷ 0 ∷ [])) packet,
  length-take 2 (packet ++ 0 ∷ 0 ∷ []),
  length-append packet (0 ∷ 0 ∷ []),
)

-- The framed packet: its size in two bytes, then the packet.
abbrev pub frame : Bytes → Bytes
frame packet = (length packet / 256 % 256) ∷ (length packet % 256) ∷ packet

put_uint16_moved :
    (packet : Bytes) (v : ℕ)
    → put_uint16 (take 2 (packet ++ 0 ∷ 0 ∷ []) ++ packet) v ≡ (v / 256 % 256) ∷ (v % 256) ∷ packet
put_uint16_moved [] v = refl
put_uint16_moved (a ∷ []) v = refl
put_uint16_moved (a ∷ b ∷ s) v = refl

framed :
    (packet : Bytes)
    → length packet ≤ 0xffff
    → put_uint16 (take 2 (packet ++ 0 ∷ 0 ∷ []) ++ packet) (length packet % 2 ^ 16) ≡ frame packet
framed packet h =
    let e : length packet % 2 ^ 16 ≡ length packet = omega arith in
    rw e (put_uint16_moved packet (length packet))

-- A packet of at most 65535 bytes is framed by its size; a longer one is refused.
pub prefix_with_size_lem :
    (packet : Bytes)
    → prefix_with_size packet
      ≡ (if ltb 0xffff (length packet) then err packet_too_large else ok (frame packet))
unfolding prefix_with_size
prefix_with_size_lem packet = elim (Bool-cases (ltb 0xffff (length packet))) [
  | inl big ↦ rw big
  | inr small ↦
      rw (small, take_front packet, length_moved packet) (ap ok (framed packet (ground arith)))
]

-- What the chunks of a connection amount to, up to its first failure.
abbrev pub stream : List ReadEvent → Bytes
stream [] = []
stream (failure ∷ events) = []
stream (chunk c ∷ events) = c ++ stream events

-- A list that begins with `xs`, and is at least as long, has `xs` for its front.
take_of_append :
    (xs buf t rest : Bytes)
    → buf ++ t ≡ xs ++ rest
    → length xs ≤ length buf
    → take (length xs) buf ≡ xs
take_of_append [] buf t rest e h = refl
take_of_append (x ∷ xs) [] t rest e h = absurd (omega arith)
take_of_append (x ∷ xs) (y ∷ buf) t rest e h = ground (arith, take_of_append xs buf t rest)

drop_two_of_append :
    (packet buf t rest : Bytes)
    → buf ++ t ≡ frame packet ++ rest
    → 2 + length packet ≤ length buf
    → take (length packet) (drop 2 buf) ≡ packet
drop_two_of_append packet [] t rest e h = absurd (omega arith)
drop_two_of_append packet (a ∷ []) t rest e h = absurd (omega arith)
drop_two_of_append packet (a ∷ b ∷ buf) t rest e h =
    take_of_append packet buf t rest (ground arith) (omega arith)

uint16_of_append :
    (packet buf t rest : Bytes)
    → buf ++ t ≡ frame packet ++ rest
    → 2 ≤ length buf
    → length packet ≤ 0xffff
    → uint16 buf ≡ length packet
uint16_of_append packet [] t rest e h k = absurd (omega arith)
uint16_of_append packet (a ∷ []) t rest e h k = absurd (omega arith)
uint16_of_append packet (a ∷ b ∷ buf) t rest e h k = ground arith

-- What has been read, and the size that is known once two bytes are there.
abbrev Waiting : Bytes → Bytes → Option ℕ → Type 0
Waiting packet buf none = Unit {0}
Waiting packet buf (some n) = (n ≡ length packet) × (2 ≤ length buf)

packet_length_lem :
    (packet buf t rest : Bytes) (len : Option ℕ)
    → min_dns_packet_size ≤ length packet
    → length packet < max_dns_packet_size
    → buf ++ t ≡ frame packet ++ rest
    → Waiting packet buf len
    → packet_length buf len ≡ (if ltb (length buf) 2 then ok none else ok (some (length packet)))
unfolding packet_length
packet_length_lem packet buf t rest none lo hi e w =
    ground (arith, uint16_of_append packet buf t rest e)
packet_length_lem packet buf t rest (some n) lo hi e w = ground arith

complete_lem :
    (packet buf t rest : Bytes)
    → buf ++ t ≡ frame packet ++ rest
    → complete buf (some (length packet))
      ≡ (if leb (2 + length packet) (length buf) then some packet else none)
unfolding complete
complete_lem packet buf t rest e = ground (arith, drop_two_of_append packet buf t rest e)

complete-none : (buf : Bytes) → complete buf none ≡ none
unfolding complete
complete-none buf = refl

-- `take` of more than there is.
take_all {ℓ} : {A : Type ℓ} (n : ℕ) (xs : List A) → length xs ≤ n → take n xs ≡ xs
take_all zero [] h = refl
take_all zero (x ∷ xs) h = absurd (omega arith)
take_all (suc n) [] h = refl
take_all (suc n) (x ∷ xs) h = ap (λ t. x ∷ t) (take_all n xs (omega arith))

Waiting-append :
    (packet buf more : Bytes) (len : Option ℕ)
    → Waiting packet buf len
    → Waiting packet (buf ++ more) len
Waiting-append packet buf more none w = tt
Waiting-append packet buf more (some n) w = (w.0, omega (arith, w.1, length-append buf more))

-- One round: the packet is there, or the loop goes on with what the chunk held.
read_step :
    (packet rest c : Bytes) (events : List ReadEvent) (buf t : Bytes) (len : Option ℕ)
    → min_dns_packet_size ≤ length packet
    → length packet < max_dns_packet_size
    → (buf ++ take (2 + max_dns_packet_size - length buf) c) ++ t ≡ frame packet ++ rest
    → Waiting packet buf len
    → read_loop (chunk c ∷ events) buf len ≡ (
        if leb (2 + length packet) (length (buf ++ take (2 + max_dns_packet_size - length buf) c))
        then ok packet
        else read_loop events (buf ++ take (2 + max_dns_packet_size - length buf) c) (
            if ltb (length (buf ++ take (2 + max_dns_packet_size - length buf) c)) 2
            then none
            else some (length packet)))
unfolding read_loop
read_step packet rest c events buf t len lo hi e w =
    let buf' = buf ++ take (2 + max_dns_packet_size - length buf) c in
    ground (
      arith,
      packet_length_lem packet buf' t rest len lo hi e (Waiting-append packet buf _ len w),
      complete_lem packet buf' t rest e,
      complete-none buf',
    )

Waiting-some :
    (packet buf : Bytes)
    → Waiting packet buf (if ltb (length buf) 2 then none else some (length packet))
Waiting-some packet buf = elim (Bool-cases (ltb (length buf) 2)) [
  | inl few ↦ rw few tt
  | inr two ↦ rw two (refl, ground arith)
]

short :
    (packet rest buf : Bytes) → length buf < 2 + length packet → buf ++ [] ≢ frame packet ++ rest
short packet rest buf h e =
    absurd (omega (arith, length-append buf [], length-append (frame packet) rest, ap length e))

-- What the round read and what is left of the stream are still the frame and its rest.
after_round :
    (n : ℕ) (packet rest buf c : Bytes) (events : List ReadEvent)
    → buf ++ (c ++ stream events) ≡ frame packet ++ rest
    → (buf ++ take n c) ++ (drop n c ++ stream events) ≡ frame packet ++ rest
after_round n packet rest buf c events e =
    rw (append_assoc, ← append_assoc (take n c) (drop n c) (stream events), take-append-drop n c) e

read_loop-frame :
    (packet rest : Bytes) (events : List ReadEvent) (buf : Bytes) (len : Option ℕ)
    → min_dns_packet_size ≤ length packet
    → length packet < max_dns_packet_size
    → buf ++ stream events ≡ frame packet ++ rest
    → length buf < 2 + length packet
    → Waiting packet buf len
    → read_loop events buf len ≡ ok packet
read_loop-frame packet rest [] buf len lo hi e b w = absurd (short packet rest buf b e)
read_loop-frame packet rest (failure ∷ events) buf len lo hi e b w =
    absurd (short packet rest buf b e)
read_loop-frame packet rest (chunk c ∷ events) buf len lo hi e b w =
    let n = 2 + max_dns_packet_size - length buf in
    let buf' = buf ++ take n c in
    let step =
      read_step packet rest c events buf (drop n c ++ stream events) len lo hi
        (after_round n packet rest buf c events e) w in
    elim (Bool-cases (leb (2 + length packet) (length buf'))) [
      | inl there ↦ rw (step, there)
      | inr more ↦
          let all : take n c ≡ c =
            take_all n c (ground (arith, length-append buf (take n c), length-take n c)) in
          let len' : Option ℕ = (if ltb (length buf') 2 then none else some (length packet)) in
          rw (step, more)
            (read_loop-frame packet rest events buf' len' lo hi (rw (all, append_assoc) e)
              (ground arith) (Waiting-some packet buf'))
    ]

-- `ReadPrefixed` reassembles a framed packet of 17 to 4095 bytes, however the connection cuts the
-- stream into chunks and whatever follows the packet.
pub read_prefixed-frame :
    (packet rest : Bytes) (events : List ReadEvent)
    → min_dns_packet_size ≤ length packet
    → length packet < max_dns_packet_size
    → stream events ≡ frame packet ++ rest
    → read_prefixed events ≡ ok packet
unfolding read_prefixed
read_prefixed-frame packet rest events lo hi e =
    read_loop-frame packet rest events [] none lo hi e (omega arith) tt
