-- ===== src/Common/Tests.antt =====
-- common.go at concrete inputs.
use sourcegraph_testing_dnsc.Base.{
  Bytes, List, [], arith, codes, err, ok, packet_too_short, pos, refl, ◌++◌, ◌∷◌, ◌≡◌,
}
use sourcegraph_testing_dnsc.Common.Framing.{read_prefixed-frame}
use sourcegraph_testing_dnsc.Common.{
  ReadEvent, chunk, complete, extract_host_and_port, failure, packet_length, prefix_with_size,
  read_loop, read_prefixed, reverse_loop, string_reverse, swap, trim_and_strip_inline_comments,
}

abbrev seventeen : Bytes
seventeen = codes "seventeen bytes!!"

-- The frame of the packet comes in three pieces, with two bytes of the next one.
abbrev pieces : List ReadEvent
pieces =
    chunk (0 ∷ [])
    ∷ chunk (17 ∷ codes "seventeen by")
    ∷ chunk (codes "tes!!" ++ 0 ∷ 9 ∷ [])
    ∷ failure
    ∷ []

read_pieces : read_prefixed pieces ≡ ok seventeen
unfolding read_prefixed read_loop packet_length complete
read_pieces = refl

read_short : read_prefixed (chunk (0 ∷ 3 ∷ 1 ∷ 2 ∷ 3 ∷ []) ∷ []) ≡ err packet_too_short
unfolding read_prefixed read_loop packet_length complete
read_short = refl

prefix_seventeen : prefix_with_size seventeen ≡ ok (0 ∷ 17 ∷ seventeen)
unfolding prefix_with_size
prefix_seventeen = refl

reversed : string_reverse (codes "example") ≡ codes "elpmaxe"
unfolding string_reverse reverse_loop swap
reversed = refl

stripped : trim_and_strip_inline_comments (codes " a.com # x") ≡ codes "a.com"
unfolding trim_and_strip_inline_comments
stripped = refl

-- A `#` with no blank before it is kept.
kept : trim_and_strip_inline_comments (codes "a#b") ≡ codes "a#b"
unfolding trim_and_strip_inline_comments
kept = refl

host_only : extract_host_and_port (codes "::1") (pos 53) ≡ (codes ":", pos 1)
unfolding extract_host_and_port
host_only = refl

read_prefixed-frame_example : read_prefixed pieces ≡ ok seventeen
read_prefixed-frame_example =
    read_prefixed-frame seventeen (0 ∷ 9 ∷ []) pieces (omega arith) (omega arith) refl
