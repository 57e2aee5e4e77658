-- ===== src/Crypto/Responses.antt =====
-- crypto.go, `Decrypt`: what it accepts, and that it opens what a server sealed.
use mathlib.Core.Path.{subst}
use sourcegraph_testing_dnsc.Base.{
  Bool, Bool-cases, Bytes, Error, Option, Result-cases, [], ap, append-nil, arith, bytes_eq,
  bytes_eq_refl, bytes_eq→eq, drop, drop-append, err, false, incorrect_padding, inl, inr,
  invalid_size_or_prefix, length, length-append, le→ltb, none, not, ok, refl, replicate, some, sym,
  take, take-append, true, ℕ, ◌++◌, ◌+◌, ◌||◌, ◌∙◌, ◌∷◌, ◌≡◌, ◌≢◌, ◌≤◌,
}
use sourcegraph_testing_dnsc.Common.{max_dns_packet_size, min_dns_packet_size, server_magic}
use sourcegraph_testing_dnsc.Crypto.Padding.{length-pad, unpad-pad, unpad_sound}
use sourcegraph_testing_dnsc.Crypto.{
  IsSealing, Primitives, ServerKeys, bad_nonce, bad_size_or_prefix, decrypt, finish,
  half_nonce_size, nonce_size, pad, response_header_len, tag_size, unpad,
}

finish_err :
    (padded : Bytes) (x : Error)
    → unpad padded ≡ err x
    → finish (some padded) ≡ err incorrect_padding
unfolding finish
finish_err padded x e = rw (e, finish)

finish-some :
    (padded packet : Bytes)
    → unpad padded ≡ ok packet
    → min_dns_packet_size ≤ length packet
    → finish (some padded) ≡ ok packet
unfolding finish
finish-some padded packet e h = rw (finish, e) (ground arith)

finish_ok :
    (o : Option Bytes) (packet : Bytes)
    → finish o ≡ ok packet
    → (padded : Bytes) × (o ≡ some padded)
      × (unpad padded ≡ ok packet)
      × (min_dns_packet_size ≤ length packet)
unfolding finish
finish_ok none packet h = cc
finish_ok (some padded) packet h = elim (Result-cases (unpad padded)) [
  | inl (q, e) ↦ (padded, refl, ground arith, ground arith)
  | inr (x, e) ↦ cc (finish_err padded x e)
]

-- The checks in front of the opening, as facts about a message.
good_prefix :
    (encrypted : Bytes)
    → bad_size_or_prefix encrypted ≡ false
    → take (length server_magic) encrypted ≡ server_magic
unfolding bad_size_or_prefix
good_prefix encrypted h = bytes_eq→eq _ _ (not_false (or_false _ _ h).1)
  where
    not_false : {b : Bool} → not b ≡ false → b ≡ true
    not_false {b = true} e = refl
    not_false {b = false} e = cc

    or_false : (a b : Bool) → (a || b) ≡ false → (a ≡ false) × (b ≡ false)
    or_false true b e = cc
    or_false false b e = (refl, e)

good_size_and_prefix :
    (encrypted : Bytes)
    → response_header_len + tag_size + min_dns_packet_size ≤ length encrypted
    → length encrypted ≤ response_header_len + tag_size + max_dns_packet_size
    → take (length server_magic) encrypted ≡ server_magic
    → bad_size_or_prefix encrypted ≡ false
unfolding bad_size_or_prefix
good_size_and_prefix encrypted lo hi e =
    rw
      (
        le→ltb (length encrypted) (response_header_len + tag_size + min_dns_packet_size) lo,
        le→ltb (response_header_len + tag_size + max_dns_packet_size) (length encrypted) hi,
        e,
      )
      refl

good_nonce :
    (nonce server_nonce : Bytes)
    → bad_nonce nonce server_nonce ≡ false
    → take half_nonce_size nonce ≡ take half_nonce_size server_nonce
unfolding bad_nonce
good_nonce nonce server_nonce h =
    elim (Bool-cases (bytes_eq (take half_nonce_size nonce) (take half_nonce_size server_nonce))) [
      | inl e ↦ bytes_eq→eq _ _ e
      | inr e ↦ absurd (true_ne_false (sym (ap not e) ∙ h))
    ]
  where
    true_ne_false : true ≢ false
    true_ne_false e = cc

same_nonce :
    (nonce server_nonce : Bytes)
    → take half_nonce_size nonce ≡ take half_nonce_size server_nonce
    → bad_nonce nonce server_nonce ≡ false
unfolding bad_nonce
same_nonce nonce server_nonce e = ap not (
    subst (λ t. bytes_eq (take half_nonce_size nonce) t ≡ true) e
      (bytes_eq_refl (take half_nonce_size nonce)))

decrypt_guards :
    (p : Primitives) (server : ServerKeys) (key encrypted nonce packet : Bytes)
    → let server_nonce = take nonce_size (drop (length server_magic) encrypted) in
      decrypt p server key encrypted nonce ≡ ok packet
      → (bad_size_or_prefix encrypted ≡ false)
        × (bad_nonce nonce server_nonce ≡ false)
        × (finish (
              Primitives.unseal p server.construction server_nonce
                (drop response_header_len encrypted)
                key)
            ≡ ok packet)
unfolding decrypt
decrypt_guards p server key encrypted nonce packet h = ground arith

-- Whatever comes in, a response is returned only if it begins with the server's magic, its nonce
-- begins with the client's half, its sealed part opens to the padded response, and the response has
-- at least 17 bytes.
pub decrypt_sound :
    (p : Primitives) (server : ServerKeys) (key encrypted nonce packet : Bytes)
    → decrypt p server key encrypted nonce ≡ ok packet
    → (take (length server_magic) encrypted ≡ server_magic)
      × (take half_nonce_size nonce
          ≡ take half_nonce_size (take nonce_size (drop (length server_magic) encrypted)))
      × (min_dns_packet_size ≤ length packet)
      × (n : ℕ) × (Primitives.unseal p server.construction
            (take nonce_size (drop (length server_magic) encrypted))
            (drop response_header_len encrypted)
            key
          ≡ some (packet ++ 0x80 ∷ replicate n 0))
unfolding decrypt
decrypt_sound p server key encrypted nonce packet h =
    let server_nonce = take nonce_size (drop (length server_magic) encrypted) in
    let opened =
      Primitives.unseal p server.construction server_nonce (drop response_header_len encrypted)
        key in
    let (magic, half, finished) = decrypt_guards p server key encrypted nonce packet h in
    let (padded, e, u, size) = finish_ok opened packet finished in
    let (n, shape) = unpad_sound padded packet u in
    (good_prefix encrypted magic, good_nonce nonce server_nonce half, size, n, e ∙ ap some shape)

decrypt_of :
    (p : Primitives) (server : ServerKeys) (key encrypted nonce server_nonce body packet : Bytes)
    → bad_size_or_prefix encrypted ≡ false
    → take nonce_size (drop (length server_magic) encrypted) ≡ server_nonce
    → drop response_header_len encrypted ≡ body
    → bad_nonce nonce server_nonce ≡ false
    → finish (Primitives.unseal p server.construction server_nonce body key) ≡ ok packet
    → decrypt p server key encrypted nonce ≡ ok packet
unfolding decrypt
decrypt_of p server key encrypted nonce server_nonce body packet good n b half f =
    rw (good, n, b, half) f

-- The client's half stands in front.
front_nonce :
    (nonce half : Bytes)
    → length nonce ≡ half_nonce_size
    → take half_nonce_size nonce ≡ take half_nonce_size (nonce ++ half)
front_nonce nonce half h =
    rw (append-nil nonce) at (take-append half_nonce_size nonce [] h)
    ∙ sym (take-append half_nonce_size nonce half h)

-- A response that a server sealed for a query, with the client's half in front of its own, is
-- opened to the packet.
pub decrypt-sealed :
    (p : Primitives)
    → IsSealing p
    → (server : ServerKeys) (key nonce half packet : Bytes) (min_size : ℕ)
    → length nonce ≡ half_nonce_size
    → length half ≡ half_nonce_size
    → min_dns_packet_size ≤ length packet
    → length packet + 1 ≤ min_size
    → min_size ≤ max_dns_packet_size
    → decrypt p server key
        (server_magic
          ++ ((nonce ++ half)
              ++ Primitives.seal p server.construction (nonce ++ half) (pad packet min_size) key))
        nonce
      ≡ ok packet
decrypt-sealed p laws server key nonce half packet min_size hn hh lo fits hi =
    let padded = pad packet min_size in
    let body = Primitives.seal p server.construction (nonce ++ half) padded key in
    let nonces : length (nonce ++ half) ≡ nonce_size = omega (arith, length-append nonce half) in
    let total : length ((nonce ++ half) ++ body) ≡ nonce_size + (min_size + tag_size) = omega (
      arith,
      nonces,
      length-append (nonce ++ half) body,
      laws.length-seal server.construction (nonce ++ half) padded key,
      length-pad packet min_size fits,
    ) in
    decrypt_of p server key (server_magic ++ ((nonce ++ half) ++ body)) nonce (nonce ++ half) body
      packet (good_size_and_prefix _ (omega (arith, total)) (omega (arith, total)) refl)
      (take-append nonce_size (nonce ++ half) body nonces)
      (drop-append nonce_size (nonce ++ half) body nonces)
      (same_nonce nonce (nonce ++ half) (front_nonce nonce half hn))
      (rw (laws.unseal-seal server.construction (nonce ++ half) padded key)
        (finish-some padded packet (unpad-pad packet min_size) lo))

-- A response that begins with a zero is refused for its prefix.
pub decrypt_refuses_zero :
    (p : Primitives) (server : ServerKeys) (key rest nonce : Bytes)
    → decrypt p server key (0 ∷ rest) nonce ≡ err invalid_size_or_prefix
unfolding decrypt bad_size_or_prefix
decrypt_refuses_zero p server key rest nonce =
    let refused : bad_size_or_prefix (0 ∷ rest) ≡ true = ground arith in rw refused
