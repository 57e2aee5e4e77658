-- ===== src/Odoh/Messages.antt =====
-- oblivious_doh.go: queries and responses, and the round trip of configurations.
use sourcegraph_testing_dnsc.Base.{
  ==_refl, Bool, Bytes, Option, [], ap, append_assoc, arith, drop, drop-append, err, false,
  get_elem?, get_elem?_lt, leb, length, length-append, ltb, malformed, ok, refl, some, suc, sym,
  take, take-append, true, zero, ℕ, ◌%◌, ◌&&◌, ◌++◌, ◌+◌, ◌-◌, ◌<◌, ◌==◌, ◌^◌, ◌∙◌, ◌∷◌, ◌≡◌, ◌≢◌,
  ◌≤◌,
}
use sourcegraph_testing_dnsc.Common.{uint16}
use sourcegraph_testing_dnsc.Odoh.{
  Hpke, OdohQuery, decrypt_response, decrypt_with, padding_loop, read_plaintext, response_cipher,
  slice, two_bytes, uint16_at,
}

-- A plaintext as the target writes it: the response, and bytes of padding.
abbrev pub written : Bytes → Bytes → Bytes
written r padding = two_bytes (length r) ++ (r ++ (two_bytes (length padding) ++ padding))

two_bytes_lem : (n : ℕ) (s : Bytes) → n < 65536 → uint16 (two_bytes n ++ s) ≡ n
two_bytes_lem n s lt = omega arith

length-written : (r padding : Bytes) → length (written r padding) ≡ 4 + length r + length padding
length-written r padding = omega (arith, length-append r (two_bytes (length padding) ++ padding))

-- A response as a target writes it: the nonce and the ciphertext with their lengths.
abbrev pub sealed : Bytes → Bytes → Bytes
sealed nonce ct = 0x02 ∷ (two_bytes (length nonce) ++ (nonce ++ (two_bytes (length ct) ++ ct)))

abbrev pub sealed_aad : Bytes → Bytes
sealed_aad nonce = 0x02 ∷ (two_bytes (length nonce) ++ nonce)

module _ (h : Hpke) where
  size_slice :
      (r padding spare : Bytes) → slice (written r padding) spare 0 2 ≡ some (two_bytes (length r))
  unfolding slice
  size_slice r padding spare =
      let fits : leb 2 (length (written r padding) + length spare) ≡ true =
        ground (arith, length-written r padding) in
      rw fits

  payload_slice :
      (r padding spare : Bytes) → slice (written r padding) spare 2 (2 + length r) ≡ some r
  unfolding slice
  payload_slice r padding spare =
      let in_range : (leb 2 (2 + length r)
            && leb (2 + length r) (length (written r padding) + length spare))
          ≡ true =
        ground (arith, length-written r padding) in
      let size : 2 + length r - 2 ≡ length r = omega arith in
      rw (in_range, size)
        (ap some (
          ap (take (length r)) (append_assoc r (two_bytes (length padding) ++ padding) spare)
          ∙ take-append (length r) r _ refl))

  -- A response without padding is read back.
  pub read_plaintext_unpadded :
      (response r spare : Bytes)
      → length r < 65536
      → read_plaintext h response (written r []) spare ≡ some (ok r)
  unfolding read_plaintext padding_loop
  read_plaintext_unpadded response r spare lt =
      let none_left : length (written r []) - (4 + length r) ≡ 0 =
        omega (arith, length-written r []) in
      let n : uint16 (two_bytes (length r)) ≡ length r = omega arith in
      rw (size_slice r [] spare) (rw (n, none_left, payload_slice r [] spare))

  padding_loop_in_range :
      (response : Bytes) (left i : ℕ)
      → i + left ≤ length response
      → (valid : Bool) × (padding_loop h response left i ≡ some valid)
  unfolding padding_loop
  padding_loop_in_range response zero i le = (true, refl)
  padding_loop_in_range response (suc left) i le =
      let (b, e) = get_elem?_lt response i (omega arith) in
      let (valid, f) = padding_loop_in_range response left (i + 1) (omega arith) in
      (b == 0 && valid, rw (padding_loop, e, f))

  padding_loop_refuses :
      (response : Bytes) (left i b : ℕ)
      → i + suc left ≤ length response
      → get_elem? response i ≡ some b
      → b ≢ 0
      → padding_loop h response (suc left) i ≡ some false
  unfolding padding_loop
  padding_loop_refuses response left i b le e ne =
      let (valid, f) = padding_loop_in_range response left (i + 1) (omega arith) in
      let nonzero : (b == 0) ≡ false = ground arith in rw (padding_loop, e, f, nonzero)

  -- A response with padding is refused, whatever the padding is, unless the encrypted response has a
  -- zero where its plaintext has the first byte of padding.
  read_plaintext_padded :
      (response r padding spare : Bytes) (b : ℕ)
      → length r < 65536
      → 0 < length padding
      → 4 + length r + length padding ≤ length response
      → get_elem? response (4 + length r) ≡ some b
      → b ≢ 0
      → read_plaintext h response (written r padding) spare ≡ some (err malformed)
  unfolding read_plaintext
  read_plaintext_padded response r padding spare b lt some_padding le e ne =
      let left : length (written r padding) - (4 + length r) ≡ suc (length padding - 1) =
        omega (arith, length-written r padding) in
      let n : uint16 (two_bytes (length r)) ≡ length r = omega arith in
      let refused =
        padding_loop_refuses response (length padding - 1) (4 + length r) b (omega arith) e ne in
      rw (size_slice r padding spare) (rw (n, left, refused))

  length-sealed : (nonce ct : Bytes) → length (sealed nonce ct) ≡ 5 + length nonce + length ct
  length-sealed nonce ct = omega (arith, length-append nonce (two_bytes (length ct) ++ ct))

  drop-sealed :
      (nonce ct : Bytes) → drop (3 + length nonce) (sealed nonce ct) ≡ two_bytes (length ct) ++ ct
  drop-sealed nonce ct = drop-append (3 + length nonce) (sealed_aad nonce) _ (omega arith)

  ct-sealed : (nonce ct : Bytes) → drop (5 + length nonce) (sealed nonce ct) ≡ ct
  ct-sealed nonce ct =
      ap (drop (5 + length nonce))
        (sym (append_assoc (sealed_aad nonce) (two_bytes (length ct)) ct))
      ∙ drop-append (5 + length nonce) (sealed_aad nonce ++ two_bytes (length ct)) ct
          (omega (arith, length-append (sealed_aad nonce) (two_bytes (length ct))))

  take-sealed : (nonce ct : Bytes) → take (3 + length nonce) (sealed nonce ct) ≡ sealed_aad nonce
  take-sealed nonce ct = take-append (3 + length nonce) (sealed_aad nonce) _ (omega arith)

  nonce_slice :
      (nonce ct spare : Bytes)
      → slice (sealed nonce ct) spare 1 (3 + length nonce)
        ≡ some (two_bytes (length nonce) ++ nonce)
  unfolding slice
  nonce_slice nonce ct spare =
      let in_range =
        inside (length nonce) (length (sealed nonce ct) + length spare)
          (omega (arith, length-sealed nonce ct)) in
      let size : 3 + length nonce - 1 ≡ 2 + length nonce = omega arith in
      rw (in_range, size)
        (ap some (
          ap (take (2 + length nonce)) (append_assoc (two_bytes (length nonce) ++ nonce) _ spare)
          ∙ take-append (2 + length nonce) (two_bytes (length nonce) ++ nonce) _ (omega arith)))
    where
      inside : (n m : ℕ) → 3 + n ≤ m → (leb 1 (3 + n) && leb (3 + n) m) ≡ true
      inside n m le = ground arith

  -- A response that is well formed is opened with the cipher of its query and nonce.
  decrypt_response-sealed :
      (q : OdohQuery h.Suite h.Context) (nonce ct spare plaintext plaintext_spare : Bytes)
      (unseal : Bytes → Bytes → Option Bytes)
      → length nonce < 65533
      → length ct < 65536
      → response_cipher h q (two_bytes (length nonce) ++ nonce) ≡ ok unseal
      → unseal ct (sealed_aad nonce) ≡ some plaintext
      → decrypt_response h q (sealed nonce ct) spare plaintext_spare
        ≡ read_plaintext h (sealed nonce ct) plaintext plaintext_spare
  unfolding decrypt_response decrypt_with
  decrypt_response-sealed q nonce ct spare plaintext plaintext_spare unseal small small_ct cipher
        opens =
      let n : uint16_at (sealed nonce ct) 1 ≡ length nonce = omega arith in
      let long : ltb (length (sealed nonce ct)) 3 ≡ false =
        ground (arith, length-sealed nonce ct) in
      rw (decrypt_response, long)
        (ap (decrypt_with h q (sealed nonce ct) spare plaintext_spare) n ∙ inner)
    where
      sized : (uint16_at (sealed nonce ct) (3 + length nonce) == length ct) ≡ true
      sized = rw (drop-sealed nonce ct) (
          let e : uint16 (two_bytes (length ct) ++ ct) ≡ length ct = omega arith in
          rw e (==_refl (length ct)))

      inner :
          decrypt_with h q (sealed nonce ct) spare plaintext_spare (length nonce)
          ≡ read_plaintext h (sealed nonce ct) plaintext plaintext_spare
      inner =
          let longer : ltb (length (sealed nonce ct)) (5 + length nonce) ≡ false =
            ground (arith, length-sealed nonce ct) in
          let wraps : (3 + length nonce) % 2 ^ 16 ≡ 3 + length nonce = omega arith in
          rw (
            decrypt_with,
            longer,
            wraps,
            nonce_slice nonce ct spare,
            cipher,
            ct-sealed nonce ct,
            sized,
            take-sealed nonce ct,
            opens,
          )

  -- A response that a target sealed without padding, and that the cipher of the query opens, is
  -- returned as it was written.
  pub decrypt_response_unpadded :
      (q : OdohQuery h.Suite h.Context) (nonce ct r spare plaintext_spare : Bytes)
      (unseal : Bytes → Bytes → Option Bytes)
      → length nonce < 65533
      → length ct < 65536
      → length r < 65536
      → response_cipher h q (two_bytes (length nonce) ++ nonce) ≡ ok unseal
      → unseal ct (sealed_aad nonce) ≡ some (written r [])
      → decrypt_response h q (sealed nonce ct) spare plaintext_spare ≡ some (ok r)
  decrypt_response_unpadded q nonce ct r spare plaintext_spare unseal small small_ct small_r cipher
        opens =
      decrypt_response-sealed q nonce ct spare (written r []) plaintext_spare unseal small small_ct
        cipher opens
      ∙ read_plaintext_unpadded (sealed nonce ct) r plaintext_spare small_r

  -- A response that a target sealed with padding is refused, although the cipher opens it and whatever
  -- the padding is, unless the encrypted response happens to have a zero at the place of the first
  -- byte of padding in the plaintext. The ciphertext is no shorter than the plaintext.
  pub decrypt_response_padded :
      (q : OdohQuery h.Suite h.Context) (nonce ct r padding spare plaintext_spare : Bytes)
      (unseal : Bytes → Bytes → Option Bytes) (b : ℕ)
      → length nonce < 65533
      → length ct < 65536
      → length r < 65536
      → 0 < length padding
      → length (written r padding) ≤ length ct
      → response_cipher h q (two_bytes (length nonce) ++ nonce) ≡ ok unseal
      → unseal ct (sealed_aad nonce) ≡ some (written r padding)
      → get_elem? (sealed nonce ct) (4 + length r) ≡ some b
      → b ≢ 0
      → decrypt_response h q (sealed nonce ct) spare plaintext_spare ≡ some (err malformed)
  decrypt_response_padded q nonce ct r padding spare plaintext_spare unseal b small small_ct small_r
        some_padding long cipher opens at ne =
      decrypt_response-sealed q nonce ct spare (written r padding) plaintext_spare unseal small
        small_ct cipher opens
      ∙ read_plaintext_padded (sealed nonce ct) r padding plaintext_spare b small_r some_padding
          (omega (arith, length-sealed nonce ct, length-written r padding)) at ne
