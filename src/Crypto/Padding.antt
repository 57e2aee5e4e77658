-- ===== src/Crypto/Padding.antt =====
-- crypto.go, `pad` and `unpad`.
use sourcegraph_testing_dnsc.Base.{
  ==→eq, Bool-cases, Bytes, [], ap, append-nil, append_assoc, arith, delimiter_not_found, err,
  false, inl, inr, length, length-append, length-replicate, ok, refl, replicate, reverse,
  reverse-append, reverse-reverse, suc, sym, true, zero, ℕ, ◌++◌, ◌+◌, ◌-◌, ◌==◌, ◌∙◌, ◌∷◌, ◌≡◌,
  ◌≤◌,
}
use sourcegraph_testing_dnsc.Crypto.{pad, unpad, unpad_loop}

zeros_cons : (n : ℕ) (t : Bytes) → replicate n 0 ++ 0 ∷ t ≡ 0 ∷ (replicate n 0 ++ t)
zeros_cons zero t = refl
zeros_cons (suc n) t = ap (λ r. 0 ∷ r) (zeros_cons n t)

reverse-replicate : (n : ℕ) (s : Bytes) → reverse (s ++ replicate n 0) ≡ replicate n 0 ++ reverse s
reverse-replicate zero s = rw append-nil
reverse-replicate (suc n) s =
    rw
      (
        ← append_assoc s (0 ∷ []) (replicate n 0),
        reverse-replicate n (s ++ 0 ∷ []),
        reverse-append s (0 ∷ []),
      )
      (zeros_cons n (reverse s))

unpad_loop-zeros : (n : ℕ) (s : Bytes) → unpad_loop (replicate n 0 ++ s) ≡ unpad_loop s
unfolding unpad_loop
unpad_loop-zeros zero s = refl
unpad_loop-zeros (suc n) s = ground (arith, unpad_loop-zeros n s)

-- The padding is undone, whatever the packet ends in and whatever the size.
pub unpad-pad : (packet : Bytes) (min_size : ℕ) → unpad (pad packet min_size) ≡ ok packet
unfolding unpad pad
unpad-pad packet min_size =
    let n = min_size - length (packet ++ 0x80 ∷ []) in
    rw
      (
        reverse-replicate n (packet ++ 0x80 ∷ []),
        unpad_loop-zeros n,
        reverse-append packet (0x80 ∷ []),
      )
      (ap ok (reverse-reverse packet))

pub length-pad :
    (packet : Bytes) (min_size : ℕ)
    → length packet + 1 ≤ min_size
    → length (pad packet min_size) ≡ min_size
unfolding pad
length-pad packet min_size h = omega (
  arith,
  length-append (packet ++ 0x80 ∷ []) (replicate (min_size - length (packet ++ 0x80 ∷ [])) 0),
  length-append packet (0x80 ∷ []),
  length-replicate {A = ℕ} (min_size - length (packet ++ 0x80 ∷ [])) 0,
)

unpad_mark :
    (c : ℕ) (s packet : Bytes)
    → (c == 0x80) ≡ true
    → ok (reverse s) ≡ ok packet
    → c ∷ s ≡ 0x80 ∷ reverse packet
unpad_mark c s packet mark h = ground (arith, reverse-reverse s, ==→eq c 0x80 mark)

unpad_other :
    (c : ℕ) (s : Bytes)
    → (c == 0x80) ≡ false
    → (c == 0) ≡ false
    → unpad_loop (c ∷ s) ≡ err delimiter_not_found
unfolding unpad_loop
unpad_other c s e other = rw (e, other)

unpad_loop_sound :
    (s packet : Bytes)
    → unpad_loop s ≡ ok packet
    → (n : ℕ) × (s ≡ replicate n 0 ++ 0x80 ∷ reverse packet)
unfolding unpad_loop
unpad_loop_sound [] packet h = cc
unpad_loop_sound (c ∷ s) packet h = elim (Bool-cases (c == 0x80)) [
  | inl mark ↦ (0, unpad_mark c s packet mark (ground arith))
  | inr e ↦ elim (Bool-cases (c == 0)) [
    | inl zeros ↦ (let (n, ih) = unpad_loop_sound s packet (ground arith) in (suc n, ground arith))
    | inr other ↦ cc (unpad_other c s e other)
  ]
]

-- What `unpad` accepts is the packet that it returns, a mark, and zeros.
pub unpad_sound :
    (padded packet : Bytes)
    → unpad padded ≡ ok packet
    → (n : ℕ) × (padded ≡ packet ++ 0x80 ∷ replicate n 0)
unfolding unpad
unpad_sound padded packet h =
    let (n, e) = unpad_loop_sound (reverse padded) packet h in
    let back : reverse (packet ++ 0x80 ∷ replicate n 0) ≡ replicate n 0 ++ 0x80 ∷ reverse packet =
      rw (
        ← append_assoc packet (0x80 ∷ []) (replicate n 0),
        reverse-replicate n (packet ++ 0x80 ∷ []),
        reverse-append packet (0x80 ∷ []),
      ) in
    (n, sym (reverse-reverse padded) ∙ ap reverse (e ∙ sym back) ∙ reverse-reverse _)
