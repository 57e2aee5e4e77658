-- ===== src/Dns/CertText.antt =====
-- dnscrypt-proxy/dnsutils.go, `PackTXTRR`: the bytes of a TXT record in presentation form.
use sourcegraph_testing_dnsc.Base.{
  All, Bool, Bool-cases, Bytes, IsByte, [], ap, arith, false, if◌then◌else◌, inl, inr, leb, ltb,
  refl, true, ℕ, ◌%◌, ◌&&◌, ◌*◌, ◌+◌, ◌-◌, ◌/◌, ◌==◌, ◌^◌, ◌||◌, ◌∙◌, ◌∷◌, ◌≡◌,
}

is_digit : ℕ → Bool
is_digit b = leb 48 b && leb b 57

-- Arithmetic on bytes.
ddd_to_byte : ℕ → ℕ → ℕ → ℕ
ddd_to_byte a b c = ((a - 48) * 100 + (b - 48) * 10 + (c - 48)) % 2 ^ 8

abbrev backslash : ℕ
backslash = 92

-- The letters `t`, `r` and `n`.
unescape : ℕ → ℕ
unescape c = if c == 116 then 9 else if c == 114 then 13 else if c == 110 then 10 else c

pub pack_txt_rr : Bytes → Bytes
unfolding is_digit ddd_to_byte unescape
pack_txt_rr [] = []
pack_txt_rr (c ∷ []) = elim (c == backslash) [ true ↦ [] | false ↦ c ∷ [] ]
pack_txt_rr (c ∷ d ∷ []) = elim (c == backslash) [
  | true ↦ unescape d ∷ []
  | false ↦ c ∷ pack_txt_rr (d ∷ [])
]
pack_txt_rr (c ∷ d ∷ e ∷ []) = elim (c == backslash) [
  | true ↦ unescape d ∷ pack_txt_rr (e ∷ [])
  | false ↦ c ∷ pack_txt_rr (d ∷ e ∷ [])
]
pack_txt_rr (c ∷ d ∷ e ∷ f ∷ s) = elim (c == backslash) [
  | true ↦ elim (is_digit d && is_digit e && is_digit f) [
    | true ↦ ddd_to_byte d e f ∷ pack_txt_rr s
    | false ↦ unescape d ∷ pack_txt_rr (e ∷ f ∷ s)
  ]
  | false ↦ c ∷ pack_txt_rr (d ∷ e ∷ f ∷ s)
]

pack_nil : pack_txt_rr [] ≡ []
unfolding pack_txt_rr
pack_nil = refl

pack_plain :
    (c : ℕ) (s : Bytes) → (c == backslash) ≡ false → pack_txt_rr (c ∷ s) ≡ c ∷ pack_txt_rr s
unfolding pack_txt_rr
pack_plain c [] h = rw (pack_txt_rr, h) refl
pack_plain c (d ∷ []) h = rw (pack_txt_rr, h) refl
pack_plain c (d ∷ e ∷ []) h = rw (pack_txt_rr, h) refl
pack_plain c (d ∷ e ∷ f ∷ s) h = rw (pack_txt_rr, h) refl

pack_quoted :
    (d : ℕ) (s : Bytes)
    → is_digit d ≡ false
    → unescape d ≡ d
    → pack_txt_rr (backslash ∷ d ∷ s) ≡ d ∷ pack_txt_rr s
unfolding pack_txt_rr
pack_quoted d [] h u = rw u refl
pack_quoted d (e ∷ []) h u = rw u refl
pack_quoted d (e ∷ f ∷ s) h u = rw (pack_txt_rr, h, u) refl

pack_ddd :
    (d e f : ℕ) (s : Bytes)
    → (is_digit d && is_digit e && is_digit f) ≡ true
    → pack_txt_rr (backslash ∷ d ∷ e ∷ f ∷ s) ≡ ddd_to_byte d e f ∷ pack_txt_rr s
unfolding pack_txt_rr
pack_ddd d e f s h = rw (pack_txt_rr, h) refl

-- The presentation form of a byte: quotes and backslashes are escaped, and a byte that is not
-- printable has three digits.
pub escape_byte : ℕ → Bytes → Bytes
escape_byte b s =
    if b == 34 || b == backslash
    then backslash ∷ b ∷ s
    else if ltb b 32 || ltb 126 b
    then backslash ∷ (48 + b / 100) ∷ (48 + b / 10 % 10) ∷ (48 + b % 10) ∷ s
    else b ∷ s

unfoldable pub escape : Bytes → Bytes
escape [] = []
escape (b ∷ s) = escape_byte b (escape s)

ddd_digits :
    (b : ℕ)
    → IsByte b
    → (is_digit (48 + b / 100) && is_digit (48 + b / 10 % 10) && is_digit (48 + b % 10)) ≡ true
unfolding is_digit
ddd_digits b h = ground arith

ddd_value : (b : ℕ) → IsByte b → ddd_to_byte (48 + b / 100) (48 + b / 10 % 10) (48 + b % 10) ≡ b
unfolding ddd_to_byte
ddd_value b h = omega arith

quoted_plain :
    (b : ℕ) → (b == 34 || b == backslash) ≡ true → (is_digit b ≡ false) × (unescape b ≡ b)
unfolding is_digit unescape
quoted_plain b h = (ground arith, ground arith)

not_backslash : (b : ℕ) → (b == 34 || b == backslash) ≡ false → (b == backslash) ≡ false
not_backslash b h = ground arith

pack-escape_byte :
    (b : ℕ) (s : Bytes) → IsByte b → pack_txt_rr (escape_byte b s) ≡ b ∷ pack_txt_rr s
unfolding escape_byte
pack-escape_byte b s h = elim (Bool-cases (b == 34 || b == backslash)) [
  | inl q ↦ let (d, u) = quoted_plain b q in rw (escape_byte, q) (pack_quoted b s d u)
  | inr q ↦ elim (Bool-cases (ltb b 32 || ltb 126 b)) [
    | inl u ↦
        rw (escape_byte, q, u)
          (pack_ddd (48 + b / 100) (48 + b / 10 % 10) (48 + b % 10) s (ddd_digits b h)
            ∙ ap (λ t. t ∷ pack_txt_rr s) (ddd_value b h))
    | inr u ↦ rw (escape_byte, q, u) (pack_plain b s (not_backslash b q))
  ]
]

-- The presentation form of any bytes is packed to the bytes.
pub pack_txt_rr-escape : (s : Bytes) → All IsByte s → pack_txt_rr (escape s) ≡ s
unfolding escape
pack_txt_rr-escape [] h = pack_nil
pack_txt_rr-escape (b ∷ s) h =
    pack-escape_byte b (escape s) h.0 ∙ ap (λ t. b ∷ t) (pack_txt_rr-escape s h.1)
