-- ===== src/Dns/Names.antt =====
-- dnscrypt-proxy/dnsutils.go, `NormalizeRawQName` and `NormalizeQName`.
use sourcegraph_testing_dnsc.Base.{
  Bool, Bool-cases, Bytes, Result, [], ap, arith, bytes_eq, bytes_eq→eq, err, false, if◌then◌else◌,
  inl, inr, leb, length, lower_byte, ltb, not_ascii, ok, refl, sym, to_lower, trim_suffix, true,
  ◌&&◌, ◌+◌, ◌-◌, ◌==◌, ◌||◌, ◌∷◌, ◌≡◌, ◌≢◌,
}

-- The loop of `NormalizeRawQName`, in place.
unfoldable pub normalize_raw_q_name : Bytes → Bytes
normalize_raw_q_name [] = []
normalize_raw_q_name (c ∷ s) = (if leb 65 c && leb c 90 then c + 32 else c) ∷ normalize_raw_q_name s

-- The first loop: an error at a byte that is no ASCII, or whether there is a capital.
scan_name : Bytes → Bool → Result Bool
scan_name [] has_upper = ok has_upper
scan_name (c ∷ s) has_upper =
    let rest = scan_name s (has_upper || (leb b'A' c && leb c b'Z')) in
    if leb 0x80 c then err not_ascii else rest

-- The second loop.
lower_name : Bytes → Bytes
lower_name [] = []
lower_name (c ∷ s) = (if leb b'A' c && leb c b'Z' then c + (b'a' - b'A') else c) ∷ lower_name s

finish_name : Bytes → Result Bool → Result Bytes
finish_name str (err e) = err e
finish_name str (ok true) = ok (lower_name str)
finish_name str (ok false) = ok str

unfoldable pub normalize_q_name : Bytes → Result Bytes
unfolding scan_name lower_name finish_name
normalize_q_name str =
    let trimmed = trim_suffix str (b'.' ∷ []) in
    if length str == 0 || bytes_eq str (b'.' ∷ [])
    then ok (b'.' ∷ [])
    else finish_name trimmed (scan_name trimmed false)

abbrev pub all_ascii : Bytes → Bool
all_ascii [] = true
all_ascii (c ∷ s) = ltb c 0x80 && all_ascii s

abbrev has_capital : Bytes → Bool
has_capital [] = false
has_capital (c ∷ s) = (leb b'A' c && leb c b'Z') || has_capital s

scan_name_lem :
    (s : Bytes) (b : Bool)
    → scan_name s b ≡ (if all_ascii s then ok (b || has_capital s) else err not_ascii)
unfolding scan_name
scan_name_lem [] true = refl
scan_name_lem [] false = refl
scan_name_lem (c ∷ s) true = ground (arith, scan_name_lem s true)
scan_name_lem (c ∷ s) false = ground (arith, scan_name_lem s (leb b'A' c && leb c b'Z'))

lower_name_lem : (s : Bytes) → lower_name s ≡ to_lower s
unfolding lower_name
lower_name_lem [] = refl
lower_name_lem (c ∷ s) = ground (arith, lower_name_lem s)

no_capital : (s : Bytes) → has_capital s ≡ false → to_lower s ≡ s
no_capital [] h = refl
no_capital (c ∷ s) h = ground (arith, no_capital s)

finish_name_lem :
    (s : Bytes)
    → finish_name s (scan_name s false) ≡ (if all_ascii s then ok (to_lower s) else err not_ascii)
unfolding finish_name
finish_name_lem s = elim (Bool-cases (all_ascii s)) [
  | inr e ↦ rw (scan_name_lem s false, e, finish_name)
  | inl e ↦ elim (Bool-cases (has_capital s)) [
    | inl c ↦ rw (scan_name_lem s false, e, c, finish_name) (ap ok (lower_name_lem s))
    | inr c ↦ rw (scan_name_lem s false, e, c, finish_name) (ap ok (sym (no_capital s c)))
  ]
]

length_not_zero : (s : Bytes) → s ≢ [] → (length s == 0) ≡ false
length_not_zero [] h = absurd (h refl)
length_not_zero (c ∷ s) h = ground arith

not_root : (s : Bytes) → s ≢ b'.' ∷ [] → bytes_eq s (b'.' ∷ []) ≡ false
not_root s h = elim (Bool-cases (bytes_eq s (b'.' ∷ []))) [
  | inl e ↦ absurd (h (bytes_eq→eq s (b'.' ∷ []) e))
  | inr e ↦ e
]

-- A name that is neither empty nor the root is, without its final dot, put into lower case, if all
-- its bytes are ASCII, and refused if not.
pub normalize_q_name_lem :
    (str : Bytes)
    → str ≢ []
    → str ≢ b'.' ∷ []
    → normalize_q_name str ≡ (
        if all_ascii (trim_suffix str (b'.' ∷ []))
        then ok (to_lower (trim_suffix str (b'.' ∷ [])))
        else err not_ascii)
unfolding normalize_q_name
normalize_q_name_lem str h k =
    rw (length_not_zero str h, not_root str k) (finish_name_lem (trim_suffix str (b'.' ∷ [])))

-- `NormalizeRawQName`, which makes the cache key, is the same lower case.
pub normalize_raw_q_name_lem : (s : Bytes) → normalize_raw_q_name s ≡ to_lower s
unfolding normalize_raw_q_name
normalize_raw_q_name_lem [] = refl
normalize_raw_q_name_lem (c ∷ s) = ap (λ r. lower_byte c ∷ r) (normalize_raw_q_name_lem s)
