-- ===== src/Common/Fields.antt =====
-- common.go, the text helpers that read lines of the configuration files.
use sourcegraph_testing_dnsc.Base.{
  All, All-reverse, Bool, Bytes, IsDigit, [], arith, atoi-digits, drop, false, get_elem?,
  has_prefix, index_func, is_space, last_index_byte, length, length-append, length_pos, max_int,
  none, pos, refl, reverse, reverse-reverse, some, suc, take-append, trim_left, trim_space, true,
  value, ℕ, ℤ, ◌++◌, ◌+◌, ◌-◌, ◌<◌, ◌∷◌, ◌≡◌, ◌≢◌, ◌≤◌,
}
use sourcegraph_testing_dnsc.Common.{
  before_comment, extract_host_and_port, string_two_fields, trim_and_strip_inline_comments,
}

abbrev pub Lacks : ℕ → Bytes → Type 0
Lacks b = All (λ c. c ≢ b)

last_index_byte-Lacks : (s : Bytes) (c : ℕ) → Lacks c s → last_index_byte s c ≡ none
last_index_byte-Lacks [] c h = refl
last_index_byte-Lacks (x ∷ s) c h = ground (arith, last_index_byte-Lacks s c h.1)

-- The last occurrence is the one with no other behind it.
last_index_byte-append :
    (s t : Bytes) (c : ℕ) → Lacks c t → last_index_byte (s ++ c ∷ t) c ≡ some (length s)
last_index_byte-append [] t c h = ground (arith, last_index_byte-Lacks t c h)
last_index_byte-append (x ∷ s) t c h = ground (arith, last_index_byte-append s t c h)

get_elem?-append : (s t : Bytes) (c : ℕ) → get_elem? (s ++ c ∷ t) (length s) ≡ some c
get_elem?-append [] t c = refl
get_elem?-append (x ∷ s) t c = get_elem?-append s t c

no_hash :
    (s t : Bytes)
    → has_prefix s (b'#' ∷ []) ≡ false
    → has_prefix (s ++ b' ' ∷ t) (b'#' ∷ []) ≡ false
no_hash [] t h = refl
no_hash (x ∷ s) t h = h

comment_index :
    (text comment : Bytes)
    → Lacks b'#' comment
    → last_index_byte (text ++ b' ' ∷ b'#' ∷ comment) b'#' ≡ some (suc (length text))
comment_index [] comment lacks = ground (arith, last_index_byte-Lacks comment b'#' lacks)
comment_index (x ∷ text) comment lacks = ground (arith, comment_index text comment lacks)

before_comment-append :
    (text comment : Bytes)
    → before_comment (text ++ b' ' ∷ b'#' ∷ comment) (suc (length text)) ≡ text
unfolding before_comment
before_comment-append text comment =
    let n : suc (length text) - 1 ≡ length text = omega arith in
    ground (
      arith,
      n,
      get_elem?-append text (b'#' ∷ comment) b' ',
      take-append (length text) text (b' ' ∷ b'#' ∷ comment) refl,
    )

-- A comment behind a blank is stripped with its blank; the text in front of it is trimmed.
pub trim_and_strip_inline_comments_comment :
    (text comment : Bytes)
    → has_prefix text (b'#' ∷ []) ≡ false
    → Lacks b'#' comment
    → trim_and_strip_inline_comments (text ++ b' ' ∷ b'#' ∷ comment) ≡ trim_space text
unfolding trim_and_strip_inline_comments
trim_and_strip_inline_comments_comment text comment start lacks =
    rw
      (
        trim_and_strip_inline_comments,
        comment_index text comment lacks,
        no_hash text (b'#' ∷ comment) start,
        before_comment-append text comment,
      )
      (ground arith)

-- A line that begins with `#` is a comment.
pub trim_and_strip_inline_comments_line :
    (comment : Bytes) → trim_and_strip_inline_comments (b'#' ∷ comment) ≡ []
unfolding trim_and_strip_inline_comments
trim_and_strip_inline_comments_line comment = ground arith

-- A line with no `#` is trimmed.
pub trim_and_strip_inline_comments_plain :
    (text : Bytes) → Lacks b'#' text → trim_and_strip_inline_comments text ≡ trim_space text
unfolding trim_and_strip_inline_comments
trim_and_strip_inline_comments_plain text lacks =
    rw (trim_and_strip_inline_comments, last_index_byte-Lacks text b'#' lacks)

index_func-append :
    (f : ℕ → Bool) (a b : Bytes) (c : ℕ)
    → All (λ x. f x ≡ false) a
    → f c ≡ true
    → index_func (a ++ c ∷ b) f ≡ some (length a)
index_func-append f [] b c h t = rw t
index_func-append f (x ∷ a) b c h t = rw (h.0, index_func-append f a b c h.1 t)

drop-append_suc : (a b : Bytes) (c : ℕ) → drop (length a + 1) (a ++ c ∷ b) ≡ b
drop-append_suc [] b c = refl
drop-append_suc (x ∷ a) b c =
    let e : length (x ∷ a) + 1 ≡ suc (length a + 1) = omega arith in rw e (drop-append_suc a b c)

trim_left-none : (f : ℕ → Bool) (s : Bytes) → All (λ x. f x ≡ false) s → trim_left f s ≡ s
trim_left-none f [] h = refl
trim_left-none f (x ∷ s) h = rw h.0

-- A field with no blank is its own trimmed text.
trim_space-none : (s : Bytes) → All (λ x. is_space x ≡ false) s → trim_space s ≡ s
trim_space-none s h =
    let back : trim_left is_space (reverse s) ≡ reverse s =
      trim_left-none is_space (reverse s) (All-reverse _ s h) in
    rw (trim_left-none is_space s h, back) (reverse-reverse s)

-- Two fields, the first with no blank in it and the second trimmed, are found on either side of a
-- blank.
pub string_two_fields_append :
    (a b : Bytes) (c : ℕ)
    → All (λ x. is_space x ≡ false) a
    → a ≢ []
    → is_space c ≡ true
    → trim_space b ≢ []
    → string_two_fields (a ++ c ∷ b) ≡ (a, trim_space b, true)
unfolding string_two_fields
string_two_fields_append a b c h n t k =
    let a_pos = length_pos a n in
    let b_pos : 0 < length b = length_pos b (λ e. k (rw e)) in
    let field_pos = length_pos (trim_space b) k in
    ground (
      arith,
      length-append a (c ∷ b),
      index_func-append is_space a b c h t,
      take-append (length a) a (c ∷ b) refl,
      drop-append_suc a b c,
      trim_space-none a h,
    )

digits-Lacks : (s : Bytes) → All IsDigit s → Lacks b':' s
digits-Lacks [] h = tt
digits-Lacks (c ∷ s) h = (ground arith, digits-Lacks s h.1)

-- The port behind the last colon, if it is a number, replaces the default; the host is what stands
-- in front of that colon.
pub extract_host_and_port_append :
    (host : Bytes) (c : ℕ) (port : Bytes) (default_port : ℤ)
    → All IsDigit (c ∷ port)
    → value 0 (c ∷ port) ≤ max_int
    → extract_host_and_port (host ++ b':' ∷ c ∷ port) default_port
      ≡ (host, pos (value 0 (c ∷ port)))
unfolding extract_host_and_port
extract_host_and_port_append host c port default_port h fits = ground (
  arith,
  last_index_byte-append host (c ∷ port) b':' (digits-Lacks (c ∷ port) h),
  length-append host (b':' ∷ c ∷ port),
  drop-append_suc host (c ∷ port) b':',
  atoi-digits c port h fits,
  take-append (length host) host (b':' ∷ c ∷ port) refl,
)
