-- ===== src/Patterns/Rules.antt =====
-- pattern_matcher.go, `Add`: the spellings of a domain rule.
use mathlib.Core.Path.{subst}
use sourcegraph_testing_dnsc.Base.{
  All, All-reverse, Bool, Bytes, Option, [], ap, append-nil, arith, bytes_eq_refl, false,
  has_prefix, has_suffix, length, ok, refl, reverse, reverse-append, reverse-reverse, suc, sym,
  to_lower, true, ℕ, ◌++◌, ◌+◌, ◌∙◌, ◌∷◌, ◌≡◌, ◌≢◌, ◌≤◌,
}
use sourcegraph_testing_dnsc.Patterns.{
  PatternMatcher, add, add_rule, classify, eval, glob_loop, is_glob_candidate, suffix, suffix_text,
}
use sourcegraph_testing_dnsc.Common.Reversal.{string_reverse_lem}
use sourcegraph_testing_dnsc.Patterns.Tries.{IsTrie, Trie, member}
use sourcegraph_testing_dnsc.Patterns.Suffixes.{Covers, OnLabels}
use sourcegraph_testing_dnsc.Patterns.Verdicts.{Matches-reject, by_suffix}

abbrev pub IsPlain : ℕ → Type 0
IsPlain c = (c ≢ b'*') × (c ≢ b'?') × (c ≢ b'[')

-- A domain: some plain bytes, with neither a dot nor an equals sign in front.
pub record IsDomain (d : Bytes) : Type 0 where
  pub plain : All IsPlain d
  pub not_empty : d ≢ []
  pub no_dot : has_prefix d (b'.' ∷ []) ≡ false
  pub no_equals : has_prefix d (b'=' ∷ []) ≡ false

glob_loop-plain : (i n : ℕ) (s : Bytes) → All IsPlain s → glob_loop i n s ≡ false
unfolding glob_loop
glob_loop-plain i n [] h = refl
glob_loop-plain i n (c ∷ s) h =
    let (star, question, bracket) = h.0 in ground (arith, glob_loop-plain (i + 1) n s h.1)

no_star : (s t : Bytes) → s ≢ [] → All IsPlain s → has_prefix (s ++ t) (b'*' ∷ []) ≡ false
no_star [] t ne h = absurd (ne refl)
no_star (c ∷ s) t ne h = let star = h.0.0 in ground arith

reverse-ne-nil : (s : Bytes) → s ≢ [] → reverse s ≢ []
reverse-ne-nil s ne e = ne (sym (reverse-reverse s) ∙ ap reverse e)

-- No star at the end of a text that ends in a domain.
no_last_star : (front d : Bytes) → IsDomain d → has_suffix (front ++ d) (b'*' ∷ []) ≡ false
no_last_star front d h = rw reverse-append (
    no_star (reverse d) (reverse front) (reverse-ne-nil d h.not_empty)
      (All-reverse IsPlain d h.plain))

-- The four spellings of a domain rule.
pub data IsSpelling (d : Bytes) : Bytes → Type 0 where
  bare : IsSpelling d d
  dotted : IsSpelling d (b'.' ∷ d)
  starred : IsSpelling d (b'*' ∷ d)
  star_dotted : IsSpelling d (b'*' ∷ b'.' ∷ d)

no_first_star : (d : Bytes) → IsDomain d → has_prefix d (b'*' ∷ []) ≡ false
no_first_star d h = rw (append-nil d) at (no_star d [] h.not_empty h.plain)

is_glob_candidate-IsSpelling :
    (d p : Bytes) → IsDomain d → IsSpelling d p → is_glob_candidate p ≡ false
unfolding is_glob_candidate
is_glob_candidate-IsSpelling d p h bare = glob_loop-plain 0 (length d) d h.plain
is_glob_candidate-IsSpelling d p h dotted = glob_loop-plain (0 + 1) (suc (length d)) d h.plain
is_glob_candidate-IsSpelling d p h starred = glob_loop-plain (0 + 1) (suc (length d)) d h.plain
is_glob_candidate-IsSpelling d p h star_dotted =
    glob_loop-plain (0 + 1 + 1) (suc (suc (length d))) d h.plain

suffix_text-IsSpelling : (d p : Bytes) → IsDomain d → IsSpelling d p → suffix_text p ≡ d
unfolding suffix_text
suffix_text-IsSpelling d p h bare = rw (no_first_star d h, h.no_dot)
suffix_text-IsSpelling d p h dotted = refl
suffix_text-IsSpelling d p h starred = rw h.no_dot
suffix_text-IsSpelling d p h star_dotted = refl

last_star-IsSpelling :
    (d p : Bytes) → IsDomain d → IsSpelling d p → has_suffix p (b'*' ∷ []) ≡ false
last_star-IsSpelling d p h bare = no_last_star [] d h
last_star-IsSpelling d p h dotted = no_last_star (b'.' ∷ []) d h
last_star-IsSpelling d p h starred = no_last_star (b'*' ∷ []) d h
last_star-IsSpelling d p h star_dotted = no_last_star (b'*' ∷ b'.' ∷ []) d h

equals-IsSpelling : (d p : Bytes) → IsDomain d → IsSpelling d p → has_prefix p (b'=' ∷ []) ≡ false
equals-IsSpelling d p h bare = h.no_equals
equals-IsSpelling d p h dotted = refl
equals-IsSpelling d p h starred = refl
equals-IsSpelling d p h star_dotted = refl

-- A domain is the same suffix rule in each of its spellings: alone, or behind a dot, a star or both.
pub classify-IsSpelling :
    (glob_match : Bytes → Bytes → Option Bool) (d p : Bytes)
    → IsDomain d
    → IsSpelling d p
    → classify glob_match p ≡ ok (suffix, to_lower d)
unfolding classify
classify-IsSpelling glob_match d p h s =
    rw
      (
        is_glob_candidate-IsSpelling d p h s,
        last_star-IsSpelling d p h s,
        equals-IsSpelling d p h s,
        suffix_text-IsSpelling d p h s,
      )
      (ground arith)

module _ {V : Type 0} (t : Trie V) (laws : IsTrie t)
    (glob_match : Bytes → Bytes → Option Bool) where
  open t use {Tree, keys}

  add-IsSpelling :
      (d p : Bytes) (val : Option V) (m : PatternMatcher V Tree)
      → IsDomain d
      → IsSpelling d p
      → add t glob_match p val m ≡ ok (add_rule t glob_match suffix (to_lower d) val m)
  unfolding add
  add-IsSpelling d p val m h s = rw (add, classify-IsSpelling glob_match d p h s)

  suffix-member :
      (d : Bytes) (val : Option V) (m : PatternMatcher V Tree)
      → member (reverse d) (keys (add_rule t glob_match suffix d val m).suffixes) ≡ true
  unfolding add_rule
  suffix-member d val m = rw (
    string_reverse_lem d,
    laws.keys-insert (reverse d) (reverse d) val m.suffixes,
    bytes_eq_refl (reverse d),
  )

  -- Adding a domain rule in any of its spellings succeeds, and from then on the domain in lower case
  -- and every name below it are rejected, provided that no suffix rule ends in the middle of one of
  -- the name's labels.
  pub add-reject :
      (d p name : Bytes) (val : Option V) (m m' : PatternMatcher V Tree)
      → IsDomain d
      → IsSpelling d p
      → add t glob_match p val m ≡ ok m'
      → OnLabels t laws glob_match m'.suffixes (reverse name)
      → 2 ≤ length name
      → Covers (to_lower d) name
      → (eval t glob_match m' name).reject ≡ true
  add-reject d p name val m m' h s e n long c =
      let same : add_rule t glob_match suffix (to_lower d) val m ≡ m' =
        cc (add-IsSpelling d p val m h s, e) in
      let mem : member (reverse (to_lower d)) (keys m'.suffixes) ≡ true =
        subst (λ x. member (reverse (to_lower d)) (keys (PatternMatcher.suffixes x)) ≡ true) same
          (suffix-member (to_lower d) val m) in
      Matches-reject t laws glob_match m' name n long (by_suffix (to_lower d) mem c)
