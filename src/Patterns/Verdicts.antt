-- ===== src/Patterns/Verdicts.antt =====
-- pattern_matcher.go, `Eval`: which names are rejected.
use sourcegraph_testing_dnsc.Base.{
  Bool, Bool-cases, Bytes, List, Option, Option-cases, [], arith, bytes_eq_refl, bytes_eq→eq,
  contains, false, has_prefix, inl, inr, length, le→ltb, ltb, none, reverse, reverse-reverse, some,
  true, ◌∷◌, ◌≡◌, ◌≢◌, ◌≤◌,
}
use sourcegraph_testing_dnsc.Patterns.Tries.{IsTrie, Trie, member}
use sourcegraph_testing_dnsc.Patterns.Suffixes.{
  Covers, CoversBack→Covers, Covers→CoversBack, OnLabels, suffix_match-Sound, suffix_match_complete,
}
use sourcegraph_testing_dnsc.Common.Reversal.{string_reverse_lem}
use sourcegraph_testing_dnsc.Common.{string_reverse}
use sourcegraph_testing_dnsc.Patterns.{
  PatternMatcher, eval, eval_rest, exact_val, first_pattern, first_substring, suffix_match,
}

first_substring-some :
    (name : Bytes) (ss : List Bytes) (s : Bytes)
    → first_substring name ss ≡ some s
    → (member s ss ≡ true) × (contains name s ≡ true)
unfolding first_substring
first_substring-some name [] s h = cc
first_substring-some name (x ∷ ss) s h =
    ground (arith, first_substring-some name ss s, bytes_eq_refl x)

first_substring-none :
    (name : Bytes) (ss : List Bytes) (s : Bytes)
    → first_substring name ss ≡ none
    → member s ss ≡ true
    → contains name s ≡ false
unfolding first_substring
first_substring-none name [] s h k = cc
first_substring-none name (x ∷ ss) s h k =
    ground (arith, first_substring-none name ss s, bytes_eq→eq s x)

module _ (glob_match : Bytes → Bytes → Option Bool) where
  first_pattern-some :
      (name : Bytes) (ps : List Bytes) (p : Bytes)
      → first_pattern glob_match name ps ≡ some p
      → (member p ps ≡ true) × (glob_match p name ≡ some true)
  unfolding first_pattern
  first_pattern-some name [] p h = cc
  first_pattern-some name (x ∷ ps) p h =
      ground (arith, first_pattern-some name ps p, bytes_eq_refl x)

  first_pattern-none :
      (name : Bytes) (ps : List Bytes) (p : Bytes)
      → first_pattern glob_match name ps ≡ none
      → member p ps ≡ true
      → glob_match p name ≢ some true
  unfolding first_pattern
  first_pattern-none name [] p h k = cc
  first_pattern-none name (x ∷ ps) p h k =
      ground (arith, first_pattern-none name ps p, bytes_eq→eq p x)

module _ {V : Type 0} (t : Trie V) (glob_match : Bytes → Bytes → Option Bool) where
  open t use {Tree, keys, longest_prefix}

  -- A rule of the matcher that is meant for the name.
  pub data Matches (m : PatternMatcher V Tree) (name : Bytes) : Type 0 where
    by_exact : (v : V) → exact_val m name ≡ some v → Matches m name
    by_suffix :
        (d : Bytes) → member (reverse d) (keys m.suffixes) ≡ true → Covers d name → Matches m name
    by_prefix :
        (p : Bytes) → member p (keys m.prefixes) ≡ true → has_prefix name p ≡ true → Matches m name
    by_substring :
        (s : Bytes) → member s m.substrings ≡ true → contains name s ≡ true → Matches m name
    by_pattern :
        (p : Bytes) → member p m.patterns ≡ true → glob_match p name ≡ some true → Matches m name

module _ {V : Type 0} (t : Trie V) (laws : IsTrie t)
    (glob_match : Bytes → Bytes → Option Bool) where
  open t use {Tree, keys, longest_prefix}

  eval_rest-Matches :
      (m : PatternMatcher V Tree) (name : Bytes)
      → (eval_rest t glob_match m name).reject ≡ true
      → Matches t glob_match m name
  unfolding eval_rest
  eval_rest-Matches m name h = elim (Option-cases (longest_prefix m.prefixes name)) [
    | inr ((p, v), e) ↦
        by_prefix p (laws.found m.prefixes name p v e).0 (laws.found m.prefixes name p v e).1
    | inl e1 ↦ elim (Option-cases (first_substring name m.substrings)) [
      | inr (s, e) ↦
          (let (mem, c) = first_substring-some name m.substrings s e in by_substring s mem c)
      | inl e2 ↦ elim (Option-cases (first_pattern glob_match name m.patterns)) [
        | inr (p, e) ↦
            (let (mem, c) = first_pattern-some glob_match name m.patterns p e in by_pattern p mem c)
        | inl e3 ↦ absurd (passes e1 e2 e3)
      ]
    ]
  ]
    where
      passes :
          longest_prefix m.prefixes name ≡ none
          → first_substring name m.substrings ≡ none
          → first_pattern glob_match name m.patterns ≡ none
          → ⊥
      passes e1 e2 e3 = let f : false ≡ true = rw (eval_rest, e1, e2, e3) at h in cc

  -- A name is rejected only by a rule that is meant for it: the name itself, a domain that covers it,
  -- a prefix, a substring or a pattern; and no name of fewer than two bytes is.
  pub eval-Matches :
      (m : PatternMatcher V Tree) (name : Bytes)
      → (eval t glob_match m name).reject ≡ true
      → (2 ≤ length name) × Matches t glob_match m name
  unfolding eval
  eval-Matches m name h = elim (Bool-cases (ltb (length name) 2)) [
    | inl short ↦ absurd (let f : false ≡ true = rw (short, eval) at h in cc)
    | inr long ↦ (
      ground arith,
      elim (Option-cases (exact_val m name)) [
        | inr (v, e) ↦ by_exact v e
        | inl e1 ↦
            elim (Option-cases (suffix_match t glob_match m.suffixes (string_reverse name))) [
              | inr ((d, v), e) ↦ suffix d v e
              | inl e2 ↦ eval_rest-Matches m name (rw (long, e1, e2, eval) at h)
            ]
      ],
    )
  ]
    where
      suffix :
          (d : Bytes) (v : Option V)
          → suffix_match t glob_match m.suffixes (string_reverse name) ≡ some (d, v)
          → Matches t glob_match m name
      suffix d v e =
          let (mem, back) =
            suffix_match-Sound t laws glob_match m.suffixes (reverse name) d v
              (rw string_reverse_lem at e) in
          by_suffix (reverse d) (rw (reverse-reverse d) mem) (CoversBack→Covers d name back)

  -- No rule of any kind is left when the searches find nothing.
  no_match :
      (m : PatternMatcher V Tree) (name : Bytes)
      → OnLabels t laws glob_match m.suffixes (reverse name)
      → exact_val m name ≡ none
      → suffix_match t glob_match m.suffixes (string_reverse name) ≡ none
      → longest_prefix m.prefixes name ≡ none
      → first_substring name m.substrings ≡ none
      → first_pattern glob_match name m.patterns ≡ none
      → ¬ Matches t glob_match m name
  no_match m name n e1 e2 e3 e4 e5 (by_exact v e) = cc
  no_match m name n e1 e2 e3 e4 e5 (by_prefix p mem e) =
      (let f = laws.absent m.prefixes name p e3 mem in cc)
  no_match m name n e1 e2 e3 e4 e5 (by_substring s mem e) =
      (let f = first_substring-none name m.substrings s e4 mem in cc)
  no_match m name n e1 e2 e3 e4 e5 (by_pattern p mem e) =
      first_pattern-none glob_match name m.patterns p e5 mem e
  no_match m name n e1 e2 e3 e4 e5 (by_suffix d mem c) =
      let some' =
        suffix_match_complete t laws glob_match m.suffixes (reverse name) (reverse d) n mem
          (Covers→CoversBack d name c) in
      let none' : suffix_match t glob_match m.suffixes (reverse name) ≡ none =
        rw string_reverse_lem at e2 in
      let f : false ≡ true = rw none' at some' in cc

  eval_rest-reject :
      (m : PatternMatcher V Tree) (name : Bytes)
      → OnLabels t laws glob_match m.suffixes (reverse name)
      → exact_val m name ≡ none
      → suffix_match t glob_match m.suffixes (string_reverse name) ≡ none
      → Matches t glob_match m name
      → (eval_rest t glob_match m name).reject ≡ true
  unfolding eval_rest
  eval_rest-reject m name n e1 e2 h = elim (Option-cases (longest_prefix m.prefixes name)) [
    | inr ((p, v), e) ↦ rw (eval_rest, e)
    | inl e3 ↦ elim (Option-cases (first_substring name m.substrings)) [
      | inr (s, e) ↦ rw (eval_rest, e3, e)
      | inl e4 ↦ elim (Option-cases (first_pattern glob_match name m.patterns)) [
        | inr (p, e) ↦ rw (eval_rest, e3, e4, e)
        | inl e5 ↦ absurd (no_match m name n e1 e2 e3 e4 e5 h)
      ]
    ]
  ]

  -- A name of two bytes or more that a rule is meant for is rejected, provided that no suffix rule
  -- ends in the middle of one of its labels.
  pub Matches-reject :
      (m : PatternMatcher V Tree) (name : Bytes)
      → OnLabels t laws glob_match m.suffixes (reverse name)
      → 2 ≤ length name
      → Matches t glob_match m name
      → (eval t glob_match m name).reject ≡ true
  unfolding eval
  Matches-reject m name n long h = elim (Option-cases (exact_val m name)) [
    | inr (v, e) ↦ rw (eval, le→ltb (length name) 2 long, e)
    | inl e1 ↦ elim (Option-cases (suffix_match t glob_match m.suffixes (string_reverse name))) [
      | inr ((d, v), e) ↦ rw (eval, le→ltb (length name) 2 long, e1, e)
      | inl e2 ↦ rw (eval, le→ltb (length name) 2 long, e1, e2) (eval_rest-reject m name n e1 e2 h)
    ]
  ]
