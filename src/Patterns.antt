-- ===== src/Patterns.antt =====
-- dnscrypt-proxy/pattern_matcher.go: the rules that names are matched against. The tries are of
-- another library, and `filepath.Match` is an argument: `none` is a malformed pattern.
pub mod Tries
pub mod Rules
pub mod Suffixes
pub mod Verdicts
pub mod ListTrie
mod Tests
use sourcegraph_testing_dnsc.Base.{
  Bool, Bytes, List, Option, Result, [], bytes_eq, codes, contains, drop, err, false, get_elem?,
  has_prefix, has_suffix, if◌then◌else◌, is_some, last_index_byte, length, ltb, none, not, ok, some,
  suc, syntax_error, take, to_lower, trim_prefix, true, zero, ℕ, ◌&&◌, ◌++◌, ◌+◌, ◌-◌, ◌==◌, ◌||◌,
  ◌∷◌,
}
use sourcegraph_testing_dnsc.Common.{string_reverse}
use sourcegraph_testing_dnsc.Patterns.Tries.{Trie}

pub data PatternType : Type 0 where
  prefix suffix substring pattern_type exact : PatternType

-- The loop of `isGlobCandidate` from byte `i` on, in a pattern of `n` bytes.
glob_loop : ℕ → ℕ → Bytes → Bool
glob_loop i n [] = false
glob_loop i n (c ∷ s) =
    (c == b'?' || c == b'[')
    || ((c == b'*' && (not (i == 0) && not (i == n - 1))) || glob_loop (i + 1) n s)

unfoldable pub is_glob_candidate : Bytes → Bool
unfolding glob_loop
is_glob_candidate str = glob_loop 0 (length str) str

-- A suffix rule loses a leading star and a leading dot.
suffix_text : Bytes → Bytes
suffix_text pattern =
    let unstarred = if has_prefix pattern (b'*' ∷ []) then drop 1 pattern else pattern in
    trim_prefix unstarred (b'.' ∷ [])

module _ (glob_match : Bytes → Bytes → Option Bool) where
  -- What kind of rule a pattern is, and its text in lower case.
  pub classify : Bytes → Result (PatternType × Bytes)
  unfolding suffix_text
  classify pattern =
      let leading_star = has_prefix pattern (b'*' ∷ []) in
      let trailing_star = has_suffix pattern (b'*' ∷ []) in
      if is_glob_candidate pattern
      then (if ltb (length pattern) 2 || not (is_some (glob_match pattern (codes "example.com")))
          then err syntax_error
          else ok (pattern_type, to_lower pattern))
      else if leading_star && trailing_star
      then (if ltb (length pattern) 3
          then err syntax_error
          else ok (substring, to_lower (take (length pattern - 2) (drop 1 pattern))))
      else if trailing_star
      then (if ltb (length pattern) 2
          then err syntax_error
          else ok (prefix, to_lower (take (length pattern - 1) pattern)))
      else if has_prefix pattern (b'=' ∷ [])
      then (if ltb (length pattern) 2
          then err syntax_error
          else ok (exact, to_lower (drop 1 pattern)))
      else ok (suffix, to_lower (suffix_text pattern))

-- The entries of a Go map from texts, the last one written first.
abbrev pub lookup_text : {V : Type 0} → Bytes → List (Bytes × V) → Option V
lookup_text k [] = none
lookup_text k ((j, v) ∷ m) = if bytes_eq j k then some v else lookup_text k m

-- A value is `none` where it is a nil interface.
pub record PatternMatcher (V Tree : Type 0) : Type 0 where
  pub prefixes : Tree
  pub suffixes : Tree
  pub substrings : List Bytes
  pub patterns : List Bytes
  pub exacts : List (Bytes × Option V)
  pub indirect_vals : List (Bytes × V)

abbrev pub add_indirect : {V : Type 0} → Bytes → Option V → List (Bytes × V) → List (Bytes × V)
add_indirect k none m = m
add_indirect k (some v) m = (k, v) ∷ m

-- A name ends where the match ends, or has a dot there.
abbrev pub at_boundary : Bytes → Bytes → Bool
at_boundary m s =
    length m == length s || elim (get_elem? s (length m)) [ none ↦ false | some c ↦ c == b'.' ]

-- The first substring that is in the name, and the first pattern that matches it.
pub first_substring : Bytes → List Bytes → Option Bytes
first_substring name [] = none
first_substring name (s ∷ rest) = if contains name s then some s else first_substring name rest

pub first_pattern : (Bytes → Bytes → Option Bool) → Bytes → List Bytes → Option Bytes
first_pattern glob_match name [] = none
first_pattern glob_match name (p ∷ rest) = elim (glob_match p name) [
  | none ↦ first_pattern glob_match name rest
  | some true ↦ some p
  | some false ↦ first_pattern glob_match name rest
]

pub record Verdict (V : Type 0) : Type 0 where
  pub reject : Bool
  pub reason : Bytes
  pub val : Option V

abbrev pub pass : {V : Type 0} → Verdict V
pass = record { reject = false; reason = []; val = none }

abbrev pub hit : {V : Type 0} → Bytes → Option V → Verdict V
hit reason val = record { reject = true; reason = reason; val = val }

-- A non-nil value under the whole name; `none` under it is a nil interface, too.
abbrev pub exact_val : {V Tree : Type 0} → PatternMatcher V Tree → Bytes → Option V
exact_val m name = elim (lookup_text name m.exacts) [ none ↦ none | some v ↦ v ]

module _ {V : Type 0} (t : Trie V) (glob_match : Bytes → Bytes → Option Bool) where
  open t use {Tree, empty, insert, longest_prefix}

  unfoldable pub new_pattern_matcher : PatternMatcher V Tree
  new_pattern_matcher = record {
    prefixes = empty;
    suffixes = empty;
    substrings = [];
    patterns = [];
    exacts = [];
    indirect_vals = [];
  }

  add_rule : PatternType → Bytes → Option V → PatternMatcher V Tree → PatternMatcher V Tree
  add_rule substring p val m = record m {
    substrings = m.substrings ++ p ∷ [];
    indirect_vals = add_indirect p val m.indirect_vals;
  }
  add_rule pattern_type p val m = record m {
    patterns = m.patterns ++ p ∷ [];
    indirect_vals = add_indirect p val m.indirect_vals;
  }
  add_rule prefix p val m = record m { prefixes = insert p val m.prefixes }
  add_rule suffix p val m = record m { suffixes = insert (string_reverse p) val m.suffixes }
  add_rule exact p val m = record m { exacts = (p, val) ∷ m.exacts }

  -- `Add`; an empty text is only logged.
  unfoldable pub add : Bytes → Option V → PatternMatcher V Tree → Result (PatternMatcher V Tree)
  unfolding add_rule
  add pattern val m = elim (classify glob_match pattern) [
    | err e ↦ err e
    | ok (kind, text) ↦ ok (add_rule kind text val m)
  ]

  abbrev parent_found : Bytes → Option V → Option (Bytes × Option V) → Option (Bytes × Option V)
  parent_found p_name xval none = none
  parent_found p_name xval (some (m, v)) = if at_boundary m p_name then some (m, xval) else none

  -- The second search, on the name without its first label: the value is that of the first search.
  parent_suffix : Tree → Bytes → Option V → Option ℕ → Option (Bytes × Option V)
  parent_suffix suffixes rev xval none = none
  parent_suffix suffixes rev xval (some zero) = none
  parent_suffix suffixes rev xval (some (suc i)) =
      parent_found (take (suc i) rev) xval (longest_prefix suffixes (take (suc i) rev))

  suffix_found : Tree → Bytes → Option (Bytes × Option V) → Option (Bytes × Option V)
  suffix_found suffixes rev none = none
  suffix_found suffixes rev (some (m, xval)) =
      if at_boundary m rev
      then some (m, xval)
      else if ltb (length m) (length rev) && ltb 0 (length rev)
      then parent_suffix suffixes rev xval (last_index_byte rev b'.')
      else none

  -- The text of the suffix rule that matches the name backwards, with the value that is returned.
  pub suffix_match : Tree → Bytes → Option (Bytes × Option V)
  suffix_match suffixes rev = suffix_found suffixes rev (longest_prefix suffixes rev)

  -- The rules after the suffixes.
  pub eval_rest : PatternMatcher V Tree → Bytes → Verdict V
  eval_rest m name = elim (longest_prefix m.prefixes name) [
    | some (p, xval) ↦ hit (p ++ codes "*") xval
    | none ↦ elim (first_substring name m.substrings) [
      | some s ↦ hit (codes "*" ++ (s ++ codes "*")) (lookup_text s m.indirect_vals)
      | none ↦ elim (first_pattern glob_match name m.patterns) [
        | some p ↦ hit p (lookup_text p m.indirect_vals)
        | none ↦ pass
      ]
    ]
  ]

  pub eval : PatternMatcher V Tree → Bytes → Verdict V
  eval m name = if ltb (length name) 2 then pass else elim (exact_val m name) [
    | some xval ↦ hit name (some xval)
    | none ↦ elim (suffix_match m.suffixes (string_reverse name)) [
      | some (s, xval) ↦ hit (codes "*." ++ string_reverse s) xval
      | none ↦ eval_rest m name
    ]
  ]
