-- ===== src/Patterns/Tests.antt =====
-- pattern_matcher.go at concrete inputs, over tries that are lists and with no glob patterns.
use mathlib.Core.Path.{subst}
use sourcegraph_testing_dnsc.Base.{
  Bool, Bytes, List, Option, [], ap, arith, bytes_eq, bytes_eq→eq, codes, false, length, ok, refl,
  reverse, some, sym, true, ℕ, ◌||◌, ◌∷◌, ◌≡◌, ◌≤◌,
}
use sourcegraph_testing_dnsc.Common.{string_reverse}
use sourcegraph_testing_dnsc.Patterns.ListTrie.{
  entry_keys, list_trie, list_trie-IsTrie, longest_entry,
}
use sourcegraph_testing_dnsc.Patterns.{
  PatternMatcher, Verdict, add, at_boundary, classify, eval, eval_rest, first_pattern,
  first_substring, hit, is_glob_candidate, new_pattern_matcher, parent_suffix, pass, suffix_found,
  suffix_match,
}
use sourcegraph_testing_dnsc.Patterns.Suffixes.{OnLabels}
use sourcegraph_testing_dnsc.Patterns.Verdicts.{Matches, eval-Matches}
use sourcegraph_testing_dnsc.Patterns.Rules.{IsDomain}

abbrev no_globs : Bytes → Bytes → Option Bool
no_globs p s = some false

abbrev Matcher : Type 0
Matcher = PatternMatcher ℕ (List (Bytes × Option ℕ))

abbrev blank : Matcher
blank = record {
  prefixes = [];
  suffixes = [];
  substrings = [];
  patterns = [];
  exacts = [];
  indirect_vals = [];
}

-- One suffix rule, `example.com`, with the value 1.
abbrev one_rule : Matcher
one_rule = record blank { suffixes = (codes "moc.elpmaxe", some 1) ∷ [] }

adds :
    add list_trie no_globs (codes "*.Example.com") (some 1) (new_pattern_matcher list_trie no_globs)
    ≡ ok one_rule
unfolding add longest_entry new_pattern_matcher classify is_glob_candidate string_reverse
adds = refl

covered :
    eval list_trie no_globs one_rule (codes "www.example.com")
    ≡ hit (codes "*.example.com") (some 1)
unfolding eval longest_entry suffix_match suffix_found string_reverse
covered = refl

not_covered : eval list_trie no_globs one_rule (codes "myexample.com") ≡ pass
unfolding eval eval_rest longest_entry suffix_match suffix_found parent_suffix string_reverse
    first_substring first_pattern
not_covered = refl

-- `com` covers `a.xb.com`, but the longer rule `b.com` hides it: neither search ends on a label.
abbrev hidden_rule : Matcher
hidden_rule = record blank { suffixes = (codes "moc", some 1) ∷ (codes "moc.b", some 2) ∷ [] }

hidden : eval list_trie no_globs hidden_rule (codes "a.xb.com") ≡ pass
unfolding eval eval_rest longest_entry suffix_match suffix_found parent_suffix string_reverse
    first_substring first_pattern
hidden = refl

-- The second search finds `com`, and the value that comes back is that of `b.com`.
wrong_value : eval list_trie no_globs hidden_rule (codes "xb.com") ≡ hit (codes "*.com") (some 2)
unfolding eval longest_entry suffix_match suffix_found parent_suffix string_reverse
wrong_value = refl

example-IsDomain : IsDomain (codes "Example.com")
example-IsDomain = record { plain = ground arith; not_empty = cc; no_dot = refl; no_equals = refl }

on_labels :
    OnLabels list_trie list_trie-IsTrie no_globs one_rule.suffixes
      (reverse (codes "www.example.com"))
unfolding entry_keys
on_labels k mem pre =
    let e : k ≡ codes "moc.elpmaxe" =
      bytes_eq→eq k (codes "moc.elpmaxe") (or_right (bytes_eq k (codes "moc.elpmaxe")) mem) in
    subst (λ x. at_boundary x (reverse (codes "www.example.com")) ≡ true) (sym e) refl
  where
    or_right : (b : Bool) → (b || false) ≡ true → b ≡ true
    or_right true h = refl
    or_right false h = h

eval-Matches_example :
    (2 ≤ length (codes "www.example.com"))
    × Matches list_trie no_globs one_rule (codes "www.example.com")
eval-Matches_example =
    eval-Matches list_trie list_trie-IsTrie no_globs one_rule (codes "www.example.com")
      (unfold eval in ap Verdict.reject covered)
