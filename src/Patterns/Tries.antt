-- ===== src/Patterns/Tries.antt =====
-- What pattern_matcher.go uses of the radix tries of `critbitgo`, and what is documented of it.
use sourcegraph_testing_dnsc.Base.{
  Bool, Bytes, List, Option, any, bytes_eq, false, has_prefix, length, none, some, true, ◌||◌, ◌≡◌,
  ◌≤◌,
}

pub record Trie (V : Type 0) : Type 1 where
  pub Tree : Type 0
  pub empty : Tree
  pub insert : Bytes → Option V → Tree → Tree
  pub longest_prefix : Tree → Bytes → Option (Bytes × Option V)
  pub keys : Tree → List Bytes

abbrev pub member : Bytes → List Bytes → Bool
member k ks = any (bytes_eq k) ks

-- `LongestPrefix` finds the longest key that the text begins with, if there is one; `Insert` adds
-- its key.
pub record IsTrie {V : Type 0} (t : Trie V) : Type 0 where
  pub keys-empty : (k : Bytes) → member k (Trie.keys t (Trie.empty t)) ≡ false
  pub keys-insert :
      (k j : Bytes) (v : Option V) (s : Trie.Tree t)
      → member j (Trie.keys t (Trie.insert t k v s)) ≡ (bytes_eq j k || member j (Trie.keys t s))
  pub found :
      (s : Trie.Tree t) (q k : Bytes) (v : Option V)
      → Trie.longest_prefix t s q ≡ some (k, v)
      → (member k (Trie.keys t s) ≡ true) × (has_prefix q k ≡ true)
  pub longest :
      (s : Trie.Tree t) (q k j : Bytes) (v : Option V)
      → Trie.longest_prefix t s q ≡ some (k, v)
      → member j (Trie.keys t s) ≡ true
      → has_prefix q j ≡ true
      → length j ≤ length k
  pub absent :
      (s : Trie.Tree t) (q j : Bytes)
      → Trie.longest_prefix t s q ≡ none
      → member j (Trie.keys t s) ≡ true
      → has_prefix q j ≡ false
